-- ===== src/AudioRoute/Examples.antt =====
-- A route on which playing starts, stops and starts again.
use mux.Prelude.{none, some, refl, ◌≡◌, ◌≡◌, true, false, List, [], ◌∷◌, arith}
use mux.Audio.{fresh}
use mux.AudioRoute.{Event, running, played, opened}
use mux.AudioRoute.Lease.{Route, Permit, due, route_expired, join, release, close_admission}
use mux.AudioRoute.Lease.Expiry.{Shared, joins, releases, here, next, closed_unused}
use mux.AudioRoute.Delivery.{send, all_accepted, all_accepted-send}

abbrev session : List Event
session =
    running 1 false true
    ∷ played (1 ∷ 2 ∷ [])
    ∷ played (3 ∷ 4 ∷ [])
    ∷ running 1 false false
    ∷ running 1 false true
    ∷ played (5 ∷ 6 ∷ [])
    ∷ []

all_accepted-send_example :
    all_accepted 7 fresh (send 7 session opened) (true ∷ false ∷ true ∷ []) ≡ true
all_accepted-send_example = all_accepted-send 7 session (true ∷ false ∷ true ∷ []) (omega arith)

abbrev ringing : Route
ringing = record {
  attachment = 4;
  users = 0;
  accepting = true;
  ready = true;
  closed = false;
  alive = true;
}

-- One device joins and lets go, then the route is asked and is over.
abbrev first : Shared
first = record { route = ringing; held = 0 }

abbrev joined_route : Route
joined_route = record ringing { users = 1 }

abbrev second : Shared
second = record { route = joined_route; held = 1 }

abbrev third : Shared
third = record { route = release joined_route; held = 0 }

-- A claimed permit of a provider that is connected.
abbrev claimed : Permit
claimed = record {
  request = record { id = 1; name = "p1"; attachment = 4 };
  valid = false;
  claimed = true;
  connected = true;
}

-- Nobody has used the route since the time 10.
abbrev last : Shared
last = record third { route = (route_expired (some claimed) 400 third.route (some 10)).0 }

join_first : join 4 false ringing ≡ some joined_route
unfolding join
join_first = refl

last_over : (route_expired (some claimed) 400 third.route (some 10)).1.0 ≡ true
unfolding route_expired due close_admission release
last_over = refl

closed_unused_example : (last.held ≡ 0) × (last.route.users ≡ 0) × (join 4 true last.route ≡ none)
closed_unused_example =
    closed_unused 4 true claimed 400 (some 10) refl refl refl
      (next (next here (joins 4 false joined_route (omega arith) join_first refl))
        (releases (omega arith) refl))
      refl refl last_over here
