-- ===== src/AudioRoute/Lease.antt =====
-- crates/muxd/src/audio.rs and audio/provider.rs: who may have the audio of a pane. A route is shared
-- by the devices that are open in the pane; it expires when none is.
pub mod Expiry
use mux.Prelude.{
  ℕ, ◌+◌, ◌-◌, ◌%◌, ◌^◌, Bool, true, false, not, ◌||◌, ◌&&◌, List, [], ◌∷◌, Option, none, some,
  String, if◌then◌else◌, ltb, leb, ◌==◌, str_eq, any, map_or, and_then, keep_if, is_some, Table,
  lookup, insert,
}
use mux.Peer.{Request}
use mux.Audio.{max_packet}
use mux.Terminal.{Ghostty}
use mux.Session.{PtySession, AttachedClient}
use mux.Manager.{Manager, find}

-- `closed`: its event channel; `alive`: something still holds it.
pub record Route : Type 0 where
  pub attachment : ℕ
  pub users : ℕ
  pub accepting : Bool
  pub ready : Bool
  pub closed : Bool
  pub alive : Bool

pub record Permit : Type 0 where
  pub request : Request
  pub valid : Bool
  pub claimed : Bool
  pub connected : Bool

pub data RouteError : Type 0 where
  no_terminal not_attached attachment_changed connection_taken no_datagrams disabled
        already_shared :
      RouteError

pub data Routed {ℓ} (A : Type ℓ) : Type ℓ where
  granted : A → Routed A
  denied : RouteError → Routed A

-- What a check of the route comes to: it goes on, it is over, or that is asked under the lock.
pub data Verdict : Type 0 where
  stays over asks : Verdict

abbrev pub idle_limit : ℕ
idle_limit = 300

-- `Route::expired` up to the lock. The second part is `idle`, the time since which nobody uses it.
unfoldable pub due : Option Permit → ℕ → Route → Option ℕ → Verdict × Option ℕ
due none now r idle = (stays, idle)
due (some p) now r idle =
    let since = map_or now (λ t. t) idle in
    if not p.connected || (not p.valid && not p.claimed)
    then (over, idle)
    else if not p.claimed || not (r.users == 0)
    then (stays, none)
    else if ltb (now - since) idle_limit
    then (stays, some since)
    else (asks, some since)

-- Its end, under the lock that `join` takes too.
unfoldable pub close_admission : Route → Route × Bool
close_admission r =
    if not (r.users == 0) then (r, false) else (record r { accepting = false }, true)

abbrev pub settle_verdict : Verdict → Route × Bool → Route → Option ℕ → Route × (Bool × Option ℕ)
settle_verdict stays closing r idle = (r, (false, idle))
settle_verdict over closing r idle = (r, (true, idle))
settle_verdict asks closing r idle = (closing.0, (closing.1, idle))

-- `Route::expired`: the route, whether it is over, and `idle`.
unfoldable pub route_expired : Option Permit → ℕ → Route → Option ℕ → Route × (Bool × Option ℕ)
unfolding due close_admission
route_expired p now r idle =
    let (verdict, since) = due p now r idle in settle_verdict verdict (close_admission r) r since

-- `Registry::join` for a route that is there.
unfoldable pub join : ℕ → Bool → Route → Option Route
join attachment activate r =
    if not (r.attachment == attachment) || (not r.accepting || r.closed)
    then none
    else if not activate && not r.ready
    then none
    else some (record r { ready = r.ready || activate; users = (r.users + 1) % 2 ^ 64 })

-- `DeviceLease::drop`
unfoldable pub release : Route → Route
release r = record r { users = (r.users + (2 ^ 64 - 1)) % 2 ^ 64 }

abbrev retain : Table Route → Table Route
retain [] = []
retain ((name, r) ∷ routes) = let rest = retain routes in if r.alive then (name, r) ∷ rest else rest

-- `Registry::open`
unfoldable pub open_route : Bool → String → ℕ → Bool → Table Route → Routed (Route × Table Route)
open_route enabled name attachment ready routes =
    let r : Route = record {
      attachment = attachment;
      users = 0;
      accepting = true;
      ready = ready;
      closed = false;
      alive = true;
    } in
    if not enabled
    then denied disabled
    else if map_or true (λ other. other.closed)
        (keep_if (λ other. other.alive) (lookup name routes))
    then granted (r, retain (insert name r routes))
    else denied already_shared

-- `ConnectionLease::take`
unfoldable pub take_lease : ℕ → List ℕ → Option (List ℕ)
take_lease id leases = if any (λ i. i == id) leases then none else some (id ∷ leases)

-- `ConnectionLease::drop`
unfoldable pub drop_lease : ℕ → List ℕ → List ℕ
drop_lease id [] = []
drop_lease id (i ∷ leases) = let rest = drop_lease id leases in if i == id then rest else i ∷ rest

-- `Provider::permit`
abbrev same_request : Request → Request → Bool
same_request a b = a.id == b.id && (str_eq a.name b.name && a.attachment == b.attachment)

unfoldable pub permit : Request → Bool → Option Permit → Option Permit
permit wanted connected pending =
    keep_if (λ p. same_request p.request wanted && (p.valid && connected)) pending

abbrev permitted : ℕ → AttachedClient → Option Permit → Bool
permitted connection client p =
    map_or true
      (λ p.
        p.request.attachment == client.id && map_or false (λ c. c == connection) client.connection)
      p

-- The tests under which a route is opened; what was leased for one that then fails is given back.
unfoldable pub lease_route :
    ℕ
    → Option ℕ
    → Bool
    → String
    → Option Permit
    → ℕ
    → List ℕ
    → Table Route
    → Routed (Route × (Table Route × List ℕ))
unfolding take_lease open_route
lease_route connection datagram_size enabled name p owner leases routes =
    elim (take_lease connection leases) [
      | none ↦ denied connection_taken
      | some taken ↦
          if not (map_or false (λ size. leb max_packet size) datagram_size)
          then denied no_datagrams
          else elim (open_route enabled name owner (not (is_some p)) routes) [
            | denied e ↦ denied e
            | granted (r, routes') ↦ granted (r, (routes', taken))
          ]
    ]

unfoldable pub start_route :
    {vt : Ghostty}
    → ℕ
    → Option ℕ
    → Bool
    → String
    → Option Permit
    → Manager vt
    → List ℕ
    → Table Route
    → Routed (Route × (Table Route × List ℕ))
unfolding lease_route
start_route connection datagram_size enabled name p m leases routes = elim (find name m.shelf) [
  | none ↦ denied no_terminal
  | some (i, s) ↦ elim s.client [
    | none ↦ denied not_attached
    | some client ↦
        if not (permitted connection client p)
        then denied attachment_changed
        else lease_route connection datagram_size enabled name p client.id leases routes
  ]
]
