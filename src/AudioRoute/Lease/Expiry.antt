-- ===== src/AudioRoute/Lease/Expiry.antt =====
-- audio.rs and audio/provider.rs: a route does not expire under a device that uses it.
use mux.Prelude.{
  ℕ, suc, ◌+◌, ◌-◌, ◌%◌, ◌^◌, ◌<◌, ◌≡◌, ◌∙◌, refl, ◌||◌, Bool, true, false, Option, none, some,
  arith,
}
use mux.AudioRoute.Lease.{
  Route, Permit, Verdict, stays, over, asks, due, close_admission, settle_verdict, route_expired,
  join, release,
}

-- A route, and how many devices hold it.
pub record Shared : Type 0 where
  pub route : Route
  pub held : ℕ

-- A device joins, a device that holds the route lets it go, or the route is asked whether it is
-- over, whatever its permit, the clock and the time since which it is idle; a device may join while
-- the count of them is a `usize`.
pub data Step (p q : Shared) : Type 0 where
  joins :
      (attachment : ℕ) (activate : Bool) (r : Route)
      → suc p.held < 2 ^ 64
      → join attachment activate p.route ≡ some r
      → q ≡ record { route = r; held = suc p.held }
      → Step p q
  releases : 0 < p.held → q ≡ record { route = release p.route; held = p.held - 1 } → Step p q
  checks :
      (permit : Option Permit) (now : ℕ) (idle : Option ℕ)
      → q ≡ record p { route = (route_expired permit now p.route idle).0 }
      → Step p q

pub data Reach (p : Shared) : Shared → Type 0 where
  here : Reach p p
  next : {q r : Shared} → Reach p q → Step q r → Reach p r

record Counted (p : Shared) : Type 0 where
  few : p.held < 2 ^ 64
  users : p.route.users ≡ p.held
  unused : p.route.accepting ≡ false → p.held ≡ 0

joined :
    (attachment : ℕ) (activate : Bool) (r r' : Route)
    → join attachment activate r ≡ some r'
    → (r.accepting ≡ true) × (r'.accepting ≡ true) × (r'.users ≡ (r.users + 1) % 2 ^ 64)
unfolding join
joined attachment activate r r' h = (ground arith, ground arith, ground arith)

-- However a check comes out.
checked :
    {p : Shared} (verdict : Verdict) (idle : Option ℕ)
    → Counted p
    → Counted
        (record p { route = (settle_verdict verdict (close_admission p.route) p.route idle).0 })
unfolding close_admission
checked stays idle c = c
checked over idle c = c
checked {p} asks idle c = record {
  few = c.few;
  users = ground (arith, c.users);
  unused = ground (arith, c.users, c.unused);
}

Step-Counted : {p q : Shared} → Step p q → Counted p → Counted q
unfolding release route_expired
Step-Counted {p} (joins attachment activate r room h e) c =
    let (was, is, users) = joined attachment activate p.route r h in
    rw e (record {
      few = room;
      users = omega (arith, users, c.users, room);
      unused = λ closed. absurd (cc (is, closed));
    })
Step-Counted {p} (releases some_held e) c = rw e (record {
  few = omega (arith, c.few);
  users = omega (arith, c.users, c.few, some_held);
  unused = λ closed. omega (arith, c.unused closed);
})
Step-Counted {p} (checks permit now idle e) c =
    rw e (checked (due permit now p.route idle).0 (due permit now p.route idle).1 c)

Reach-Counted : {p q : Shared} → Counted p → Reach p q → Counted q
Reach-Counted c here = c
Reach-Counted c (next run step) = Step-Counted step (Reach-Counted c run)

never_again :
    (attachment : ℕ) (activate : Bool) (r : Route)
    → r.accepting ≡ false
    → join attachment activate r ≡ none
unfolding join
never_again attachment activate r h = ground arith

still_closed :
    (r : Route) (verdict : Verdict) (idle : Option ℕ)
    → r.accepting ≡ false
    → (settle_verdict verdict (close_admission r) r idle).0.accepting ≡ false
unfolding close_admission
still_closed r stays idle closed = closed
still_closed r over idle closed = closed
still_closed r asks idle closed = ground (arith, closed)

-- A check whose permit stands ends the route under the lock only.
idle_over :
    (p : Permit) (now : ℕ) (r : Route) (idle : Option ℕ)
    → p.connected ≡ true
    → (p.valid || p.claimed) ≡ true
    → (route_expired (some p) now r idle).1.0 ≡ true
    → (route_expired (some p) now r idle).0.accepting ≡ false
unfolding route_expired due close_admission
idle_over p now r idle linked stands ended = ground (arith, linked, stands, ended)

Step-closed : {p q : Shared} → Step p q → p.route.accepting ≡ false → q.route.accepting ≡ false
unfolding release route_expired close_admission
Step-closed {p} (joins attachment activate r room h e) closed =
    absurd (cc ((joined attachment activate p.route r h).0, closed))
Step-closed (releases some_held e) closed = rw e closed
Step-closed {p} (checks permit now idle e) closed =
    rw e
      (still_closed p.route (due permit now p.route idle).0 (due permit now p.route idle).1 closed)

Reach-closed : {p q : Shared} → p.route.accepting ≡ false → Reach p q → q.route.accepting ≡ false
Reach-closed closed here = closed
Reach-closed closed (next run step) = Step-closed step (Reach-closed closed run)

-- Whatever devices join and let go of a route that was opened, in whatever order with its checks:
-- once a check finds the route over while its permit stands, so because it was idle, no device holds
-- it then or later, and none can join it. The permit stands while its provider is connected and it is
-- valid or claimed; a check that ends the route for the want of that is not meant.
pub closed_unused :
    {p q q' : Shared} (attachment : ℕ) (activate : Bool) (permit : Permit) (now : ℕ)
    (idle : Option ℕ)
    → p.route.users ≡ 0
    → p.route.accepting ≡ true
    → p.held ≡ 0
    → Reach p q
    → permit.connected ≡ true
    → (permit.valid || permit.claimed) ≡ true
    → (route_expired (some permit) now q.route idle).1.0 ≡ true
    → Reach (record q { route = (route_expired (some permit) now q.route idle).0 }) q'
    → (q'.held ≡ 0) × (q'.route.users ≡ 0) × (join attachment activate q'.route ≡ none)
closed_unused {q} attachment activate permit now idle no_users accepting no_held before linked
      stands ended after =
    let c =
      Reach-Counted
        (record {
          few = omega (arith, no_held);
          users = no_users ∙ omega (arith, no_held);
          unused = λ e. absurd (cc (e, accepting));
        })
        before in
    let c' = Reach-Counted (Step-Counted (checks (some permit) now idle refl) c) after in
    let closed = Reach-closed (idle_over permit now q.route idle linked stands ended) after in
    (c'.unused closed, c'.users ∙ c'.unused closed, never_again attachment activate _ closed)
