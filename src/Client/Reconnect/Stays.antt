-- ===== src/Client/Reconnect/Stays.antt =====
-- main.rs: when the run of a relay ends, and with what.
use mathlib.Core.Path.{subst}
use mux.Prelude.{
  ◌≡◌, ◌≢◌, sym, refl, arith, ◌⊎◌, inl, inr, any, ◌||◌, Bool, true, false, List, [], ◌∷◌, ◌++◌,
  none, String, if◌then◌else◌, All,
}
use mux.Prelude.Int.{ℤ, pos}
use mux.Prelude.Results.{Result, ok, err}
use mux.Client.{Attach}
use mux.Client.Pump.{Relay, exited, daemon_gone, mirror}
use mux.Client.Reconnect.Paced.{reconnect-IsPaced}
use mux.Client.Reconnect.{
  notice, cannot_attach, Action, Dialed, Turn, fresh_wait, Outcome, left, reconnected, waits,
  reconnect, Connection, then_loop, after_pump, unless_failed, relay_loop, End, runs, exits, fails,
  first_attempt, behind, after_first, run_attach,
}

abbrev has_closed : List Turn → Bool
has_closed turns = any (λ (t : Turn). t.stdin_closed) turns

-- The pane died in one of the waits, or while a pump ran.
abbrev pub pane_died : List Turn → List Connection → Bool
pane_died turns cs =
    has_closed turns || any (λ (c : Connection). c.stdin_closed || has_closed c.turns) cs

-- The daemon sent an exit code in one of the connections, or the terminal took no more, which the
-- pump reports as 0.
abbrev pub Exited : ℤ → List Connection → Type 0
Exited code [] = ⊥
Exited code (c ∷ cs) = (c.relay ≡ exited code) ⊎ Exited code cs

-- What the end of a run rests on: it is none yet, the exit code of a pump, or the death of the pane.
pub data Grounds (turns : List Turn) (cs : List Connection) : End → Type 0 where
  none_yet : Grounds turns cs runs
  by_exit : {code : ℤ} → Exited code cs → Grounds turns cs (exits code)
  by_pane : pane_died turns cs ≡ true → Grounds turns cs (exits (pos 0))

later :
    {cs : List Connection} {end : End} (c : Connection)
    → Grounds [] cs end
    → Grounds [] (c ∷ cs) end
later c none_yet = none_yet
later c (by_exit h) = by_exit (inr h)
later {cs} c (by_pane h) = by_pane (ground (arith, h))

earlier :
    {cs : List Connection} {end : End} (turns : List Turn)
    → Grounds [] cs end
    → Grounds turns cs end
earlier turns none_yet = none_yet
earlier turns (by_exit h) = by_exit h
earlier turns (by_pane h) = by_pane (ground (arith, h))

-- A wait that the pane did not outlive.
waited :
    {turns : List Turn} {cs : List Connection} (r : Outcome × List Action)
    (rest : End × List Action)
    → (r.0 ≢ left) ⊎ (pane_died turns cs ≡ true)
    → Grounds turns cs rest.0
    → Grounds turns cs (then_loop r rest).0
waited (left, actions) rest (inl h) k = absurd (h refl)
waited (left, actions) rest (inr h) k = by_pane h
waited (waits, actions) rest h k = none_yet
waited (reconnected, actions) rest h k = k

lost :
    (c : Connection) (cs : List Connection) (w : Outcome × List Action) (rest : End × List Action)
    (dead : Bool)
    → c.stdin_closed ≡ dead
    → (w.0 ≢ left) ⊎ (has_closed c.turns ≡ true)
    → Grounds [] cs rest.0
    → Grounds [] (c ∷ cs) (if dead then (exits (pos 0), []) else then_loop w rest).0
lost c cs w rest true e h k = by_pane (ground (arith, e))
lost c cs w rest false e (inl h) k = waited w rest (inl h) (later c k)
lost c cs w rest false e (inr h) k = waited w rest (inr (ground (arith, h))) (later c k)

pump_ended :
    (a : Attach) (c : Connection) (cs : List Connection) (rest : End × List Action) (r : Relay)
    → c.relay ≡ r
    → Grounds [] cs rest.0
    → Grounds [] (c ∷ cs) (after_pump a c rest r).0
unfolding after_pump
pump_ended a c cs rest (exited code) e k = by_exit (inl e)
pump_ended a c cs rest (mirror name) e k = later c k
pump_ended a c cs rest daemon_gone e k =
    lost c cs (reconnect a false fresh_wait c.turns) rest c.stdin_closed refl
      (reconnect-IsPaced a false c.turns).3 k

relay_loop-Grounds :
    (a : Attach) (cs : List Connection)
    → All (λ (c : Connection). c.clone_error ≡ none) cs
    → Grounds [] cs (relay_loop a cs).0
unfolding relay_loop
relay_loop-Grounds a [] fine = none_yet
relay_loop-Grounds a (c ∷ cs) (fine, others) =
    subst (λ o. Grounds [] (c ∷ cs) (unless_failed o (after_pump a c (relay_loop a cs) c.relay)).0)
      (sym fine) (pump_ended a c cs (relay_loop a cs) c.relay refl (relay_loop-Grounds a cs others))

first-Grounds :
    (a : Attach) (turns : List Turn) (cs : List Connection) (asked : List Action)
    (r : Result String Bool)
    → a.expect_existing ≡ true
    → Grounds turns cs (relay_loop a cs).0
    → (has_left : ((reconnect a true fresh_wait turns).0 ≢ left) ⊎ (pane_died turns cs ≡ true))
    → Grounds turns cs (after_first a turns cs asked r).0
unfolding after_first
first-Grounds a turns cs asked (ok created) expected k h = k
first-Grounds a turns cs asked (err detail) expected k h =
    subst
      (λ b.
        Grounds turns cs
          (if b
            then behind (asked ++ notice 0 (cannot_attach detail) ∷ [])
                (then_loop (reconnect a true fresh_wait turns) (relay_loop a cs))
            else (fails detail, asked)).0)
      (sym expected) (waited (reconnect a true fresh_wait turns) (relay_loop a cs) h k)

died_waiting :
    {A : Type 0} (turns : List Turn) (cs : List Connection)
    → A ⊎ (has_closed turns ≡ true)
    → A ⊎ (pane_died turns cs ≡ true)
died_waiting turns cs (inl h) = inl h
died_waiting turns cs (inr h) = inr (ground (arith, h))

-- The run of a relay that expects its pane to exist, as long as the descriptors of its sockets can
-- be copied, and whatever its first attempt came to and its daemon answers or fails to answer: it
-- goes on, or it ends with the exit code that one of its pumps ended with, or with 0, for which
-- the pane must have died in one of the waits or while a pump ran. It never ends with an error, and
-- never because the daemon is out of reach.
pub run_attach_stays :
    (a : Attach) (inherited : Bool) (no_daemon : String) (first : Dialed) (turns : List Turn)
    (cs : List Connection)
    → a.expect_existing ≡ true
    → All (λ (c : Connection). c.clone_error ≡ none) cs
    → Grounds turns cs (run_attach a inherited no_daemon first turns cs).0
unfolding run_attach
run_attach_stays a true no_daemon first turns cs expected fine =
    earlier turns (relay_loop-Grounds a cs fine)
run_attach_stays a false no_daemon first turns cs expected fine =
    first-Grounds a turns cs _ (first_attempt no_daemon first) expected
      (earlier turns (relay_loop-Grounds a cs fine))
      (died_waiting turns cs (reconnect-IsPaced a true turns).3)
