-- ===== src/Client/Reconnect/Existing.antt =====
-- main.rs: what a relay asks for over a whole run.
use mux.Prelude.{
  ℕ, ◌≡◌, refl, ◌⊎◌, inl, inr, Bool, true, false, not, ◌&&◌, List, [], ◌∷◌, ◌++◌, Option, none,
  some, String, if◌then◌else◌, All, All-append, Bool-cases, str_eq,
}
use mux.Prelude.Int.{pos}
use mux.Prelude.Results.{Result, ok, err}
use mux.Peer.{OpenMode, attach, reopen}
use mux.Client.{Attach}
use mux.Client.Handshake.{session_mode}
use mux.Client.Pump.{Relay, exited, daemon_gone, mirror}
use mux.Client.Reconnect.{
  Notice, still_retrying, recreated, cannot_attach, Action, notice, sleep, dial, request, Dialed,
  no_socket, answered, Turn, Waiting, fresh_wait, Outcome, left, reconnected, waits, notify_due,
  before_dial, next_wait, after_dial, turn_end, reconnect, Connection, then_loop, after_pump,
  unless_failed, relay_loop, End, exits, fails, first_request, first_attempt, after_first,
  run_attach,
}

-- A request for the pty of that name, of one of the modes.
abbrev pub Asks : (OpenMode → Type 0) → Action → Type 0
Asks P (request mode) = P mode
Asks P (notice elapsed n) = Unit
Asks P (sleep d) = Unit
Asks P (dial spawn elapsed) = Unit

module _ (P : OpenMode → Type 0) where
  notice-Asks :
      (b : Bool) (elapsed : ℕ) (n : Notice) → All (Asks P) (if b then notice elapsed n ∷ [] else [])
  notice-Asks true elapsed n = (tt, tt)
  notice-Asks false elapsed n = tt

  before_dial-Asks : (v : Waiting) (t : Turn) → All (Asks P) (before_dial v t)
  before_dial-Asks v t =
      All-append (Asks P) _ _ (notice-Asks (notify_due v t) t.before still_retrying) (tt, (tt, tt))

  turn_end-Asks :
      (end : Option Outcome) (actions : List Action) (rest : Outcome × List Action)
      → All (Asks P) actions
      → All (Asks P) rest.1
      → All (Asks P) (turn_end end actions rest).1
  turn_end-Asks (some end) actions rest h k = h
  turn_end-Asks none actions rest h k = All-append (Asks P) actions rest.1 h k

  closed-Asks :
      (closed : Bool) (r : Outcome × List Action)
      → All (Asks P) r.1
      → All (Asks P) (if closed then (left, []) else r).1
  closed-Asks true r h = tt
  closed-Asks false r h = h

  module _ (a : Attach) (reopening : Bool) (h : P (session_mode a reopening)) where
    answered-Asks :
        (v : Waiting) (t : Turn) (d : Dialed)
        → t.dialed ≡ d
        → All (Asks P) (after_dial a reopening v t).1
    unfolding after_dial
    answered-Asks v t no_socket e = rw (e, after_dial) tt
    answered-Asks v t (answered (ok created)) e =
        rw (e, after_dial) (h, notice-Asks created t.after recreated)
    answered-Asks v t (answered (err detail)) e =
        elim (Bool-cases (a.require_existing && not (str_eq detail v.last_error))) [
          | inl new ↦ rw (e, new, after_dial) (h, (tt, tt))
          | inr same ↦ rw (e, same, after_dial) (h, tt)
        ]

    reconnect-Asks : (v : Waiting) (ts : List Turn) → All (Asks P) (reconnect a reopening v ts).1
    unfolding reconnect
    reconnect-Asks v [] = tt
    reconnect-Asks v (t ∷ ts) =
        let r = after_dial a reopening (next_wait v t) t in
        closed-Asks t.stdin_closed _ (
          turn_end-Asks r.0 (before_dial v t ++ r.1) (reconnect a reopening r.2 ts)
            (All-append (Asks P) (before_dial v t) r.1 (before_dial-Asks v t)
              (answered-Asks (next_wait v t) t t.dialed refl))
            (reconnect-Asks r.2 ts))

  either-Asks :
      (b : Bool) (r r' : End × List Action)
      → All (Asks P) r.1
      → All (Asks P) r'.1
      → All (Asks P) (if b then r else r').1
  either-Asks true r r' h k = h
  either-Asks false r r' h k = k

  then_loop-Asks :
      (r : Outcome × List Action) (rest : End × List Action)
      → All (Asks P) r.1
      → All (Asks P) rest.1
      → All (Asks P) (then_loop r rest).1
  then_loop-Asks (left, actions) rest h k = h
  then_loop-Asks (waits, actions) rest h k = h
  then_loop-Asks (reconnected, actions) rest h k = All-append (Asks P) actions rest.1 h k

  unless_failed-Asks :
      (e : Option String) (r : End × List Action)
      → All (Asks P) r.1
      → All (Asks P) (unless_failed e r).1
  unless_failed-Asks none r h = h
  unless_failed-Asks (some e) r h = tt

  module _ (a : Attach) (h : P (session_mode a false)) where
    after_pump-Asks :
        (c : Connection) (rest : End × List Action) (r : Relay)
        → All (Asks P) rest.1
        → All (Asks P) (after_pump a c rest r).1
    unfolding after_pump
    after_pump-Asks c rest (exited code) k = tt
    after_pump-Asks c rest (mirror name) k = k
    after_pump-Asks c rest daemon_gone k =
        either-Asks c.stdin_closed (exits (pos 0), []) _ tt
          (then_loop-Asks (reconnect a false fresh_wait c.turns) rest
            (reconnect-Asks a false h fresh_wait c.turns) k)

    relay_loop-Asks : (cs : List Connection) → All (Asks P) (relay_loop a cs).1
    unfolding relay_loop
    relay_loop-Asks [] = tt
    relay_loop-Asks (c ∷ cs) =
        unless_failed-Asks c.clone_error (after_pump a c (relay_loop a cs) c.relay)
          (after_pump-Asks c (relay_loop a cs) c.relay (relay_loop-Asks cs))

    module _ (k : P (session_mode a true)) where
      first-Asks : (d : Dialed) → All (Asks P) (dial true 0 ∷ first_request a d)
      first-Asks no_socket = (tt, tt)
      first-Asks (answered r) = (tt, (k, tt))

      after_first-Asks :
          (turns : List Turn) (cs : List Connection) (asked : List Action) (r : Result String Bool)
          → All (Asks P) asked
          → All (Asks P) (after_first a turns cs asked r).1
      unfolding after_first
      after_first-Asks turns cs asked (ok created) p =
          All-append (Asks P) _ _
            (All-append (Asks P) asked _ p (notice-Asks (created && a.expect_existing) 0 recreated))
            (relay_loop-Asks cs)
      after_first-Asks turns cs asked (err detail) p =
          either-Asks a.expect_existing _ (fails detail, asked)
            (All-append (Asks P) (asked ++ notice 0 (cannot_attach detail) ∷ []) _
              (All-append (Asks P) asked _ p (tt, tt))
              (then_loop-Asks (reconnect a true fresh_wait turns) (relay_loop a cs)
                (reconnect-Asks a true k fresh_wait turns) (relay_loop-Asks cs)))
            p

      run_attach-Asks :
          (inherited : Bool) (no_daemon : String) (first : Dialed) (turns : List Turn)
          (cs : List Connection)
          → All (Asks P) (run_attach a inherited no_daemon first turns cs).1
      unfolding run_attach
      run_attach-Asks true no_daemon first turns cs = relay_loop-Asks cs
      run_attach-Asks false no_daemon first turns cs =
          after_first-Asks turns cs _ (first_attempt no_daemon first) (first-Asks first)

mode_before : (a : Attach) → a.require_existing ≡ true → session_mode a true ≡ reopen a.name
unfolding session_mode
mode_before a e = rw (e, session_mode) refl

mode_after : (a : Attach) → a.require_existing ≡ true → session_mode a false ≡ attach a.name
unfolding session_mode
mode_after a e = rw (e, session_mode) refl

-- A relay that was told `--require-existing` asks over its whole run for its pty by name, to be
-- reopened or attached, and for nothing else, so no new pty is made for it. Once a pump has run, it
-- asks to be attached only: a terminal that was closed since is not reopened.
pub run_attach_existing :
    (a : Attach) (inherited : Bool) (no_daemon : String) (first : Dialed) (turns : List Turn)
    (cs : List Connection)
    → a.require_existing ≡ true
    → All
        (Asks (λ m. (m ≡ reopen a.name) ⊎ (m ≡ attach a.name)))
        (run_attach a inherited no_daemon first turns cs).1
      × All (Asks (λ m. m ≡ attach a.name)) (relay_loop a cs).1
run_attach_existing a inherited no_daemon first turns cs required = (
  run_attach-Asks (λ m. (m ≡ reopen a.name) ⊎ (m ≡ attach a.name)) a (inr (mode_after a required))
      (inl (mode_before a required)) inherited no_daemon first turns cs,
  relay_loop-Asks (λ m. m ≡ attach a.name) a (mode_after a required) cs,
)
