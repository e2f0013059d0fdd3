-- ===== src/Client/Reconnect.antt =====
-- main.rs: `run_attach`, `relay_loop` and `reconnect`. What the system and the daemon do in each
-- turn of a loop is an argument; what the relay does is the list of its actions.
pub mod Existing
pub mod Paced
pub mod Stays
use mux.Prelude.{
  ℕ, ◌*◌, ◌<◌, Bool, true, false, not, ◌&&◌, ◌||◌, List, [], ◌∷◌, ◌++◌, Option, none, some, String,
  if◌then◌else◌, ltb, min, str_eq,
}
use mux.Prelude.Int.{ℤ, pos}
use mux.Prelude.Results.{Result, ok, err}
use mux.Peer.{OpenMode}
use mux.Client.{Attach}
use mux.Client.Handshake.{session_mode}
use mux.Client.Pump.{Relay, exited, daemon_gone, mirror}

-- Durations are in milliseconds.
abbrev pub reconnect_backoff : ℕ
reconnect_backoff = 100

abbrev pub reconnect_backoff_max : ℕ
reconnect_backoff_max = 2000

abbrev pub reconnect_notify : ℕ
reconnect_notify = 30000

abbrev pub respawn_after : ℕ
respawn_after = 5000

pub data Notice : Type 0 where
  still_retrying recreated : Notice
  cannot_attach cannot_reattach : String → Notice

-- A dial with `spawn` starts a daemon where none answers; `elapsed` is the time since the wait began.
pub data Action : Type 0 where
  notice : ℕ → Notice → Action
  sleep : ℕ → Action
  dial : (spawn : Bool) → (elapsed : ℕ) → Action
  request : OpenMode → Action

-- What a dial and the handshake on it come to: no socket, or the reply, whose flag says that the pty
-- is a new one.
pub data Dialed : Type 0 where
  no_socket : Dialed
  answered : Result String Bool → Dialed

-- One turn of `reconnect`: whether the pane died, the clock before the sleep and after it, and the
-- dial.
pub record Turn : Type 0 where
  pub stdin_closed : Bool
  pub before : ℕ
  pub after : ℕ
  pub dialed : Dialed

-- The variables of `reconnect`.
pub record Waiting : Type 0 where
  pub backoff : ℕ
  pub notified : Bool
  pub last_error : String

abbrev pub fresh_wait : Waiting
fresh_wait = record { backoff = reconnect_backoff; notified = false; last_error = "" }

-- How a wait ends: the pane died and the process exits with 0, a stream was opened, or the turns of
-- the run are over.
pub data Outcome : Type 0 where
  left reconnected waits : Outcome

abbrev pub notify_due : Waiting → Turn → Bool
notify_due v t = not v.notified && ltb reconnect_notify t.before

-- The actions of a turn up to its dial.
abbrev pub before_dial : Waiting → Turn → List Action
before_dial v t =
    (if notify_due v t then notice t.before still_retrying ∷ [] else [])
    ++ sleep v.backoff ∷ dial (not (ltb t.after respawn_after)) t.after ∷ []

abbrev pub next_wait : Waiting → Turn → Waiting
next_wait v t = record v {
  backoff = min (v.backoff * 2) reconnect_backoff_max;
  notified = v.notified || notify_due v t;
}

-- What follows the dial of a turn: `none` is another turn.
unfoldable pub after_dial : Attach → Bool → Waiting → Turn → Option Outcome × List Action × Waiting
unfolding session_mode
after_dial a reopening v t = elim t.dialed [
  | no_socket ↦ (none, [], v)
  | answered (ok created) ↦ (
    some reconnected,
    request (session_mode a reopening) ∷ (if created then notice t.after recreated ∷ [] else []),
    v,
  )
  | answered (err detail) ↦
      if a.require_existing && not (str_eq detail v.last_error)
      then (
        none,
        request (session_mode a reopening) ∷ notice t.after (cannot_reattach detail) ∷ [],
        record v { last_error = detail },
      )
      else (none, request (session_mode a reopening) ∷ [], v)
]

abbrev pub turn_end : Option Outcome → List Action → Outcome × List Action → Outcome × List Action
turn_end (some end) actions rest = (end, actions)
turn_end none actions rest = (rest.0, actions ++ rest.1)

unfoldable pub reconnect : Attach → Bool → Waiting → List Turn → Outcome × List Action
unfolding after_dial
reconnect a reopening v [] = (waits, [])
reconnect a reopening v (t ∷ ts) =
    let (end, actions, v') = after_dial a reopening (next_wait v t) t in
    let rest = reconnect a reopening v' ts in
    if t.stdin_closed then (left, []) else turn_end end (before_dial v t ++ actions) rest

-- One connection, from its pump to the next one: the error of the copy of its descriptor, if there
-- is one, why the pump ended, whether the pane had died by then, and the turns of the wait that
-- follows. After `mirror` the exec failed, and the socket is kept.
pub record Connection : Type 0 where
  pub clone_error : Option String
  pub relay : Relay
  pub stdin_closed : Bool
  pub turns : List Turn

-- The end of a run: none yet, an exit code, or an error that `main` returns.
pub data End : Type 0 where
  runs : End
  exits : ℤ → End
  fails : String → End

abbrev pub then_loop : Outcome × List Action → End × List Action → End × List Action
then_loop (left, actions) rest = (exits (pos 0), actions)
then_loop (waits, actions) rest = (runs, actions)
then_loop (reconnected, actions) rest = (rest.0, actions ++ rest.1)

-- What comes of the end of a pump; `rest` is what comes of the next connection.
unfoldable pub after_pump : Attach → Connection → End × List Action → Relay → End × List Action
unfolding reconnect
after_pump a c rest (exited code) = (exits code, [])
after_pump a c rest (mirror name) = rest
after_pump a c rest daemon_gone =
    if c.stdin_closed
    then (exits (pos 0), [])
    else then_loop (reconnect a false fresh_wait c.turns) rest

abbrev pub unless_failed : Option String → End × List Action → End × List Action
unless_failed none r = r
unless_failed (some e) r = (fails e, [])

unfoldable pub relay_loop : Attach → List Connection → End × List Action
relay_loop a [] = (runs, [])
relay_loop a (c ∷ cs) = unless_failed c.clone_error (after_pump a c (relay_loop a cs) c.relay)

abbrev pub first_request : Attach → Dialed → List Action
first_request a no_socket = []
first_request a (answered r) = request (session_mode a true) ∷ []

-- `connect().and_then(open_session)`: without a socket, the detail is the one of `connect`.
abbrev pub first_attempt : String → Dialed → Result String Bool
first_attempt no_daemon no_socket = err no_daemon
first_attempt no_daemon (answered r) = r

abbrev pub behind : List Action → End × List Action → End × List Action
behind before (end, actions) = (end, before ++ actions)

-- What comes of the first attempt; `asked` is what the relay did for it.
unfoldable pub after_first :
    Attach → List Turn → List Connection → List Action → Result String Bool → End × List Action
unfolding relay_loop reconnect
after_first a turns cs asked (ok created) =
    behind (asked ++ (if created && a.expect_existing then notice 0 recreated ∷ [] else []))
      (relay_loop a cs)
after_first a turns cs asked (err detail) =
    if a.expect_existing
    then behind (asked ++ notice 0 (cannot_attach detail) ∷ [])
        (then_loop (reconnect a true fresh_wait turns) (relay_loop a cs))
    else (fails detail, asked)

-- `run_attach`: whether a predecessor left a socket, the first attempt where there is none, the
-- turns of the wait after it where it fails, and the connections from then on.
unfoldable pub run_attach :
    Attach → Bool → String → Dialed → List Turn → List Connection → End × List Action
unfolding relay_loop
run_attach a true no_daemon first turns cs = relay_loop a cs
run_attach a false no_daemon first turns cs =
    after_first a turns cs (dial true 0 ∷ first_request a first) (first_attempt no_daemon first)
