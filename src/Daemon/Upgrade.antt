-- ===== src/Daemon/Upgrade.antt =====
-- main.rs: the questions that `muxd probe` and `muxd upgrade` ask a daemon.
pub mod Answered
use mux.Prelude.{
  ℕ, ◌≡◌, ◌≢◌, refl, sym, ap, ◌∙◌, ◌≤◌, ◌<◌, inl, inr, Bool, true, false, List, [], ◌∷◌, ◌++◌,
  Option, none, some, String, if◌then◌else◌, ltb, ltb→lt, any, length, arith, Bool-cases, str_eq,
}
use mux.Prelude.Results.{Result, ok, err}
use mux.Frame.{Stream, IoError, write_message, read_lane}
use mux.Frame as frame
use mux.Peer.{
  protocol_version, OpenRequest, OpenMode, list, Reply, accepts, rejects, OpenError, ErrorKind,
  other, unreachable, Opened, listed,
}
use mux.Daemon.{ArgsError, successor_flags}

-- `local` is this machine's daemon.
unfoldable pub host : String → Option String
host alias = if str_eq alias "local" then none else some alias

unfoldable pub query : Option String → OpenMode → OpenRequest
query target mode = record {
  version = protocol_version;
  cols = 0;
  rows = 0;
  term = none;
  token = none;
  target = target;
  mode = mode;
}

pub data ExchangeError : Type 0 where
  io : IoError → ExchangeError
  no_reply undecodable : ExchangeError

abbrev decoded : Option Reply → Result ExchangeError Reply
decoded none = err undecodable
decoded (some reply) = ok reply

-- The first argument is what the socket takes, and the stream is what the daemon answers. The lane
-- of the reply is not looked at.
unfoldable pub exchange :
    (List ℕ → Bool)
    → (OpenRequest → List ℕ)
    → (List ℕ → Option Reply)
    → OpenRequest
    → Stream
    → Result ExchangeError Reply
exchange sends encode decode request s = elim (write_message [] (encode request)) [
  | frame.err e ↦ err (io e)
  | frame.ok message ↦
      if sends message
      then elim (read_lane s) [
        | frame.err e ↦ err (io e)
        | frame.ok none ↦ err no_reply
        | frame.ok (some ((lane, payload), rest)) ↦ decoded (decode payload)
      ]
      else err (io frame.device)
]

-- The texts of the errors.
pub record Texts : Type 0 where
  pub unexpected : Opened → String
  pub failed : ExchangeError → String
  pub timed_out : String → String
  pub usage : ArgsError → String

-- What a probe or an upgrade reports: the ptys and the time, or an error.
abbrev pub Report : Type 0
Report = Result OpenError (ℕ × ℕ)

abbrev because : ErrorKind → String → OpenError
because kind detail = record { detail = detail; kind = kind }

unfoldable pub answer_of : Texts → Result ExchangeError Reply → ℕ → Report
answer_of t (ok (accepts (listed ptys))) time = ok (length ptys, time)
answer_of t (ok (accepts opened)) time = err (because other (t.unexpected opened))
answer_of t (ok (rejects e)) time = err e
answer_of t (err e) time = err (because other (t.failed e))

-- The exit code of `report`.
unfoldable pub report : Report → ℕ
report (ok a) = 0
report (err e) = 1

abbrev pub upgrade_timeout : ℕ
upgrade_timeout = 8000

-- One turn of the loop of `upgrade`: the time when it begins, what comes of the dial, if there is a
-- socket, and the time of the answer.
pub record Poll : Type 0 where
  pub elapsed : ℕ
  pub dialed : Option (Result ExchangeError Reply)
  pub answered : ℕ

-- What an answer makes of the last error, or the end of the loop.
pub data Verdict : Type 0 where
  settled : Report → Verdict
  again : OpenError → Verdict

unfoldable pub judge : Texts → OpenError → Poll → Option (Result ExchangeError Reply) → Verdict
judge t last p none = again last
judge t last p (some (ok (accepts (listed ptys)))) = settled (ok (length ptys, p.answered))
judge t last p (some (ok (accepts opened))) = settled (err (because other (t.unexpected opened)))
judge t last p (some (ok (rejects e))) = again e
judge t last p (some (err e)) = again (because other (t.failed e))

-- `none`: the polls of the run are over, and it is not.
unfoldable pub poll_loop : Texts → OpenError → List Poll → Option Report
unfolding judge
poll_loop t last [] = none
poll_loop t last (p ∷ ps) =
    if ltb p.elapsed upgrade_timeout
    then elim (judge t last p p.dialed) [ settled r ↦ some r | again e ↦ poll_loop t e ps ]
    else some (err (because last.kind (t.timed_out last.detail)))

-- `upgrade`, up to its report: what `spawn_daemon` failed with, if it failed, and the polls.
unfoldable pub upgrade : Texts → List String → Option String → List Poll → Option Report
unfolding successor_flags poll_loop
upgrade t args spawn_failed polls = elim (successor_flags args) [
  | err e ↦ some (err (because other (t.usage e)))
  | ok flags ↦ elim spawn_failed [
    | some detail ↦ some (err (because other detail))
    | none ↦ poll_loop t (because unreachable "nothing answered") polls
  ]
]
