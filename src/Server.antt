-- ===== src/Server.antt =====
-- crates/muxd/src/server.rs and control.rs: a connection, from its request to the answer or to what
-- takes the connection over. Texts of errors and the postcard bytes of a value are the record
-- `Wire`; what the system answers while a request is served is the record `Answers`.
pub mod Admission
pub mod Keeps
pub mod Relay
pub mod Opening
pub mod Outgoing
pub mod Incoming
pub mod Frames
pub mod Received
pub mod Forward
mod Examples
pub use mux.Peer.{Reply, accepts, rejects}
use mux.Prelude.{
  ℕ, Bool, true, false, List, [], ◌∷◌, ◌++◌, Option, none, some, String, if◌then◌else◌, ltb, leb,
  ◌==◌, ◌||◌, ◌&&◌, not, any, map_or, is_some, or_else, and_then, length,
}
use mux.Prelude.Int.{ℤ}
use mux.Frame.{
  Result, ok, err, ◌>>=◌, IoError, invalid_data, Stream, read_message, write_lane, out_lane_opened,
  out_lane_output, out_lane_events,
}
use mux.Peer.{
  protocol_version, OpenMode, open_pty, list, kill, watch, attach, inspect, observe, input, close,
  reopen, connect, audio, audio_provider, audio_acquire, Opened, attached, listed, killed, watching,
  inspected, observing, input_written, closed, OpenError, ErrorKind, token_rejected, other,
  OpenRequest, PtyInput, PtyEvent, PtyInfo, PtySnapshot, ServerEvent,
}
use mux.Terminal.{Ghostty}
use mux.Session.{
  max_input_bytes, bad_length, PtySession, ClientMsg, output, exit, foreground, Kernel, InputResult,
  written, failed, InputError, partial_write, snapshot, checked_input, current_cwd,
}
use mux.Manager.{
  Failure, not_an_open, Outcome, done, fails, Manager, find, put, open_existing, open_pty as start,
}
use mux.Manager.Listing.{list_ptys}
use mux.Manager.Lease

pub record Wire : Type 0 where
  pub decode_version : List ℕ → Option ℕ
  pub decode_request : List ℕ → Option OpenRequest
  pub encode_reply : Reply → List ℕ
  pub encode_event : ServerEvent → List ℕ
  -- `tls::digest`, SHA-256.
  pub digest : String → ℕ
  pub failure_text : Failure → String
  pub input_text : InputError → String
  pub timeout_text : String
  pub target_text : String → String

pub data Policy : Type 0 where
  local : Policy
  remote : List ℕ → Policy
  remote_connection : List ℕ → ℕ → Policy

abbrev rejected : String → ErrorKind → Option OpenError
rejected detail kind = some (record { detail = detail; kind = kind })

-- `HashSet::contains`
abbrev pub contains : ℕ → List ℕ → Bool
contains d digests = any (λ admitted. admitted == d) digests

admit_remote : Wire → List ℕ → OpenRequest → Option OpenError
admit_remote w admitted request =
    if not (map_or false (λ token. contains (w.digest token) admitted) request.token)
    then rejected "authentication failed" token_rejected
    else map_or none (λ host. rejected (w.target_text host) other) request.target

-- Why a request is not admitted, if it is not.
unfoldable pub admit : Wire → Policy → OpenRequest → Option OpenError
unfolding admit_remote
admit w local request = none
admit w (remote admitted) request = admit_remote w admitted request
admit w (remote_connection admitted connection) request = admit_remote w admitted request

-- How the write of an input went: to its end, broken off, or not within two seconds, because an
-- earlier write held the lock or because the pty took no more.
pub data Delivery : Type 0 where
  whole broken no_lock no_room : Delivery

pub record Answers (vt : Ghostty) : Type 0 where
  pub kernel : PtySession vt → Kernel
  -- What the kernel says of a session that is killed.
  pub victim : Kernel
  pub now : ℕ
  pub generation : ℕ
  -- `pty::spawn` in a directory and with a terminal type.
  pub spawn : Option String → Option String → Option ℤ
  pub delivery : Delivery

-- What a connection comes to: a last reply, or what takes it over.
pub data Service : Type 0 where
  ends : Reply → Service
  relays : OpenRequest → Service
  audio_session : ℕ → OpenMode → Service
  connects : String → Service
  watches : Service
  observes : ℕ → Service
  attaches : ℕ → Bool → Service

abbrev refuse : String → Service
refuse detail = ends (rejects (record { detail = detail; kind = other }))

abbrev input_answer : Wire → ℕ → InputResult → Service
input_answer w bytes (written revision) = ends (accepts (input_written bytes revision))
input_answer w bytes (failed e) = refuse (w.input_text e)

-- A write that stalls ends in a timeout if it was ever begun.
abbrev stalled_answer : Wire → InputResult → Service
stalled_answer w (failed partial_write) = refuse w.timeout_text
stalled_answer w (failed e) = refuse (w.input_text e)
stalled_answer w (written revision) = refuse w.timeout_text

-- An input of no bytes or too many is refused before the lock.
abbrev unlocked_text : Wire → PtyInput → String
unlocked_text w i =
    if length i.bytes == 0 || ltb max_input_bytes (length i.bytes)
    then w.input_text bad_length
    else w.timeout_text

abbrev audio_answer : Policy → OpenMode → Service
audio_answer (remote_connection admitted connection) mode = audio_session connection mode
audio_answer _ mode = refuse "audio requires a remote host connection"

abbrev is_local : Policy → Bool
is_local local = true
is_local _ = false

module _ {vt : Ghostty} where
  unfoldable pub inherited_cwd :
      (PtySession vt → Kernel) → Manager vt → Option String → Option String → Option String
  unfolding current_cwd
  inherited_cwd k m cwd cwd_from =
      or_else cwd
        (and_then cwd_from (λ name. and_then (find name m.shelf) (λ (i, s). current_cwd (k s) s)))

  -- The second of the arguments is the request's mode, here and in `serve_mode`.
  unfoldable pub open_terminal :
      Answers vt → OpenMode → OpenRequest → Manager vt → Manager vt × Outcome (ℕ × Bool)
  unfolding inherited_cwd
  open_terminal a (open_pty name cwd command cwd_from) r m =
      start name command r.cols r.rows (a.spawn (inherited_cwd a.kernel m cwd cwd_from) r.term)
        a.generation m
  open_terminal a (reopen name) r m = Lease.reopen name a.now m
  open_terminal a (attach name) r m = (m, open_existing name m)
  open_terminal a _ r m = (m, fails not_an_open)

  -- The last act of a mode that opens a terminal; `handle_open` attaches the client from there on.
  abbrev open_answer : Wire → Manager vt × Outcome (ℕ × Bool) → Manager vt × Service
  open_answer w (m, done (i, created)) = (m, attaches i created)
  open_answer w (m, fails e) = (m, refuse (w.failure_text e))

  unfoldable pub handle_input :
      Wire → Answers vt → PtyInput → ℕ → PtySession vt → Manager vt → Manager vt × Service
  handle_input w a i place s m =
      let k = a.kernel s in
      elim a.delivery [
        | whole ↦
            let (s', (result, bytes)) = checked_input k true i s in
            (put place s' m, input_answer w (length i.bytes) result)
        | broken ↦
            let (s', (result, bytes)) = checked_input k false i s in
            (put place s' m, input_answer w (length i.bytes) result)
        | no_lock ↦ (m, refuse (unlocked_text w i))
        | no_room ↦
            let (s', (result, bytes)) = checked_input k false i s in
            (put place s' m, stalled_answer w result)
      ]

  -- `control::handle`, for a session that is there.
  unfoldable pub control :
      Wire → Answers vt → OpenMode → ℕ → PtySession vt → Manager vt → Manager vt × Service
  unfolding handle_input
  control w a (inspect name) place s m = (m, ends (accepts (inspected (snapshot (a.kernel s) s))))
  control w a (input name i) place s m = handle_input w a i place s m
  control w a _ place s m = (m, observes place)

  unfoldable pub with_session :
      Wire → Answers vt → String → OpenMode → Manager vt → Manager vt × Service
  unfolding control
  with_session w a name mode m = elim (find name m.shelf) [
    | none ↦ (m, refuse "terminal does not exist")
    | some (place, s) ↦ control w a mode place s m
  ]

  abbrev closed_answer : Wire → Manager vt × Outcome ℕ → Manager vt × Service
  closed_answer w (m, done expires) = (m, ends (accepts (closed expires)))
  closed_answer w (m, fails e) = (m, refuse (w.failure_text e))

  abbrev killed_answer : Manager vt × Bool → Manager vt × Service
  killed_answer (m, existed) = (m, ends (accepts (killed existed)))

  unfoldable pub serve_mode :
      Wire → Policy → Answers vt → OpenMode → OpenRequest → Manager vt → Manager vt × Service
  unfolding with_session open_terminal
  serve_mode w policy a audio_provider r m = (m, audio_answer policy audio_provider)
  serve_mode w policy a (audio_acquire wanted) r m = (m, audio_answer policy (audio_acquire wanted))
  serve_mode w policy a (audio name) r m = (m, audio_answer policy (audio name))
  serve_mode w policy a (connect path) r m = (m, connects path)
  serve_mode w policy a list r m = (m, ends (accepts (listed (list_ptys a.kernel m))))
  serve_mode w policy a (kill name) r m = killed_answer (Lease.kill a.victim name m)
  serve_mode w policy a (close name) r m = closed_answer w (Lease.close name a.now m)
  serve_mode w policy a watch r m = (m, watches)
  serve_mode w policy a (inspect name) r m = with_session w a name (inspect name) m
  serve_mode w policy a (observe name) r m = with_session w a name (observe name) m
  serve_mode w policy a (input name i) r m = with_session w a name (input name i) m
  serve_mode w policy a mode r m = open_answer w (open_terminal a mode r m)

  -- `handle_connection` behind the handshake.
  unfoldable pub handle_request :
      Wire → Policy → Answers vt → OpenRequest → Manager vt → Manager vt × Service
  unfolding admit serve_mode
  handle_request w policy a r m = elim (admit w policy r) [
    | some e ↦ (m, ends (rejects e))
    | none ↦
        if is_some r.target && is_local policy
        then (m, relays r)
        else serve_mode w policy a r.mode r m
  ]
