-- ===== src/Client/Handshake.antt =====
-- main.rs: the request of a relay, and the reply to it.
use mux.Prelude.{ℕ, Bool, ◌&&◌, List, [], Option, none, some, String, if◌then◌else◌, ◌==◌}
use mux.Prelude.Results.{Result, ok, err}
use mux.Frame.{Stream, IoError, read_lane, write_message, out_lane_opened}
use mux.Frame as frame
use mux.Peer.{
  protocol_version, OpenMode, open_pty, attach, reopen, OpenRequest, Opened, attached, Reply,
  accepts, rejects, OpenError,
}
use mux.Client.{Attach}

-- The mode: the flag is set until the terminal was attached to once.
unfoldable pub session_mode : Attach → Bool → OpenMode
session_mode a reopening =
    if a.require_existing && reopening
    then reopen a.name
    else if a.require_existing
    then attach a.name
    else open_pty a.name a.cwd a.command a.cwd_from

unfoldable pub session_request : Attach → ℕ × ℕ → Option String → Bool → OpenRequest
unfolding session_mode
session_request a (cols, rows) term reopening = record {
  version = protocol_version;
  cols = cols;
  rows = rows;
  term = term;
  token = none;
  target = a.target;
  mode = session_mode a reopening;
}

pub data HandshakeError : Type 0 where
  io : IoError → HandshakeError
  closed_early undecodable : HandshakeError
  unexpected_lane : ℕ → HandshakeError
  refused : OpenError → HandshakeError
  unexpected_reply : Opened → HandshakeError

abbrev reply_of : Option Reply → Stream → Result HandshakeError (Opened × Stream)
reply_of none s = err undecodable
reply_of (some (rejects e)) s = err (refused e)
reply_of (some (accepts opened)) s = ok (opened, s)

-- The reply that is read off the stream, and the rest of it.
unfoldable pub read_reply :
    (List ℕ → Option Reply) → Stream → Result HandshakeError (Opened × Stream)
read_reply decode s = elim (read_lane s) [
  | frame.err e ↦ err (io e)
  | frame.ok none ↦ err closed_early
  | frame.ok (some ((lane, payload), rest)) ↦
      if lane == out_lane_opened then reply_of (decode payload) rest else err (unexpected_lane lane)
]

-- The first argument is what the socket takes, and the stream is what the daemon answers.
unfoldable pub handshake :
    (List ℕ → Bool)
    → (OpenRequest → List ℕ)
    → (List ℕ → Option Reply)
    → OpenRequest
    → Stream
    → Result HandshakeError (Opened × Stream)
unfolding read_reply
handshake sends encode decode request s = elim (write_message [] (encode request)) [
  | frame.err e ↦ err (io e)
  | frame.ok message ↦ if sends message then read_reply decode s else err (io frame.device)
]

abbrev attached_only :
    Result HandshakeError (Opened × Stream) → Result HandshakeError (Stream × Bool)
attached_only (err e) = err e
attached_only (ok (attached name created, s)) = ok (s, created)
attached_only (ok (other, s)) = err (unexpected_reply other)

unfoldable pub open_session :
    (List ℕ → Bool)
    → (OpenRequest → List ℕ)
    → (List ℕ → Option Reply)
    → Attach
    → ℕ × ℕ
    → Option String
    → Bool
    → Stream
    → Result HandshakeError (Stream × Bool)
unfolding handshake session_request
open_session sends encode decode a size term reopening s =
    attached_only (handshake sends encode decode (session_request a size term reopening) s)
