-- ===== src/Server/Opening.antt =====
-- server.rs: the handshake. Which versions are served, and with which modes.
use mux.Prelude.{
  ℕ, ◌≡◌, refl, Bool, not, ◌&&◌, List, ◌++◌, [], Option, none, some, leb, ltb, if◌then◌else◌, arith,
  ◌≤◌,
}
use mux.Peer.{
  protocol_version, OpenRequest, OpenMode, open_pty, list, kill, watch, attach, inspect, observe,
  input, close, reopen, connect, audio, audio_provider, audio_acquire,
}
use mux.Frame.{invalid_data, Result, ok, err, ◌>>=◌, Stream, read_message, write_message}
use mux.Frame.RoundTrip.{read_message-write_message}
use mux.Server.{Wire}

-- The version that brought the mode.
abbrev pub minimum : OpenMode → ℕ
minimum (open_pty name cwd command cwd_from) = 7
minimum list = 7
minimum (kill name) = 7
minimum watch = 7
minimum (attach name) = 8
minimum (close name) = 10
minimum (reopen name) = 10
minimum (inspect name) = 9
minimum (observe name) = 9
minimum (input name i) = 9
minimum (connect path) = 11
minimum (audio name) = 12
minimum audio_provider = 13
minimum (audio_acquire request) = 13

-- A request, or the version of a client that this daemon cannot speak to.
pub data Handshake : Type 0 where
  accepted : OpenRequest → Handshake
  mismatch : ℕ → Handshake

abbrev ok_or {ℓ} : {A : Type ℓ} → Option A → Result A
ok_or none = err invalid_data
ok_or (some a) = ok a

abbrev checked_version : ℕ → Result OpenRequest → Result Handshake
checked_version version (err e) = err e
checked_version version (ok r) =
    ok (if ltb version (minimum r.mode) then mismatch version else accepted r)

unfoldable pub parse_request : Wire → List ℕ → Result Handshake
parse_request w buf = do
  version ← ok_or (w.decode_version buf)
  (if not (leb 7 version && leb version protocol_version)
      then ok (mismatch version)
      else checked_version version (ok_or (w.decode_request buf)))

-- What could not be decoded is an error like one of the stream: the connection ends.
unfoldable pub read_request : Wire → Stream → Result (Handshake × Stream)
unfolding parse_request
read_request w s = do
  (buf, rest) ← read_message s
  handshake ← parse_request w buf
  ok (handshake, rest)

-- The request is in a version that knows its mode, and the daemon speaks that version.
abbrev pub speaks : OpenRequest → Bool
speaks r = leb (minimum r.mode) r.version && leb r.version protocol_version

minimum_le : (mode : OpenMode) → 7 ≤ minimum mode
minimum_le (inspect name) = omega arith
minimum_le (input name i) = omega arith
minimum_le (observe name) = omega arith
minimum_le audio_provider = omega arith
minimum_le (audio_acquire wanted) = omega arith
minimum_le (audio name) = omega arith
minimum_le (connect path) = omega arith
minimum_le list = omega arith
minimum_le (kill name) = omega arith
minimum_le (close name) = omega arith
minimum_le watch = omega arith
minimum_le (open_pty name cwd command cwd_from) = omega arith
minimum_le (attach name) = omega arith
minimum_le (reopen name) = omega arith

-- No mode is older than version 7, so the test of the range is the test of the mode's version.
one_test :
    (version least : ℕ) (r : OpenRequest)
    → 7 ≤ least
    → (if not (leb 7 version && leb version protocol_version)
        then ok (mismatch version)
        else ok (if ltb version least then mismatch version else accepted r))
      ≡ ok (
          if leb least version && leb version protocol_version
          then accepted r
          else mismatch version)
one_test version least r h = ground arith

parse_request_lem :
    (w : Wire) (bytes : List ℕ) (r : OpenRequest)
    → w.decode_version bytes ≡ some r.version
    → w.decode_request bytes ≡ some r
    → parse_request w bytes ≡ ok (if speaks r then accepted r else mismatch r.version)
unfolding parse_request
parse_request_lem w bytes r v d =
    rw (v, d, parse_request) (one_test r.version (minimum r.mode) r (minimum_le r.mode))

-- A request that a client wrote, and that decodes to what it wrote, is accepted as it is if the
-- daemon speaks its version and its mode is not newer than that; otherwise the answer names the
-- client's version. What follows the request on the stream is left there.
pub read_request-write_message :
    (w : Wire) (bytes rest : List ℕ) (b : Bool) (r : OpenRequest) {message : List ℕ}
    → w.decode_version bytes ≡ some r.version
    → w.decode_request bytes ≡ some r
    → write_message [] bytes ≡ ok message
    → read_request w (record { bytes = message ++ rest; broken = b })
      ≡ ok (
        (if speaks r then accepted r else mismatch r.version),
        record { bytes = rest; broken = b },
      )
unfolding read_request
read_request-write_message w bytes rest b r v d h =
    let (frame, same, reads) = read_message-write_message [] bytes rest b h in
    rw (same, reads, parse_request_lem w bytes r v d) refl
