-- ===== src/Server/Examples.antt =====
-- Requests to a daemon with no ptys, over the socket and over the network.
use mux.Prelude.{
  suc, ℕ, ◌≡◌, refl, true, false, List, [], ◌∷◌, ◌++◌, none, some, Option, ◌==◌, if◌then◌else◌,
  length, to_le,
}
use mux.Prelude.Int.{pos}
use mux.Frame.{ok, write_message, encode_message, write_lane, encode}
use mux.Peer.{OpenRequest, open_pty, attach, token_rejected}
use mux.Terminal.Recorder.{recorder}
use mux.Session.{Kernel, ClientMsg, output, exit}
use mux.Manager.{Manager, empty}
use mux.Manager.Valid.{IsValid}
use mux.Manager.Adopt.Valid.{nothing_staged}
use mux.Server.{Wire, local, remote, Answers, whole, ends, rejects, handle_request}
use mux.Server.Outgoing.{handle_open, forward}
use mux.Frame.{stream}
use mux.Session.Shell.{shell}
use mux.Server.Incoming.{Intake, receive}
use mux.Server.Frames.{write_frames, given, all_written}
use mux.Server.Received.{take_all, receive-write_frames, closing, intake_of, went_on}
use mux.Server.Admission.{handle_request_stranger}
use mux.Server.Keeps.{handle_request-IsValid}
use mux.Server.Opening.{speaks, read_request, accepted, mismatch, read_request-write_message}
use mux.Server.Forward.{read_frames, expected, read_frames-handle_open}

abbrev wanted : OpenRequest
wanted = record {
  version = 13;
  cols = 80;
  rows = 24;
  term = none;
  token = some "guess";
  target = some "host";
  mode = open_pty "p1" none [] none;
}

-- Attaching came with version 8.
abbrev too_old : OpenRequest
too_old = record wanted { version = 7; mode = attach "p1" }

-- A codec that knows the one request, as the byte 1.
abbrev wire : Wire
wire = record {
  decode_version = λ bytes. some 7;
  decode_request = λ bytes. some too_old;
  encode_reply = λ r. 5 ∷ [];
  encode_event = λ e. 6 ∷ [];
  digest = λ t. 1;
  failure_text = λ f. "failed";
  input_text = λ e. "not written";
  timeout_text = "timed out";
  target_text = λ h. h;
}

abbrev kernel : Kernel
kernel = record { foreground_pgid = none; process_cwd = λ pid. none }

abbrev answers : Answers recorder
answers = record {
  kernel = λ s. kernel;
  victim = kernel;
  now = 5;
  generation = 7;
  spawn = λ cwd term. some (pos 100);
  delivery = whole;
}

abbrev bare : Manager recorder
bare = empty

handle_request_stranger_example :
    handle_request wire (remote (2 ∷ [])) answers wanted bare
    ≡ (bare, ends (rejects (record { detail = "authentication failed"; kind = token_rejected })))
handle_request_stranger_example =
    handle_request_stranger wire (remote (2 ∷ [])) answers wanted bare (2 ∷ []) refl refl

handle_request-IsValid_example :
    IsValid (handle_request wire local answers (record wanted { target = none }) bare).0.shelf
handle_request-IsValid_example =
    handle_request-IsValid wire local answers (record wanted { target = none }) bare
      (nothing_staged [])

abbrev sent : List ℕ
sent = 1 ∷ 0 ∷ 0 ∷ 0 ∷ 1 ∷ []

sent_whole : write_message [] (1 ∷ []) ≡ ok sent
unfolding write_message encode_message to_le
sent_whole = refl

read_request-write_message_example :
    read_request wire (record { bytes = sent ++ []; broken = false })
    ≡ ok (
      (if speaks too_old then accepted too_old else mismatch too_old.version),
      record { bytes = []; broken = false },
    )
read_request-write_message_example =
    read_request-write_message wire (1 ∷ []) [] false too_old refl refl sent_whole

abbrev talk : List ClientMsg
talk = output (104 ∷ []) ∷ exit (pos 0) ∷ []

abbrev spoken : List ℕ
spoken =
    2 ∷ 0 ∷ 0 ∷ 0 ∷ 0 ∷ 5 ∷ 1 ∷ 0 ∷ 0 ∷ 0 ∷ 1 ∷ 2 ∷ 0 ∷ 0 ∷ 0 ∷ 1 ∷ 104 ∷ 2 ∷ 0 ∷ 0 ∷ 0 ∷ 2 ∷ 6 ∷ []

spoken_whole : handle_open wire "p1" true [] talk ≡ ok spoken
unfolding handle_open forward write_lane encode to_le
spoken_whole = refl

read_frames-handle_open_example :
    read_frames
      (length (expected wire "p1" true [] talk))
      (record { bytes = spoken ++ []; broken = false })
    ≡ ok (expected wire "p1" true [] talk, record { bytes = []; broken = false })
read_frames-handle_open_example =
    read_frames-handle_open wire "p1" true [] talk [] false spoken spoken_whole

-- A client that types, sends a control frame that does not decode, types again and departs.
abbrev intake : Intake recorder
intake = record { session = shell; typed = []; dumps = []; frames = 0 }

abbrev strokes : List (ℕ × List ℕ)
strokes = (0, 108 ∷ []) ∷ (1, 9 ∷ []) ∷ (0, 115 ∷ []) ∷ []

abbrev stroke_bytes : List ℕ
stroke_bytes = 2 ∷ 0 ∷ 0 ∷ 0 ∷ 0 ∷ 108 ∷ 2 ∷ 0 ∷ 0 ∷ 0 ∷ 1 ∷ 9 ∷ 2 ∷ 0 ∷ 0 ∷ 0 ∷ 0 ∷ 115 ∷ []

strokes_written : write_frames strokes [] ≡ ok stroke_bytes
unfolding write_frames write_lane encode to_le
strokes_written = refl

-- The second write to the pty fails at once.
abbrev full_pty : ℕ → Option ℕ
full_pty n = if n == 2 then some 0 else none

receive-write_frames_example :
    (receive
        (λ b. none)
        (λ n. true)
        full_pty
        (suc (length stroke_bytes))
        intake
        (stream stroke_bytes)
      ≡ closing (take_all (λ b. none) (λ n. true) full_pty strokes intake))
    × ((intake_of (take_all (λ b. none) (λ n. true) full_pty strokes intake)).typed
        ≡ [] ++ given full_pty 0 strokes)
    × (went_on (take_all (λ b. none) (λ n. true) full_pty strokes intake)
        ≡ all_written full_pty 0 strokes)
receive-write_frames_example =
    receive-write_frames (λ b. none) (λ n. true) full_pty strokes intake stroke_bytes
      strokes_written

given-strokes : given full_pty 0 strokes ≡ (108 ∷ []) ∷ [] ∷ []
unfolding given
given-strokes = refl
