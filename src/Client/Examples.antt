-- ===== src/Client/Examples.antt =====
-- A pane that is restored on another machine: its command line, its session, and a wait.
use mux.Prelude.{
  ℕ, suc, ◌≤◌, ◌≡◌, ◌≢◌, refl, ◌⊎◌, true, false, List, [], ◌∷◌, ◌++◌, Option, none, some, length,
  any, All, to_le,
}
use mux.Prelude.Int.{pos}
use mux.Prelude.Results.{ok, err}
use mux.Text.{codes, same, len}
use mux.Text.Strings.{to_string}
use mux.Frame.{Stream, write_message, encode_message, write_lane, encode}
use mux.Frame as frame
use mux.Peer.{accepts, attached, ServerEvent, OpenMode, attach, reopen, open_pty}
use mux.Peer as peer
use mux.Session.{ClientMsg, output, exit, foreground}
use mux.Server.{Wire}
use mux.Server.Outgoing.{handle_open, forward}
use mux.Client.{
  Attach, parse_args, parse_target, split_once, collect, valid_alias, needs_dir, usage,
}
use mux.Client.Handshake.{open_session}
use mux.Client.Pump.{Pane, exited, daemon_gone, mirror, pump, to_mirror}
use mux.Client.Pump.Shown.{followed, told, open_session-handle_open}
use mux.Client.Reconnect.{
  Turn, Connection, no_socket, answered, left, reconnect, fresh_wait, relay_loop, run_attach,
  after_first, after_pump, notice, still_retrying, sleep, dial, after_dial, request, exits,
}
use mux.Client.Reconnect.Paced.{IsSpaced, IsPaced, alarms, reconnect-IsPaced}
use mux.Client.Reconnect.Stays.{Grounds, run_attach_stays}
use mux.Client.Reconnect.Existing.{Asks, run_attach_existing}

abbrev pane : Attach
pane = record {
  target = some "spark";
  name = "p1";
  cwd = none;
  cwd_from = none;
  command = "htop" ∷ "-d" ∷ [];
  expect_existing = true;
  require_existing = true;
  mirror = false;
}

pane_parsed : parse_args ("--require-existing" ∷ "spark:p1" ∷ "--" ∷ "htop" ∷ "-d" ∷ []) ≡ ok pane
unfolding parse_args collect parse_target split_once same to_string
pane_parsed = refl

no_dir : parse_args ("spark:p1" ∷ "--cwd" ∷ []) ≡ err needs_dir
unfolding parse_args collect
no_dir = refl

no_target : parse_args ("--cwd" ∷ "/tmp" ∷ []) ≡ err usage
unfolding parse_args collect
no_target = refl

here : parse_target (codes "local:a:b") ≡ some (none, codes "a:b")
unfolding parse_target split_once same
here = refl

names_nothing : parse_target (codes "local:") ≡ none
unfolding parse_target split_once same
names_nothing = refl

aliases :
    (valid_alias (codes "python3.14") ≡ true)
    × (valid_alias (codes ".hidden") ≡ false)
    × (valid_alias (codes "a/b") ≡ false)
    × (valid_alias (codes "é") ≡ false)
unfolding valid_alias len
aliases = (refl, refl, refl, refl)

-- Two events have a form on this wire.
abbrev encode_event : ServerEvent → List ℕ
encode_event (peer.exit code) = []
encode_event (peer.foreground name) = 6 ∷ []

abbrev decode_event : List ℕ → Option ServerEvent
decode_event [] = some (peer.exit (pos 7))
decode_event _ = some (peer.foreground "zsh")

abbrev wire : Wire
wire = record {
  decode_version = λ bytes. some 13;
  decode_request = λ bytes. none;
  encode_reply = λ r. 5 ∷ [];
  encode_event = encode_event;
  digest = λ t. 1;
  failure_text = λ f. "failed";
  input_text = λ e. "not written";
  timeout_text = "timed out";
  target_text = λ h. h;
}

-- It mirrors the program in the foreground, and is named like it already.
abbrev shown_as_zsh : Pane
shown_as_zsh = record {
  mirrors = true;
  current_alias = "zsh";
  decode_event = decode_event;
  takes = λ shown payload. true;
}

abbrev talk : List ClientMsg
talk =
    output (104 ∷ []) ∷ foreground "zsh" ∷ output (105 ∷ []) ∷ exit (pos 7) ∷ output (106 ∷ []) ∷ []

abbrev spoken : List ℕ
spoken =
    (2 ∷ 0 ∷ 0 ∷ 0 ∷ 0 ∷ 5 ∷ [])
    ++ (2 ∷ 0 ∷ 0 ∷ 0 ∷ 1 ∷ 100 ∷ [])
    ++ (2 ∷ 0 ∷ 0 ∷ 0 ∷ 1 ∷ 104 ∷ [])
    ++ (2 ∷ 0 ∷ 0 ∷ 0 ∷ 2 ∷ 6 ∷ [])
    ++ (2 ∷ 0 ∷ 0 ∷ 0 ∷ 1 ∷ 105 ∷ [])
    ++ (1 ∷ 0 ∷ 0 ∷ 0 ∷ 2 ∷ [])
    ++ (2 ∷ 0 ∷ 0 ∷ 0 ∷ 1 ∷ 106 ∷ [])

spoken_whole : handle_open wire "p1" false (100 ∷ []) talk ≡ frame.ok spoken
unfolding handle_open forward write_lane encode to_le
spoken_whole = refl

sent_whole : write_message [] (1 ∷ []) ≡ frame.ok (1 ∷ 0 ∷ 0 ∷ 0 ∷ 1 ∷ [])
unfolding write_message encode_message to_le
sent_whole = refl

talk-followed : followed shown_as_zsh talk ≡ (exited (pos 7), 104 ∷ 105 ∷ [])
unfolding followed to_mirror valid_alias len
talk-followed = refl

open_session-handle_open_example :
    (rest : Stream) × (open_session
        (λ m. true)
        (λ r. 1 ∷ [])
        (λ b. some (accepts (attached "p1" false)))
        pane
        (80, 24)
        none
        true
        (record { bytes = spoken; broken = true })
      ≡ ok (rest, false))
    × (told (pump shown_as_zsh (suc (length rest.bytes)) [] rest)
        ≡ some ((followed shown_as_zsh talk).0, (100 ∷ []) ++ (followed shown_as_zsh talk).1))
open_session-handle_open_example =
    open_session-handle_open (λ m. true) (λ r. 1 ∷ []) (λ b. some (accepts (attached "p1" false)))
      pane (80, 24) none true shown_as_zsh wire "p1" false (100 ∷ []) talk (1 ∷ 0 ∷ 0 ∷ 0 ∷ 1 ∷ [])
      spoken true (tt, (refl, (tt, (refl, (tt, tt))))) (λ xs ys. refl) refl sent_whole refl
      spoken_whole

-- A daemon that is gone, one that refuses, one that is slow to come, and one that attaches.
abbrev outage : List Turn
outage =
    record { stdin_closed = false; before = 0; after = 100; dialed = no_socket }
    ∷ record { stdin_closed = false; before = 120; after = 320; dialed = answered (err "no pty") }
    ∷ record { stdin_closed = false; before = 31000; after = 31400; dialed = no_socket }
    ∷ record { stdin_closed = false; before = 40000; after = 40800; dialed = answered (ok false) }
    ∷ []

outage_waits :
    (reconnect (record pane { require_existing = false }) false fresh_wait outage).1
    ≡ sleep 100
      ∷ dial false 100
      ∷ sleep 200
      ∷ dial false 320
      ∷ request (open_pty "p1" none ("htop" ∷ "-d" ∷ []) none)
      ∷ notice 31000 still_retrying
      ∷ sleep 400
      ∷ dial true 31400
      ∷ sleep 800
      ∷ dial true 40800
      ∷ request (open_pty "p1" none ("htop" ∷ "-d" ∷ []) none)
      ∷ []
unfolding reconnect after_dial
outage_waits = refl

reconnect-IsPaced_example :
    IsSpaced 100 false (reconnect pane false fresh_wait outage).1
    × (All IsPaced (reconnect pane false fresh_wait outage).1)
    × (alarms (reconnect pane false fresh_wait outage).1 ≤ 1)
    × (((reconnect pane false fresh_wait outage).0 ≢ left)
        ⊎ (any (λ (t : Turn). t.stdin_closed) outage ≡ true))
reconnect-IsPaced_example = reconnect-IsPaced pane false outage

abbrev connections : List Connection
connections =
    record { clone_error = none; relay = daemon_gone; stdin_closed = false; turns = outage }
    ∷ record { clone_error = none; relay = mirror "vim"; stdin_closed = false; turns = [] }
    ∷ record { clone_error = none; relay = exited (pos 3); stdin_closed = false; turns = [] }
    ∷ []

run_attach_existing_example :
    All
      (Asks (λ m. (m ≡ reopen "p1") ⊎ (m ≡ attach "p1")))
      (run_attach pane false "did not come up" no_socket outage connections).1
    × All (Asks (λ m. m ≡ attach "p1")) (relay_loop pane connections).1
run_attach_existing_example =
    run_attach_existing pane false "did not come up" no_socket outage connections refl

run_attach_stays_example :
    Grounds outage connections
      (run_attach pane false "did not come up" no_socket outage connections).0
run_attach_stays_example =
    run_attach_stays pane false "did not come up" no_socket outage connections refl
      (refl, (refl, (refl, tt)))

run_exits : (run_attach pane false "did not come up" no_socket outage connections).0 ≡ exits (pos 3)
unfolding run_attach after_first relay_loop after_pump reconnect after_dial
run_exits = refl
