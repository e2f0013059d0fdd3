-- ===== src/Server/Relay.antt =====
-- server.rs: which requests are relayed to another host.
use mux.Prelude.{
  ℕ, ◌≡◌, refl, inl, inr, Bool, true, false, ◌&&◌, String, is_some, Bool-cases, Option-cases,
}
use mux.Peer.{
  OpenMode, open_pty, list, kill, watch, attach, inspect, observe, input, close, reopen, connect,
  audio, audio_provider, audio_acquire, OpenRequest, PtyInput,
}
use mux.Terminal.{Ghostty}
use mux.Session.{
  InputResult, written, failed, partial_write, bad_length, no_foreground, stale, PtySession,
}
use mux.Manager.{Manager, Outcome, done, fails, find}
use mux.Server.{
  Wire, Policy, local, remote, remote_connection, admit, Answers, Delivery, whole, broken, no_lock,
  no_room, Service, relays, input_answer, stalled_answer, open_answer, closed_answer, audio_answer,
  is_local, handle_input, control, with_session, serve_mode, handle_request,
}

abbrev pub is_relay : Service → Bool
is_relay (relays r) = true
is_relay _ = false

audio_answer-is_relay :
    (policy : Policy) (mode : OpenMode) → is_relay (audio_answer policy mode) ≡ false
audio_answer-is_relay local mode = refl
audio_answer-is_relay (remote admitted) mode = refl
audio_answer-is_relay (remote_connection admitted c) mode = refl

input_answers-is_relay :
    (w : Wire) (n : ℕ) (result : InputResult)
    → (is_relay (input_answer w n result) ≡ false) × (is_relay (stalled_answer w result) ≡ false)
input_answers-is_relay w n (written revision) = (refl, refl)
input_answers-is_relay w n (failed partial_write) = (refl, refl)
input_answers-is_relay w n (failed bad_length) = (refl, refl)
input_answers-is_relay w n (failed no_foreground) = (refl, refl)
input_answers-is_relay w n (failed stale) = (refl, refl)

module _ {vt : Ghostty} where
  open_answer-is_relay :
      (w : Wire) (o : Manager vt × Outcome (ℕ × Bool)) → is_relay (open_answer w o).1 ≡ false
  open_answer-is_relay w (m, done (i, b)) = refl
  open_answer-is_relay w (m, fails e) = refl

  closed_answer-is_relay :
      (w : Wire) (o : Manager vt × Outcome ℕ) → is_relay (closed_answer w o).1 ≡ false
  closed_answer-is_relay w (m, done d) = refl
  closed_answer-is_relay w (m, fails e) = refl

  handle_input-is_relay :
      (w : Wire) (a : Answers vt) (i : PtyInput) (place : ℕ) (s : PtySession vt) (m : Manager vt)
      (d : Delivery)
      → a.delivery ≡ d
      → is_relay (handle_input w a i place s m).1 ≡ false
  unfolding handle_input
  handle_input-is_relay w a i place s m whole e =
      rw (e, handle_input) ((input_answers-is_relay w _ _).0)
  handle_input-is_relay w a i place s m broken e =
      rw (e, handle_input) ((input_answers-is_relay w _ _).0)
  handle_input-is_relay w a i place s m no_lock e = rw (e, handle_input) refl
  handle_input-is_relay w a i place s m no_room e =
      rw (e, handle_input) ((input_answers-is_relay w 0 _).1)

  control-is_relay :
      (w : Wire) (a : Answers vt) (mode : OpenMode) (place : ℕ) (s : PtySession vt) (m : Manager vt)
      → is_relay (control w a mode place s m).1 ≡ false
  unfolding control
  control-is_relay w a (inspect name) place s m = refl
  control-is_relay w a (input name i) place s m =
      handle_input-is_relay w a i place s m a.delivery refl
  control-is_relay w a (observe name) place s m = refl
  control-is_relay w a audio_provider place s m = refl
  control-is_relay w a (audio_acquire wanted) place s m = refl
  control-is_relay w a (audio name) place s m = refl
  control-is_relay w a (connect path) place s m = refl
  control-is_relay w a list place s m = refl
  control-is_relay w a (kill name) place s m = refl
  control-is_relay w a (close name) place s m = refl
  control-is_relay w a watch place s m = refl
  control-is_relay w a (open_pty name cwd command cwd_from) place s m = refl
  control-is_relay w a (attach name) place s m = refl
  control-is_relay w a (reopen name) place s m = refl

  with_session-is_relay :
      (w : Wire) (a : Answers vt) (name : String) (mode : OpenMode) (m : Manager vt)
      → is_relay (with_session w a name mode m).1 ≡ false
  unfolding with_session control
  with_session-is_relay w a name mode m = elim (Option-cases (find name m.shelf)) [
    | inl e ↦ rw (e, with_session) refl
    | inr ((place, s), e) ↦ rw (e, with_session) (control-is_relay w a mode place s m)
  ]

  serve_mode-is_relay :
      (w : Wire) (policy : Policy) (a : Answers vt) (mode : OpenMode) (r : OpenRequest)
      (m : Manager vt)
      → is_relay (serve_mode w policy a mode r m).1 ≡ false
  unfolding serve_mode
  serve_mode-is_relay w policy a audio_provider r m = audio_answer-is_relay policy audio_provider
  serve_mode-is_relay w policy a (audio_acquire wanted) r m =
      audio_answer-is_relay policy (audio_acquire wanted)
  serve_mode-is_relay w policy a (audio name) r m = audio_answer-is_relay policy (audio name)
  serve_mode-is_relay w policy a (connect path) r m = refl
  serve_mode-is_relay w policy a list r m = refl
  serve_mode-is_relay w policy a (kill name) r m = refl
  serve_mode-is_relay w policy a (close name) r m = closed_answer-is_relay w _
  serve_mode-is_relay w policy a watch r m = refl
  serve_mode-is_relay w policy a (inspect name) r m =
      with_session-is_relay w a name (inspect name) m
  serve_mode-is_relay w policy a (observe name) r m =
      with_session-is_relay w a name (observe name) m
  serve_mode-is_relay w policy a (input name i) r m =
      with_session-is_relay w a name (input name i) m
  serve_mode-is_relay w policy a (open_pty name cwd command cwd_from) r m = open_answer-is_relay w _
  serve_mode-is_relay w policy a (attach name) r m = open_answer-is_relay w _
  serve_mode-is_relay w policy a (reopen name) r m = open_answer-is_relay w _

  not_local :
      (w : Wire) (policy : Policy) (a : Answers vt) (r : OpenRequest) (m : Manager vt)
      → is_local policy ≡ false
      → is_relay (handle_request w policy a r m).1 ≡ false
  unfolding handle_request
  not_local w policy a r m h = elim (Option-cases (admit w policy r)) [
    | inr (e, refused) ↦ rw (refused, handle_request) refl
    | inl admitted ↦ elim (Bool-cases (is_some r.target)) [
      | inl target ↦
          rw (admitted, target, h, handle_request) (serve_mode-is_relay w policy a r.mode r m)
      | inr none_named ↦
          rw (admitted, none_named, handle_request) (serve_mode-is_relay w policy a r.mode r m)
    ]
  ]

  -- A request is relayed exactly if it came over the local socket and names a target, whatever its
  -- mode: no request over the network makes this daemon dial another one.
  pub handle_request-is_relay :
      (w : Wire) (policy : Policy) (a : Answers vt) (r : OpenRequest) (m : Manager vt)
      → is_relay (handle_request w policy a r m).1 ≡ (is_local policy && is_some r.target)
  unfolding handle_request admit
  handle_request-is_relay w local a r m = elim (Bool-cases (is_some r.target)) [
    | inl named ↦ rw (named, handle_request) refl
    | inr unnamed ↦ rw (unnamed, handle_request) (serve_mode-is_relay w local a r.mode r m)
  ]
  handle_request-is_relay w (remote admitted) a r m = not_local w (remote admitted) a r m refl
  handle_request-is_relay w (remote_connection admitted c) a r m =
      not_local w (remote_connection admitted c) a r m refl
