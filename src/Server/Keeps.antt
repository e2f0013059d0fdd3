-- ===== src/Server/Keeps.antt =====
-- server.rs: a request that is served leaves the table valid.
use mux.Prelude.{
  ℕ, ◌≡◌, refl, inl, inr, Bool, true, false, ◌&&◌, some, String, arith, is_some, Bool-cases,
  Option-cases, get_elem?,
}
use mux.Peer.{
  OpenMode, open_pty, list, kill, watch, attach, inspect, observe, input, close, reopen, connect,
  audio, audio_provider, audio_acquire, OpenRequest, PtyInput,
}
use mux.Terminal.{Ghostty}
use mux.Session.{PtySession, Kernel, checked_input}
use mux.Manager.{Manager, Outcome, done, fails, find}
use mux.Manager.Valid.{IsValid, find-eq_some}
use mux.Manager.Keeps.{
  open_pty-IsValid, kill-IsValid, close_for-IsValid, reopen-IsValid, put-IsValid,
}
use mux.Manager.Lease
use mux.Server.{
  Wire, Policy, admit, Answers, Delivery, whole, broken, no_lock, no_room, open_answer,
  closed_answer, is_local, open_terminal, handle_input, control, with_session, serve_mode,
  handle_request,
}

module _ {vt : Ghostty} where
  open_answer-shelf : (w : Wire) (o : Manager vt × Outcome (ℕ × Bool)) → (open_answer w o).0 ≡ o.0
  open_answer-shelf w (m, done (i, b)) = refl
  open_answer-shelf w (m, fails e) = refl

  closed_answer-shelf : (w : Wire) (o : Manager vt × Outcome ℕ) → (closed_answer w o).0 ≡ o.0
  closed_answer-shelf w (m, done d) = refl
  closed_answer-shelf w (m, fails e) = refl

  open_terminal-IsValid :
      (a : Answers vt) (mode : OpenMode) (r : OpenRequest) (m : Manager vt)
      → IsValid m.shelf
      → IsValid (open_terminal a mode r m).0.shelf
  unfolding open_terminal
  open_terminal-IsValid a (open_pty name cwd command cwd_from) r m v =
      open_pty-IsValid name command r.cols r.rows _ a.generation m v
  open_terminal-IsValid a (reopen name) r m v = reopen-IsValid name a.now m v
  open_terminal-IsValid a (attach name) r m v = v
  open_terminal-IsValid a (inspect name) r m v = v
  open_terminal-IsValid a (input name i) r m v = v
  open_terminal-IsValid a (observe name) r m v = v
  open_terminal-IsValid a audio_provider r m v = v
  open_terminal-IsValid a (audio_acquire wanted) r m v = v
  open_terminal-IsValid a (audio name) r m v = v
  open_terminal-IsValid a (connect path) r m v = v
  open_terminal-IsValid a list r m v = v
  open_terminal-IsValid a (kill name) r m v = v
  open_terminal-IsValid a (close name) r m v = v
  open_terminal-IsValid a watch r m v = v

  checked_input-name :
      (k : Kernel) (complete : Bool) (i : PtyInput) (s : PtySession vt)
      → (checked_input k complete i s).0.name ≡ s.name
  unfolding checked_input
  checked_input-name k complete i s = ground arith

  handle_input-IsValid :
      (w : Wire) (a : Answers vt) (i : PtyInput) (place : ℕ) (s : PtySession vt) (m : Manager vt)
      (d : Delivery)
      → a.delivery ≡ d
      → get_elem? m.sessions place ≡ some s
      → IsValid m.shelf
      → IsValid (handle_input w a i place s m).0.shelf
  unfolding handle_input
  handle_input-IsValid w a i place s m whole e at v =
      rw (e, handle_input) (put-IsValid place s _ m at (checked_input-name (a.kernel s) true i s) v)
  handle_input-IsValid w a i place s m broken e at v =
      rw (e, handle_input)
        (put-IsValid place s _ m at (checked_input-name (a.kernel s) false i s) v)
  handle_input-IsValid w a i place s m no_lock e at v = rw (e, handle_input) v
  handle_input-IsValid w a i place s m no_room e at v =
      rw (e, handle_input)
        (put-IsValid place s _ m at (checked_input-name (a.kernel s) false i s) v)

  control-IsValid :
      (w : Wire) (a : Answers vt) (mode : OpenMode) (place : ℕ) (s : PtySession vt) (m : Manager vt)
      → get_elem? m.sessions place ≡ some s
      → IsValid m.shelf
      → IsValid (control w a mode place s m).0.shelf
  unfolding control
  control-IsValid w a (inspect name) place s m at v = v
  control-IsValid w a (input name i) place s m at v =
      handle_input-IsValid w a i place s m a.delivery refl at v
  control-IsValid w a (observe name) place s m at v = v
  control-IsValid w a audio_provider place s m at v = v
  control-IsValid w a (audio_acquire wanted) place s m at v = v
  control-IsValid w a (audio name) place s m at v = v
  control-IsValid w a (connect path) place s m at v = v
  control-IsValid w a list place s m at v = v
  control-IsValid w a (kill name) place s m at v = v
  control-IsValid w a (close name) place s m at v = v
  control-IsValid w a watch place s m at v = v
  control-IsValid w a (open_pty name cwd command cwd_from) place s m at v = v
  control-IsValid w a (attach name) place s m at v = v
  control-IsValid w a (reopen name) place s m at v = v

  with_session-IsValid :
      (w : Wire) (a : Answers vt) (name : String) (mode : OpenMode) (m : Manager vt)
      → IsValid m.shelf
      → IsValid (with_session w a name mode m).0.shelf
  unfolding with_session
  with_session-IsValid w a name mode m v = elim (Option-cases (find name m.shelf)) [
    | inl e ↦ rw (e, with_session) v
    | inr ((place, s), e) ↦
        rw (e, with_session)
          (control-IsValid w a mode place s m ((find-eq_some name m.shelf place s e).1) v)
  ]

  serve_mode-IsValid :
      (w : Wire) (policy : Policy) (a : Answers vt) (mode : OpenMode) (r : OpenRequest)
      (m : Manager vt)
      → IsValid m.shelf
      → IsValid (serve_mode w policy a mode r m).0.shelf
  unfolding serve_mode
  serve_mode-IsValid w policy a audio_provider r m v = v
  serve_mode-IsValid w policy a (audio_acquire wanted) r m v = v
  serve_mode-IsValid w policy a (audio name) r m v = v
  serve_mode-IsValid w policy a (connect path) r m v = v
  serve_mode-IsValid w policy a list r m v = v
  serve_mode-IsValid w policy a (kill name) r m v = kill-IsValid a.victim name m v
  serve_mode-IsValid w policy a (close name) r m v =
      rw (closed_answer-shelf w (Lease.close name a.now m))
        (unfold Lease.close in close_for-IsValid name _ a.now m v)
  serve_mode-IsValid w policy a watch r m v = v
  serve_mode-IsValid w policy a (inspect name) r m v =
      with_session-IsValid w a name (inspect name) m v
  serve_mode-IsValid w policy a (observe name) r m v =
      with_session-IsValid w a name (observe name) m v
  serve_mode-IsValid w policy a (input name i) r m v =
      with_session-IsValid w a name (input name i) m v
  serve_mode-IsValid w policy a (open_pty name cwd command cwd_from) r m v =
      rw (open_answer-shelf w (open_terminal a (open_pty name cwd command cwd_from) r m))
        (open_terminal-IsValid a (open_pty name cwd command cwd_from) r m v)
  serve_mode-IsValid w policy a (attach name) r m v =
      rw (open_answer-shelf w (open_terminal a (attach name) r m))
        (open_terminal-IsValid a (attach name) r m v)
  serve_mode-IsValid w policy a (reopen name) r m v =
      rw (open_answer-shelf w (open_terminal a (reopen name) r m))
        (open_terminal-IsValid a (reopen name) r m v)

  -- Whatever a request asks for and whoever sends it, a valid table is valid when it is served.
  pub handle_request-IsValid :
      (w : Wire) (policy : Policy) (a : Answers vt) (r : OpenRequest) (m : Manager vt)
      → IsValid m.shelf
      → IsValid (handle_request w policy a r m).0.shelf
  unfolding handle_request
  handle_request-IsValid w policy a r m v = elim (Option-cases (admit w policy r)) [
    | inr (e, refused) ↦ rw (refused, handle_request) v
    | inl admitted ↦ elim (Bool-cases (is_some r.target && is_local policy)) [
      | inl relayed ↦ rw (admitted, relayed, handle_request) v
      | inr served ↦
          rw (admitted, served, handle_request) (serve_mode-IsValid w policy a r.mode r m v)
    ]
  ]
