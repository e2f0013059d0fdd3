-- ===== src/Manager/Calls.antt =====
-- manager.rs: any sequence of calls on the table, of tasks that run, and of things that happen to
-- the terminals in it.
use mux.Prelude.{
  ℕ, ◌≡◌, refl, ap, inl, inr, Bool, false, List, Option, none, some, Option-cases, String, arith,
  get_elem?,
}
use mux.Prelude.Int.{ℤ}
use mux.Text.{Text}
use mux.Terminal.{Ghostty}
use mux.Agents.Gate.{Matcher}
use mux.Agents.Manifest.{AgentManifest}
use mux.Agents.Names.Table.{Agent}
use mux.Manager.Detecting.{Detected, detector_task, detector_task-kept}
use mux.Manager.Lease.Kill.{broadcast-shelf}
use mux.Session.{
  PtySession, Kernel, feed_chunk, attach_on, resize_session, mark_exited, write_input,
  checked_input, detach,
}
use mux.Session.Input.{Moves, fed, attaches, resizes, exits, types, submits}
use mux.Manager.{Manager, Received, put, broadcast, open_pty, schedule_agent}
use mux.Manager.Keeps.{
  open_pty-IsValid, kill-IsValid, expire-IsValid, close_for-IsValid, reopen-IsValid, reap-IsValid,
  put-IsValid,
}
use mux.Manager.Valid.{IsValid}
use mux.Manager.Lease.{kill, close_for, expire, reopen, reap}
use mux.Manager.Adopt.{adopt_many}
use mux.Manager.Adopt.Valid.{adopt_many-IsValid, schedule_agent-IsValid}

-- A call, with what the system answers to it.
pub data Call : Type 0 where
  opens : String → List String → ℕ → ℕ → Option ℤ → ℕ → Call
  adopts : List Received → Call
  kills : Kernel → String → Call
  closes : String → ℕ → ℕ → Call
  expires : Kernel → String → ℕ → ℕ → Call
  reopens : String → ℕ → Call
  reaps : Kernel → ℕ → Call
  schedules : ℕ → Call
  -- The detector's task runs for the session at that place: what the kernel says of its command line
  -- and of it, and whether its client takes the message in time.
  detects : Option (List Text) → Kernel → Bool → ℕ → Call

module _ {vt : Ghostty} (engine : Matcher) (bundled : Agent → Option AgentManifest) where
  -- A panic of the engine ends the task, whose first act stands.
  abbrev detected : ℕ → PtySession vt → Option (Detected vt) → Manager vt → Manager vt
  detected i s none m = put i (record s { agent_pending = false }) m
  detected i s (some d) m = broadcast d.event (put i d.session m)

  -- Of a place where there is no session there is no task.
  unfoldable run_detector : Option (List Text) → Kernel → Bool → ℕ → Manager vt → Manager vt
  unfolding detector_task
  run_detector argv k taken i m = elim (get_elem? m.sessions i) [
    | none ↦ m
    | some s ↦ detected i s (detector_task engine bundled argv k taken s) m
  ]

  unfoldable pub perform : Call → Manager vt → Manager vt
  unfolding run_detector
  perform (opens name command cols rows child generation) m =
      (open_pty name command cols rows child generation m).0
  perform (adopts incoming) m = (adopt_many incoming m).0
  perform (kills k name) m = (kill k name m).0
  perform (closes name kept now) m = (close_for name kept now m).0
  perform (expires k name generation deadline) m = expire k name generation deadline m
  perform (reopens name now) m = (reopen name now m).0
  perform (reaps k i) m = (reap k i m).0
  perform (schedules i) m = schedule_agent i m
  perform (detects argv k taken i) m = run_detector argv k taken i m

  -- A call, or something that happens to one of the sessions.
  pub data Step (m m' : Manager vt) : Type 0 where
    calls : (c : Call) → m' ≡ perform c m → Step m m'
    moves :
        (i : ℕ) (s s' : PtySession vt)
        → get_elem? m.sessions i ≡ some s
        → Moves s s'
        → m' ≡ put i s' m
        → Step m m'
    detaches :
        (i id : ℕ) (s : PtySession vt)
        → get_elem? m.sessions i ≡ some s
        → m' ≡ put i (detach id s) m
        → Step m m'

  pub data Run (m : Manager vt) : Manager vt → Type 0 where
    here : Run m m
    next : {m' m'' : Manager vt} → Run m m' → Step m' m'' → Run m m''

  run_detector-IsValid :
      (argv : Option (List Text)) (k : Kernel) (taken : Bool) (i : ℕ) (m : Manager vt)
      → IsValid m.shelf
      → IsValid (run_detector argv k taken i m).shelf
  unfolding run_detector
  run_detector-IsValid argv k taken i m v = elim (Option-cases (get_elem? m.sessions i)) [
    | inl gone ↦ rw (gone, run_detector) v
    | inr (s, at_i) ↦ elim (Option-cases (detector_task engine bundled argv k taken s)) [
      | inl panic ↦
          rw (at_i, panic, run_detector)
            (put-IsValid i s (record s { agent_pending = false }) m at_i refl v)
      | inr (d, done) ↦
          let same = ap (λ x. x.1) (detector_task-kept engine bundled argv k taken s d done) in
          rw (at_i, done, run_detector, broadcast-shelf d.event (put i d.session m))
            (put-IsValid i s d.session m at_i same v)
    ]
  ]

  perform-IsValid : (c : Call) (m : Manager vt) → IsValid m.shelf → IsValid (perform c m).shelf
  unfolding perform
  perform-IsValid (opens name command cols rows child generation) m v =
      open_pty-IsValid name command cols rows child generation m v
  perform-IsValid (adopts incoming) m v = adopt_many-IsValid incoming m v
  perform-IsValid (kills k name) m v = kill-IsValid k name m v
  perform-IsValid (closes name kept now) m v = close_for-IsValid name kept now m v
  perform-IsValid (expires k name generation deadline) m v =
      expire-IsValid k name generation deadline m v
  perform-IsValid (reopens name now) m v = reopen-IsValid name now m v
  perform-IsValid (reaps k i) m v = reap-IsValid k i m v
  perform-IsValid (schedules i) m v = schedule_agent-IsValid i m v
  perform-IsValid (detects argv k taken i) m v = run_detector-IsValid argv k taken i m v

  Moves-name : {s s' : PtySession vt} → Moves s s' → s'.name ≡ s.name
  unfolding feed_chunk attach_on resize_session mark_exited write_input checked_input
  Moves-name (fed chunk e) = ground arith
  Moves-name (attaches id cols rows c e) = ground arith
  Moves-name (resizes cols rows live e) = ground arith
  Moves-name (exits e) = ground arith
  Moves-name (types bytes e) = ground arith
  Moves-name (submits k complete input wrote e) = ground arith

  detach-name : (id : ℕ) (s : PtySession vt) → (detach id s).name ≡ s.name
  unfolding detach
  detach-name id s = ground arith

  Step-IsValid : {m m' : Manager vt} → Step m m' → IsValid m.shelf → IsValid m'.shelf
  Step-IsValid {m} (calls c e) v = rw e (perform-IsValid c m v)
  Step-IsValid {m} (moves i s s' at_i moved e) v =
      rw e (put-IsValid i s s' m at_i (Moves-name moved) v)
  Step-IsValid {m} (detaches i id s at_i e) v =
      rw e (put-IsValid i s (detach id s) m at_i (detach-name id s) v)

  -- Whatever calls are made, whatever tasks run, among them the detector's, and whatever happens to
  -- the terminals: if the table
  -- is valid at the start, then at the end names are distinct, at most 256 ptys are in it, and each
  -- name leads to a session of that name.
  pub Run-IsValid : {m m' : Manager vt} → IsValid m.shelf → Run m m' → IsValid m'.shelf
  Run-IsValid v here = v
  Run-IsValid v (next run step) = Step-IsValid step (Run-IsValid v run)
