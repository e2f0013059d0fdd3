-- ===== src/Manager/Detecting.antt =====
-- manager.rs: the task that `schedule_agent` spawns, once its pause is over, as one step. The kernel's answers are
-- arguments; `none` is a panic of the engine.
use mathlib.Core.Logic.{ite}
use mux.Prelude.{
  ℕ, ◌≡◌, ◌⊎◌, refl, sym, ap, ◌∙◌, inl, inr, Bool, true, false, List, Option, none, some,
  some_injective, String, if◌then◌else◌, and_then, map_or, ◌==◌, Option-cases,
}
use mux.Text.{Text}
use mux.Terminal.{Ghostty}
use mux.Peer.{PtyEvent, event_discrete}
use mux.Agents.Gate.{Matcher}
use mux.Agents.Manifest.{AgentManifest}
use mux.Agents.Names.Table.{Agent}
use mux.Session.{
  PtySession, Kernel, ClientMsg, foreground, AttachedClient, detach, emit, event, notify_observers,
}
use mux.Session.Detector.{refresh_agent, next_agent}

-- The session, the event that is broadcast, and the message to the client.
pub record Detected (vt : Ghostty) : Type 0 where
  pub session : PtySession vt
  pub event : Option PtyEvent
  pub message : Option (ℕ × ClientMsg)

module _ {vt : Ghostty} where
  -- `tell_foreground`: the message that goes to the client, if there is one; a client that does not
  -- take it in time is detached.
  abbrev tell_client :
      Bool → String → PtySession vt → Option AttachedClient → PtySession vt × Option (ℕ × ClientMsg)
  tell_client taken name s none = (s, none)
  tell_client taken name s (some c) =
      if taken then (s, some (c.id, foreground name)) else (detach c.id s, none)

  unfoldable pub tell_foreground :
      Bool → String → PtySession vt → PtySession vt × Option (ℕ × ClientMsg)
  tell_foreground taken name s = tell_client taken name s s.client

  abbrev pub told : Bool → Option String → PtySession vt → PtySession vt × Option (ℕ × ClientMsg)
  told taken none s = (s, none)
  told taken (some name) s = tell_foreground taken name s

  abbrev pub after_refresh : Kernel → Bool → PtySession vt × Option String → Detected vt
  after_refresh k taken (s, name) =
      let (s2, e) = emit k s in
      let (s3, message) = told taken name s2 in
      record { session = s3; event = e; message = message }

  unfoldable pub detector_task :
      (m : Matcher)
      → (Agent → Option AgentManifest)
      → Option (List Text)
      → Kernel
      → Bool
      → PtySession vt
      → Option (Detected vt)
  unfolding refresh_agent emit tell_foreground
  detector_task m bundled argv k taken s =
      let s1 = record s { agent_pending = false } in
      if s1.exited
      then some (record { session = s1; event = none; message = none })
      else and_then (refresh_agent m bundled argv s1) λ r. some (after_refresh k taken r)

  ite_session :
      {P : Type 0} {B C : Type 0} (part : PtySession vt → C) (d : Dec P) (x y : PtySession vt × B)
      (b : C)
      → part x.0 ≡ b
      → part y.0 ≡ b
      → part (ite d x y).0 ≡ b
  ite_session part (yes p) x y b h k = h
  ite_session part (no p) x y b h k = k

  if_session :
      {B C : Type 0} (part : PtySession vt → C) (c : Bool) (x y : PtySession vt × B) (b : C)
      → part x.0 ≡ b
      → part y.0 ≡ b
      → part (if c then x else y).0 ≡ b
  if_session part true x y b h k = h
  if_session part false x y b h k = k

  -- What none of the steps of the task touches, once it has begun.
  abbrev pub kept : PtySession vt → Bool × String
  kept s = (s.agent_pending, s.name)

  emit-kept : (k : Kernel) (s : PtySession vt) → kept (emit k s).0 ≡ kept s
  unfolding emit notify_observers
  emit-kept k s =
      ite_session kept (event_discrete s.last_event (some (event k s))) _ _ (kept s) refl refl

  detach-kept : (id : ℕ) (s : PtySession vt) → kept (detach id s) ≡ kept s
  unfolding detach
  detach-kept id s = cleared (map_or false (λ c. c.id == id) s.client)
    where
      cleared : (b : Bool) → kept (if b then record s { client = none } else s) ≡ kept s
      cleared true = refl
      cleared false = refl

  tell_client-kept :
      (taken : Bool) (name : String) (s : PtySession vt) (client : Option AttachedClient)
      → kept (tell_client taken name s client).0 ≡ kept s
  tell_client-kept taken name s none = refl
  tell_client-kept taken name s (some c) =
      if_session kept taken _ (detach c.id s, none) (kept s) refl (detach-kept c.id s)

  told-kept :
      (taken : Bool) (name : Option String) (s : PtySession vt)
      → kept (told taken name s).0 ≡ kept s
  unfolding tell_foreground
  told-kept taken none s = refl
  told-kept taken (some name) s = tell_client-kept taken name s s.client

  refresh_agent-kept :
      (m : Matcher) (bundled : Agent → Option AgentManifest) (argv : Option (List Text))
      (s : PtySession vt) (r : PtySession vt × Option String)
      → refresh_agent m bundled argv s ≡ some r
      → kept r.0 ≡ kept s
  unfolding refresh_agent
  refresh_agent-kept m bundled argv s r h = elim (Option-cases (next_agent m bundled argv s)) [
    | inl e ↦ absurd (cc (rw (e, refresh_agent) at h))
    | inr (next, e) ↦
        ap (λ (x : PtySession vt × Option String). kept x.0)
          (sym (some_injective (rw (e, refresh_agent) at h)))
        ∙ if_session kept _ _ _ (kept s) refl refl
  ]

  either :
      (b : Bool) (x y : Option (Detected vt)) {d : Detected vt}
      → (if b then x else y) ≡ some d
      → (x ≡ some d) ⊎ (y ≡ some d)
  either true x y h = inl h
  either false x y h = inr h

  pub detector_task-kept :
      (m : Matcher) (bundled : Agent → Option AgentManifest) (argv : Option (List Text))
      (k : Kernel) (taken : Bool) (s : PtySession vt) (d : Detected vt)
      → detector_task m bundled argv k taken s ≡ some d
      → kept d.session ≡ (false, s.name)
  unfolding detector_task
  detector_task-kept m bundled argv k taken s d h =
      let s1 = record s { agent_pending = false } in
      elim (either s1.exited _ _ h) [
        | inl e ↦ ap (λ (x : Detected vt). kept x.session) (sym (some_injective e))
        | inr e ↦ elim (Option-cases (refresh_agent m bundled argv s1)) [
          | inl gone ↦ absurd (cc (rw gone at e))
          | inr (r, read) ↦
              let same : after_refresh k taken r ≡ d = some_injective (rw read at e) in
              ap (λ (x : Detected vt). kept x.session) (sym same)
              ∙ told-kept taken r.1 (emit k r.0).0
              ∙ emit-kept k r.0
              ∙ refresh_agent-kept m bundled argv s1 r read
        ]
      ]

  -- Once its task has run, a session is not pending, whatever the engine found and whether the
  -- client took the name: the next output schedules another evaluation.
  pub detector_task_schedules :
      (m : Matcher) (bundled : Agent → Option AgentManifest) (argv : Option (List Text))
      (k : Kernel) (taken : Bool) (s : PtySession vt) (d : Detected vt)
      → detector_task m bundled argv k taken s ≡ some d
      → d.session.agent_pending ≡ false
  detector_task_schedules m bundled argv k taken s d h =
      ap (λ x. x.0) (detector_task-kept m bundled argv k taken s d h)
