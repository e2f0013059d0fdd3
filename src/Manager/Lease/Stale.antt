-- ===== src/Manager/Lease/Stale.antt =====
-- manager.rs: the lease of a closed pty, and the tasks that outlive it.
use mux.Prelude.{
  ℕ, ◌≡◌, refl, sym, ap, ◌∙◌, inl, inr, Bool, true, false, [], ◌∷◌, ◌++◌, none, some, String, arith,
  if◌then◌else◌, leb, ==_refl, Bool-cases, Option-cases, map_or,
}
use mux.Terminal.{Ghostty}
use mux.Session.{PtySession, Kernel}
use mux.Manager.{saturating_add, Manager, done, fails, expired, close_at, find, put, schedule_close}
use mux.Manager.Valid.{IsValid, find-eq_some}
use mux.Manager.Lease.{kill_session, forget, close_for, still_due, expire, reopen}
use mux.Manager.Lease.Kill.{find-put, killed_gone, kill_session-terminated}

module _ {vt : Ghostty} where
  -- A session without that lease is left alone.
  pub expire_not_due :
      (k : Kernel) (name : String) (generation deadline : ℕ) (m : Manager vt) (i : ℕ)
      (s : PtySession vt)
      → find name m.shelf ≡ some (i, s)
      → still_due generation deadline s ≡ false
      → expire k name generation deadline m ≡ m
  unfolding expire
  expire_not_due k name generation deadline m i s at late = rw (at, late, expire) refl

  pub no_lease :
      (generation deadline : ℕ) (s : PtySession vt)
      → s.close_deadline ≡ none
      → still_due generation deadline s ≡ false
  unfolding still_due
  no_lease generation deadline s h = ground arith

  reopen-eq_done :
      (name : String) (now : ℕ) (m : Manager vt) (i : ℕ) (b : Bool)
      → (reopen name now m).1 ≡ done (i, b)
      → (s : PtySession vt) × (find name m.shelf ≡ some (i, s))
        × ((reopen name now m).0 ≡ put i (record s { close_deadline = none }) m)
  unfolding reopen
  reopen-eq_done name now m i b h = elim (Option-cases (find name m.shelf)) [
    | inl e ↦ absurd (cc (rw (e, reopen) at h))
    | inr ((j, s), e) ↦
        elim (Bool-cases (map_or false (λ expires. leb expires now) s.close_deadline)) [
          | inl late ↦ absurd (cc (rw (e, late, reopen) at h))
          | inr early ↦
              let same : j ≡ i = cc (rw (e, early, reopen) at h) in
              (s, cc (e, same), rw (e, early, same, reopen) refl)
        ]
  ]

  -- A pty that was reopened is open: no task that an earlier close left behind ends it, whatever
  -- its generation and deadline.
  pub expire-reopen :
      (k : Kernel) (name : String) (now generation deadline : ℕ) (m : Manager vt) (i : ℕ) (b : Bool)
      → (reopen name now m).1 ≡ done (i, b)
      → expire k name generation deadline (reopen name now m).0 ≡ (reopen name now m).0
  expire-reopen k name now generation deadline m i b h =
      let (s, at, e) = reopen-eq_done name now m i b h in
      let open_again = record s { close_deadline = none } in
      rw e (
        expire_not_due k name generation deadline (put i open_again m) i open_again
          (find-put name m i s open_again at) (no_lease generation deadline open_again refl))

  -- A close answers with the deadline that the session has from then on.
  close_for-eq_done :
      (name : String) (kept now : ℕ) (m : Manager vt) (d : ℕ)
      → (close_for name kept now m).1 ≡ done d
      → (i : ℕ) × (s : PtySession vt) × (find name m.shelf ≡ some (i, s))
        × (d ≡ map_or (saturating_add now kept) (λ old. old) s.close_deadline)
        × (find name (close_for name kept now m).0.shelf
            ≡ some (i, record s { close_deadline = some d }))
  unfolding close_for schedule_close
  close_for-eq_done name kept now m d h = elim (Option-cases (find name m.shelf)) [
    | inl e ↦ absurd (cc (rw (e, close_for) at h))
    | inr ((i, s), e) ↦
        let expires = map_or (saturating_add now kept) (λ old. old) s.close_deadline in
        let same : expires ≡ d = cc (rw (e, close_for) at h) in
        (
          i,
          s,
          e,
          sym same,
          rw (e, same, close_for, schedule_close)
              (find-put name m i s (record s { close_deadline = some d }) e),
        )
  ]

  -- Closing again never moves the deadline: whenever a close of the pty answered `d`, a further
  -- close, at any time and for any duration, answers `d` as well.
  pub close_for-close_for :
      (name : String) (kept now kept' now' : ℕ) (m : Manager vt) (d : ℕ)
      → (close_for name kept now m).1 ≡ done d
      → (close_for name kept' now' (close_for name kept now m).0).1 ≡ done d
  unfolding close_for
  close_for-close_for name kept now kept' now' m d h =
      let (i, s, at, e, after) = close_for-eq_done name kept now m d h in rw (after, close_for) refl

  -- Until its deadline a closed pty can be reopened, and then it is the session that it was, at the
  -- same place; from the deadline on it cannot, and nothing changes.
  pub reopen-close_for :
      (name : String) (kept now later : ℕ) (m : Manager vt) (d : ℕ)
      → (close_for name kept now m).1 ≡ done d
      → (i : ℕ) × (s : PtySession vt) × (find name m.shelf ≡ some (i, s))
        × (reopen name later (close_for name kept now m).0 ≡ (
            if leb d later then ((close_for name kept now m).0, fails expired) else (
              put i (record s { close_deadline = none }) (close_for name kept now m).0,
              done (i, false),
            )))
  unfolding reopen
  reopen-close_for name kept now later m d h =
      let (i, s, at, e, after) = close_for-eq_done name kept now m d h in
      (i, s, at, rw (after, reopen) refl)

  close_for-spawns :
      (name : String) (kept now : ℕ) (m : Manager vt) (d i : ℕ) (s : PtySession vt)
      → (close_for name kept now m).1 ≡ done d
      → find name m.shelf ≡ some (i, s)
      → ((close_for name kept now m).0.tasks ≡ m.tasks ++ close_at s.name s.generation d ∷ [])
        × ((close_for name kept now m).0.terminated ≡ m.terminated)
  unfolding close_for schedule_close
  close_for-spawns name kept now m d i s h at =
      let same : map_or (saturating_add now kept) (λ old. old) s.close_deadline ≡ d =
        cc (rw (at, close_for) at h) in
      rw (at, same, close_for, schedule_close) (refl, refl)

  expire_due :
      (k : Kernel) (name : String) (generation deadline : ℕ) (m : Manager vt) (i : ℕ)
      (s : PtySession vt)
      → find name m.shelf ≡ some (i, s)
      → still_due generation deadline s ≡ true
      → expire k name generation deadline m ≡ kill_session k i s (forget name m)
  unfolding expire
  expire_due k name generation deadline m i s at due = rw (at, due, expire) refl

  its_lease :
      (d : ℕ) (s : PtySession vt) → s.close_deadline ≡ some d → still_due s.generation d s ≡ true
  unfolding still_due
  its_lease d s h = ground (arith, ==_refl s.generation, ==_refl d)

  -- A close spawns a task that carries the name, the generation and the deadline. Whenever that task
  -- runs, at once or after anything else has happened: if the name leads to a pty of that generation
  -- with that deadline, it ends the pty, which loses its name, and its child is terminated.
  pub expire-close_for :
      (k : Kernel) (name : String) (kept now : ℕ) (m : Manager vt) (d i : ℕ) (s : PtySession vt)
      (later : Manager vt) (j : ℕ) (s' : PtySession vt)
      → IsValid m.shelf
      → find name m.shelf ≡ some (i, s)
      → (close_for name kept now m).1 ≡ done d
      → find name later.shelf ≡ some (j, s')
      → s'.generation ≡ s.generation
      → s'.close_deadline ≡ some d
      → ((close_for name kept now m).0.tasks ≡ m.tasks ++ close_at name s.generation d ∷ [])
        × (find name (expire k name s.generation d later).shelf ≡ none)
        × ((expire k name s.generation d later).terminated ≡ later.terminated ++ s'.child ∷ [])
  expire-close_for k name kept now m d i s later j s' v at h leads same lease =
      let (spawns, _) = close_for-spawns name kept now m d i s h at in
      let (place, there) = find-eq_some name m.shelf i s at in
      let named : s.name ≡ name = rw there at (v.named name i place) in
      let due : still_due s.generation d s' ≡ true =
        ap (λ g. still_due g d s') (sym same) ∙ its_lease d s' lease in
      let ends = expire_due k name s.generation d later j s' leads due in
      (
        spawns ∙ ap (λ x. m.tasks ++ close_at x s.generation d ∷ []) named,
        rw ends (killed_gone k name j s' later),
        ap (λ (x : Manager vt). x.terminated) ends
            ∙ kill_session-terminated k j s' (forget name later),
      )
