-- ===== src/Manager/Keeps.antt =====
-- manager.rs: each call keeps the table valid.
use mux.Prelude.{
  ℕ, ◌≡◌, refl, ap, ◌∙◌, inl, inr, false, List, [], ◌∷◌, ◌++◌, Option, none, some, String, arith,
  leb, length, get_elem?, ◌==◌, Bool-cases, Option-cases, map_or, lookup,
}
use mux.Prelude.Int.{ℤ}
use mux.Terminal.{Ghostty, Terminal, new}
use mux.Session.{PtySession, Kernel, mark_exited, mark_killed, emit}
use mux.Manager.{
  max_ptys, Shelf, Manager, Outcome, done, fails, find, put, insert_locked, installed, start_pty,
  open_pty, schedule_close,
}
use mux.Manager.Valid.{IsValid, find-eq_some, set-IsValid, remove-IsValid, insert_locked-IsValid}
use mux.Manager.Lease.{
  kill_session, forget, kill, close_for, still_due, expire, reopen, remove_if_same, reap,
}
use mux.Manager.Lease.Kill.{broadcast-shelf}

module _ {vt : Ghostty} where
  installed-IsValid :
      (m : Manager vt) (o : Outcome (ℕ × Shelf vt))
      → IsValid m.shelf
      → ((i : ℕ) (shelf : Shelf vt) → o ≡ done (i, shelf) → IsValid shelf)
      → IsValid (installed m o).0.shelf
  unfolding installed
  installed-IsValid m (fails e) v new = v
  installed-IsValid m (done (i, shelf)) v new = new i shelf refl

  start_pty-IsValid :
      (name : String) (command : List String) (child : ℤ) (generation : ℕ)
      (t : Option (Terminal vt)) (m : Manager vt)
      → IsValid m.shelf
      → IsValid (start_pty name command child generation t m).0.shelf
  unfolding start_pty
  start_pty-IsValid name command child generation none m v = v
  start_pty-IsValid name command child generation (some t) m v =
      installed-IsValid m (insert_locked generation name command t child false m.shelf) v
        (λ i shelf e.
          insert_locked-IsValid generation name command t child false m.shelf i shelf e v)

  pub open_pty-IsValid :
      (name : String) (command : List String) (cols rows : ℕ) (child : Option ℤ) (generation : ℕ)
      (m : Manager vt)
      → IsValid m.shelf
      → IsValid (open_pty name command cols rows child generation m).0.shelf
  unfolding open_pty
  open_pty-IsValid name command cols rows child generation m v =
      elim (Option-cases (find name m.shelf)) [
        | inr (found, e) ↦ rw (e, open_pty) v
        | inl e ↦ elim (Bool-cases (leb max_ptys (length m.table))) [
          | inl full ↦ rw (e, full, open_pty) v
          | inr room ↦ elim (Option-cases child) [
            | inl failed ↦ rw (e, room, failed, open_pty) v
            | inr (pid, started) ↦
                rw (e, room, started, open_pty)
                  (start_pty-IsValid name command pid generation (new vt rows cols)
                    (record m { spawned = m.spawned ++ pid ∷ [] }) v)
          ]
        ]
      ]

  pub put-IsValid :
      (i : ℕ) (s s' : PtySession vt) (m : Manager vt)
      → get_elem? m.sessions i ≡ some s
      → s'.name ≡ s.name
      → IsValid m.shelf
      → IsValid (put i s' m).shelf
  put-IsValid i s s' m at_i same v = set-IsValid m.shelf i s s' at_i same v

  mark_killed-name : (k : Kernel) (s : PtySession vt) → (mark_killed k s).0.name ≡ s.name
  unfolding mark_killed emit
  mark_killed-name k s = ground arith

  kill_session-IsValid :
      (k : Kernel) (name : String) (i : ℕ) (s : PtySession vt) (m : Manager vt)
      → get_elem? m.sessions i ≡ some s
      → IsValid m.shelf
      → IsValid (kill_session k i s (forget name m)).shelf
  unfolding kill_session
  kill_session-IsValid k name i s m at_i v = rw (broadcast-shelf (mark_killed k s).1 _) (
      put-IsValid i s (mark_killed k s).0 (forget name m) at_i (mark_killed-name k s)
        (remove-IsValid m.shelf name v))

  pub kill-IsValid :
      (k : Kernel) (name : String) (m : Manager vt)
      → IsValid m.shelf
      → IsValid (kill k name m).0.shelf
  unfolding kill
  kill-IsValid k name m v = elim (Option-cases (find name m.shelf)) [
    | inl e ↦ rw (e, kill) v
    | inr ((i, s), e) ↦
        rw (e, kill) (kill_session-IsValid k name i s m (find-eq_some name m.shelf i s e).1 v)
  ]

  pub expire-IsValid :
      (k : Kernel) (name : String) (generation deadline : ℕ) (m : Manager vt)
      → IsValid m.shelf
      → IsValid (expire k name generation deadline m).shelf
  unfolding expire
  expire-IsValid k name generation deadline m v = elim (Option-cases (find name m.shelf)) [
    | inl e ↦ rw (e, expire) v
    | inr ((i, s), e) ↦ elim (Bool-cases (still_due generation deadline s)) [
      | inl due ↦
          rw (e, due, expire)
            (kill_session-IsValid k name i s m (find-eq_some name m.shelf i s e).1 v)
      | inr early ↦ rw (e, early, expire) v
    ]
  ]

  pub close_for-IsValid :
      (name : String) (kept now : ℕ) (m : Manager vt)
      → IsValid m.shelf
      → IsValid (close_for name kept now m).0.shelf
  unfolding close_for schedule_close
  close_for-IsValid name kept now m v = elim (Option-cases (find name m.shelf)) [
    | inl e ↦ rw (e, close_for) v
    | inr ((i, s), e) ↦
        rw (e, close_for, schedule_close)
          (put-IsValid i s _ m (find-eq_some name m.shelf i s e).1 refl v)
  ]

  pub reopen-IsValid :
      (name : String) (now : ℕ) (m : Manager vt)
      → IsValid m.shelf
      → IsValid (reopen name now m).0.shelf
  unfolding reopen
  reopen-IsValid name now m v = elim (Option-cases (find name m.shelf)) [
    | inl e ↦ rw (e, reopen) v
    | inr ((i, s), e) ↦
        elim (Bool-cases (map_or false (λ expires. leb expires now) s.close_deadline)) [
          | inl late ↦ rw (e, late, reopen) v
          | inr early ↦
              rw (e, early, reopen)
                (put-IsValid i s (record s { close_deadline = none }) m
                  (find-eq_some name m.shelf i s e).1 refl v)
        ]
  ]

  remove_if_same-IsValid :
      (i : ℕ) (s : PtySession vt) (m : Manager vt)
      → IsValid m.shelf
      → IsValid (remove_if_same i s m).shelf
  unfolding remove_if_same
  remove_if_same-IsValid i s m v =
      elim (Bool-cases (map_or false (λ current. current == i) (lookup s.name m.table))) [
        | inl same ↦ rw (same, remove_if_same) (remove-IsValid m.shelf s.name v)
        | inr other ↦ rw (other, remove_if_same) v
      ]

  remove_if_same-sessions :
      (i : ℕ) (s : PtySession vt) (m : Manager vt) → (remove_if_same i s m).sessions ≡ m.sessions
  unfolding remove_if_same
  remove_if_same-sessions i s m = ground arith

  reaped-name : (k : Kernel) (s : PtySession vt) → (emit k (mark_exited s).0).0.name ≡ s.name
  unfolding emit mark_exited
  reaped-name k s = ground arith

  pub reap-IsValid :
      (k : Kernel) (i : ℕ) (m : Manager vt) → IsValid m.shelf → IsValid (reap k i m).0.shelf
  unfolding reap
  reap-IsValid k i m v = elim (Option-cases (get_elem? m.sessions i)) [
    | inl e ↦ rw (e, reap) v
    | inr (s, e) ↦
        let s1 = (mark_exited s).0 in
        rw (e, reap, broadcast-shelf (emit k s1).1)
          (put-IsValid i s (emit k s1).0 (remove_if_same i s1 m)
            (ap (λ xs. get_elem? xs i) (remove_if_same-sessions i s1 m) ∙ e) (reaped-name k s)
            (remove_if_same-IsValid i s1 m v))
  ]
