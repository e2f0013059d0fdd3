-- ===== src/Manager/Open.antt =====
-- manager.rs: what `open` leaves behind, for a pty that is there and for a new one.
use mux.Prelude.{
  ℕ, ◌≡◌, refl, ap, ◌⊎◌, inl, inr, Bool, true, false, not, List, [], ◌∷◌, ◌++◌, Option, none, some,
  String, str_eq_iff, arith, if◌then◌else◌, leb, length, get_elem?-append_last, Bool-cases,
  Option-cases, is_some, lookup-insert,
}
use mux.Prelude.Int.{ℤ}
use mux.Terminal.{Ghostty, Terminal, new}
use mux.Session.{PtySession, Kernel}
use mux.Manager.{
  max_ptys, Shelf, Manager, Outcome, done, fails, find, fresh_session, insert_locked, installed,
  start_pty, open_pty, read_loop, spawn_task,
}
use mux.Manager.Valid.{insert_locked-eq_done}
use mux.Manager.Lease.{expire}
use mux.Manager.Lease.Kill.{find-eq}
use mux.Manager.Lease.Stale.{expire_not_due, no_lease}

module _ {vt : Ghostty} where
  -- What an open that answers with a new pty has gone through.
  record Started (name : String) (generation : ℕ) (m m' : Manager vt) (i : ℕ) : Type 0 where
    child : ℤ
    command : List String
    terminal : Terminal vt
    shelf : Shelf vt
    inserted : insert_locked generation name command terminal child false m.shelf ≡ done (i, shelf)
    after : m' ≡ record {
      shelf = shelf;
      spawned = m.spawned ++ child ∷ [];
      terminated = m.terminated;
      events = m.events;
      tasks = m.tasks ++ read_loop i ∷ [];
    }

  installed-eq_done :
      (m : Manager vt) (o : Outcome (ℕ × Shelf vt)) (i : ℕ) (b : Bool)
      → (installed m o).1 ≡ done (i, b)
      → (shelf : Shelf vt) × (o ≡ done (i, shelf))
        × (b ≡ true)
        × ((installed m o).0 ≡ spawn_task (read_loop i) (record m { shelf = shelf }))
  unfolding installed
  installed-eq_done m (fails e) i b h = absurd (cc)
  installed-eq_done m (done (j, shelf)) i b h =
      let same : j ≡ i = cc in (shelf, ap (λ k. done (k, shelf)) same, cc, rw same refl)

  start_pty-Started :
      (name : String) (command : List String) (child : ℤ) (generation : ℕ)
      (t : Option (Terminal vt)) (m : Manager vt) (i : ℕ) (b : Bool)
      → (start_pty name command child generation t
          (record m { spawned = m.spawned ++ child ∷ [] })).1
        ≡ done (i, b)
      → (b ≡ true)
        × Started name generation m
            (start_pty name command child generation t
              (record m { spawned = m.spawned ++ child ∷ [] })).0
            i
  unfolding start_pty
  start_pty-Started name command child generation none m i b h = absurd (cc)
  start_pty-Started name command child generation (some t) m i b h =
      let m1 = record m { spawned = m.spawned ++ child ∷ [] } in
      let (shelf, e, fresh, after) =
        installed-eq_done m1 (insert_locked generation name command t child false m.shelf) i b h in
      (
        fresh,
        record {
          child = child;
          command = command;
          terminal = t;
          shelf = shelf;
          inserted = e;
          after = after;
        },
      )

  -- An open that succeeds either finds the pty or starts it.
  open_pty-eq_done :
      (name : String) (command : List String) (cols rows : ℕ) (child : Option ℤ) (generation : ℕ)
      (m : Manager vt) (i : ℕ) (b : Bool)
      → (open_pty name command cols rows child generation m).1 ≡ done (i, b)
      → ((s : PtySession vt) × (find name m.shelf ≡ some (i, s))
          × (s.close_deadline ≡ none)
          × (b ≡ false)
          × ((open_pty name command cols rows child generation m).0 ≡ m))
        ⊎ ((find name m.shelf ≡ none)
            × (b ≡ true)
            × Started name generation m (open_pty name command cols rows child generation m).0 i)
  unfolding open_pty
  open_pty-eq_done name command cols rows child generation m i b h =
      elim (Option-cases (find name m.shelf)) [
        | inr ((j, s), e) ↦ elim (Option-cases s.close_deadline) [
          | inl d ↦
              let h' = rw (e, d, open_pty) at h in
              let same : j ≡ i = cc h' in inl (s, cc (e, same), d, cc h', rw (e, open_pty) refl)
          | inr (d, dl) ↦ absurd (cc (rw (e, dl, open_pty) at h))
        ]
        | inl e ↦ elim (Bool-cases (leb max_ptys (length m.table))) [
          | inl full ↦ absurd (cc (rw (e, full, open_pty) at h))
          | inr room ↦ elim (Option-cases child) [
            | inl no_child ↦ absurd (cc (rw (e, room, no_child, open_pty) at h))
            | inr (pid, got) ↦
                let (fresh, started) =
                  start_pty-Started name command pid generation (new vt rows cols) m i b
                    (rw (e, room, got, open_pty) at h) in
                inr (e, fresh, rw (e, room, got, open_pty) started)
          ]
        ]
      ]

  Started-find :
      (name : String) (generation : ℕ) (m m' : Manager vt) (i : ℕ)
      → Started name generation m m' i
      → (s : PtySession vt) × (find name m'.shelf ≡ some (i, s))
        × (s.close_deadline ≡ none)
        × (s.generation ≡ generation)
        × (s.exited ≡ false)
  Started-find name generation m m' i st =
      let (room, (place, shelf)) =
        insert_locked-eq_done generation name st.command st.terminal st.child false m.shelf i
          st.shelf st.inserted in
      let s = fresh_session generation name st.command st.terminal st.child false in
      (
        s,
        rw (st.after, shelf, place)
            (find-eq name _ (length m.sessions) s
              (ground
                (arith, lookup-insert name name (length m.sessions) m.table, str_eq_iff name name))
              (get_elem?-append_last m.sessions s)),
        refl,
        refl,
        refl,
      )

  -- An open that succeeds answers with the session that the name leads to from then on, and that
  -- session is not closed. It says "new" exactly if the name led nowhere; then one child was
  -- spawned and one task reads from its pty. Otherwise nothing has changed.
  pub open_pty_lem :
      (name : String) (command : List String) (cols rows : ℕ) (child : Option ℤ) (generation : ℕ)
      (m : Manager vt) (i : ℕ) (b : Bool)
      → (open_pty name command cols rows child generation m).1 ≡ done (i, b)
      → ((s : PtySession vt) × (find name
              (open_pty name command cols rows child generation m).0.shelf
            ≡ some (i, s))
          × (s.close_deadline ≡ none))
        × (b ≡ not (is_some (find name m.shelf)))
        × (if b
            then ((pid : ℤ) × ((open_pty name command cols rows child generation m).0.spawned
                  ≡ m.spawned ++ pid ∷ [])
                × ((open_pty name command cols rows child generation m).0.tasks
                    ≡ m.tasks ++ read_loop i ∷ []))
            else ((open_pty name command cols rows child generation m).0 ≡ m))
  open_pty_lem name command cols rows child generation m i b h =
      elim (open_pty-eq_done name command cols rows child generation m i b h) [
        | inl (s, at, live, old, same) ↦ rw (same, old) ((s, at, live), rw at refl, refl)
        | inr (at, fresh, st) ↦
            let (s, there, live, same, alive) = Started-find name generation m _ i st in
            rw fresh (
              (s, there, live),
              rw at refl,
              (
                st.child,
                ap (λ (x : Manager vt). x.spawned) st.after,
                ap (λ (x : Manager vt). x.tasks) st.after,
              ),
            )
      ]

  -- A second open of the same name answers with the same session, and starts nothing.
  pub open_pty-open_pty :
      (name : String) (command command' : List String) (cols rows cols' rows' : ℕ)
      (child child' : Option ℤ) (generation generation' : ℕ) (m : Manager vt) (i : ℕ) (b : Bool)
      → (open_pty name command cols rows child generation m).1 ≡ done (i, b)
      → open_pty name command' cols' rows' child' generation'
          (open_pty name command cols rows child generation m).0
        ≡ ((open_pty name command cols rows child generation m).0, done (i, false))
  unfolding open_pty
  open_pty-open_pty name command command' cols rows cols' rows' child child' generation generation'
        m i b h =
      let ((s, at, live), new_one, started) =
        open_pty_lem name command cols rows child generation m i b h in
      rw (at, live, open_pty) refl

  -- A pty that was opened is not ended by a task of an earlier one of its name.
  pub expire-open_pty :
      (k : Kernel) (name : String) (command : List String) (cols rows : ℕ) (child : Option ℤ)
      (generation : ℕ) (m : Manager vt) (i : ℕ) (b : Bool) (old_generation deadline : ℕ)
      → (open_pty name command cols rows child generation m).1 ≡ done (i, b)
      → expire k name old_generation deadline (open_pty name command cols rows child generation m).0
        ≡ (open_pty name command cols rows child generation m).0
  expire-open_pty k name command cols rows child generation m i b old_generation deadline h =
      let ((s, at, live), new_one, started) =
        open_pty_lem name command cols rows child generation m i b h in
      expire_not_due k name old_generation deadline _ i s at
        (no_lease old_generation deadline s live)
