-- ===== src/Manager/Lease/Reap.antt =====
-- manager.rs: the end of a pty whose process has exited.
use mux.Prelude.{
  ℕ, ◌≡◌, ◌≢◌, refl, sym, ap, ◌∙◌, inl, inr, true, false, none, some, String, str_eq_iff, arith,
  if◌then◌else◌, get_elem?, ◌==◌, ==_iff, ==_refl, get_elem?-set_self, get_elem?-set_ne,
  get_elem?-lt, Bool-cases, Option-cases, map_or, lookup, lookup-remove,
}
use mux.Terminal.{Ghostty}
use mux.Session.{PtySession, Kernel, mark_exited, emit}
use mux.Manager.{Manager, find, put}
use mux.Manager.Valid.{IsValid}
use mux.Manager.Lease.{remove_if_same, reap}
use mux.Manager.Lease.Kill.{broadcast-shelf, find_same, find_missing}

module _ {vt : Ghostty} where
  lookup-remove_if_same :
      (name : String) (i j : ℕ) (s : PtySession vt) (m : Manager vt)
      → lookup name m.table ≡ some j
      → j ≢ i
      → lookup name (remove_if_same i s m).table ≡ some j
  unfolding remove_if_same
  lookup-remove_if_same name i j s m h ne =
      ground (arith, lookup-remove s.name name m.table, str_eq_iff s.name name)

  lookup-removed :
      (name : String) (i : ℕ) (s s' : PtySession vt) (m : Manager vt)
      → IsValid m.shelf
      → get_elem? m.sessions i ≡ some s
      → s'.name ≡ s.name
      → lookup name m.table ≡ some i
      → lookup name (remove_if_same i s' m).table ≡ none
  unfolding remove_if_same
  lookup-removed name i s s' m v at same before =
      let named : s.name ≡ name = rw at at (v.named name i before) in
      let mine : s'.name ≡ name = same ∙ named in
      ground (
        arith,
        lookup-remove s'.name name m.table,
        str_eq_iff s'.name name,
        ==_refl i,
        ap (λ n. lookup n m.table) mine ∙ before,
      )

  lookup-remove_missing :
      (name : String) (i : ℕ) (s : PtySession vt) (m : Manager vt)
      → lookup name m.table ≡ none
      → lookup name (remove_if_same i s m).table ≡ none
  unfolding remove_if_same
  lookup-remove_missing name i s m h = ground (arith, lookup-remove s.name name m.table)

  remove_if_same-sessions :
      (i : ℕ) (s : PtySession vt) (m : Manager vt) → (remove_if_same i s m).sessions ≡ m.sessions
  unfolding remove_if_same
  remove_if_same-sessions i s m = ground arith

  exited_session :
      (k : Kernel) (s : PtySession vt)
      → ((emit k (mark_exited s).0).0.exited ≡ true)
        × ((emit k (mark_exited s).0).0.client ≡ none)
        × ((emit k (mark_exited s).0).0.name ≡ s.name)
        × ((mark_exited s).1 ≡ map_or none (λ c. some c.id) s.client)
  unfolding emit mark_exited
  exited_session k s = (ground arith, ground arith, ground arith, refl)

  reap-shelf :
      (k : Kernel) (i : ℕ) (s : PtySession vt) (m : Manager vt)
      → get_elem? m.sessions i ≡ some s
      → (reap k i m).0.shelf
        ≡ (put i (emit k (mark_exited s).0).0 (remove_if_same i (mark_exited s).0 m)).shelf
  unfolding reap
  reap-shelf k i s m at = rw (at, reap) (broadcast-shelf (emit k (mark_exited s).0).1 _)

  mark_exited-name : (s : PtySession vt) → (mark_exited s).0.name ≡ s.name
  unfolding mark_exited
  mark_exited-name s = ground arith

  reaped_find :
      (name : String) (i : ℕ) (s s1 s2 : PtySession vt) (m : Manager vt)
      → IsValid m.shelf
      → get_elem? m.sessions i ≡ some s
      → s1.name ≡ s.name
      → find name (put i s2 (remove_if_same i s1 m)).shelf
        ≡ (if map_or false (λ j. j == i) (lookup name m.table) then none else find name m.shelf)
  reaped_find name i s s1 s2 m v at same = elim (Option-cases (lookup name m.table)) [
    | inl e ↦ rw e (
        find_missing name _ (lookup-remove_missing name i s1 m e)
        ∙ sym (find_missing name m.shelf e))
    | inr (j, e) ↦ elim (Bool-cases (j == i)) [
      | inl here ↦
          let mine = e ∙ ap some ((==_iff j i).0 here) in
          rw (e, here) (find_missing name _ (lookup-removed name i s s1 m v at same mine))
      | inr other ↦
          rw (e, other)
            (find_same name m.shelf _
              (lookup-remove_if_same name i j s1 m e (λ p. cc ((==_iff j i).1 p, other)) ∙ sym e)
              (λ j' e'.
                get_elem?-set_ne (remove_if_same i s1 m).sessions i j' s2
                  (λ p. cc ((==_iff j i).1 (cc (e, e', p)), other))
                ∙ ap (λ xs. get_elem? xs j') (remove_if_same-sessions i s1 m)))
    ]
  ]

  -- When the process of a pty has exited, the name that leads to it is gone, and every other name
  -- leads where it led, also to a new pty of the same name. The session is marked as exited and its
  -- slot is empty, and the client that was in it is the one that is told.
  pub reap_lem :
      (k : Kernel) (i : ℕ) (s : PtySession vt) (m : Manager vt) (name : String)
      → IsValid m.shelf
      → get_elem? m.sessions i ≡ some s
      → (find name (reap k i m).0.shelf
          ≡ (if map_or false (λ j. j == i) (lookup name m.table) then none else find name m.shelf))
        × ((s' : PtySession vt) × (get_elem? (reap k i m).0.sessions i ≡ some s')
            × (s'.exited ≡ true)
            × (s'.client ≡ none))
        × ((reap k i m).1 ≡ map_or none (λ c. some c.id) s.client)
  unfolding reap
  reap_lem k i s m name v at =
      let s1 = (mark_exited s).0 in
      let s2 = (emit k s1).0 in
      let (gone, free, same, told) = exited_session k s in
      let shelf = reap-shelf k i s m at in
      (
        rw shelf (reaped_find name i s s1 s2 m v at (mark_exited-name s)),
        (
          s2,
          rw (shelf, remove_if_same-sessions i s1 m)
              (get_elem?-set_self m.sessions i s2 (get_elem?-lt m.sessions i at)),
          gone,
          free,
        ),
        rw (at, reap) told,
      )
