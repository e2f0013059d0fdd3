-- ===== src/Manager/Lease/Kill.antt =====
-- manager.rs: what a kill, and the end of a pty, do to the table: one name goes, and no other.
use mux.Prelude.{
  ℕ, ◌≡◌, ◌≢◌, refl, sym, ◌∙◌, inl, inr, [], ◌∷◌, ◌++◌, Option, none, some, String, str_eq,
  str_eq_iff, arith, if◌then◌else◌, get_elem?, get_elem?-set_self, get_elem?-set_ne, get_elem?-lt,
  Bool-cases, Option-cases, is_some, map_or, lookup, lookup-remove,
}
use mux.Terminal.{Ghostty}
use mux.Peer.{PtyEvent}
use mux.Session.{PtySession, Kernel, mark_killed}
use mux.Manager.{Shelf, Manager, find, put, broadcast}
use mux.Manager.Valid.{IsValid, find-eq_some}
use mux.Manager.Lease.{kill_session, forget, kill}

module _ {vt : Ghostty} where
  pub find-eq :
      (name : String) (m : Shelf vt) (i : ℕ) (s : PtySession vt)
      → lookup name m.table ≡ some i
      → get_elem? m.sessions i ≡ some s
      → find name m ≡ some (i, s)
  unfolding find
  find-eq name m i s at there = rw (at, there) refl

  -- A session that was written back is found where it was.
  pub find-put :
      (name : String) (m : Manager vt) (i : ℕ) (s s' : PtySession vt)
      → find name m.shelf ≡ some (i, s)
      → find name (put i s' m).shelf ≡ some (i, s')
  find-put name m i s s' h =
      let (at, there) = find-eq_some name m.shelf i s h in
      find-eq name (put i s' m).shelf i s' at
        (get_elem?-set_self m.sessions i s' (get_elem?-lt m.sessions i there))

  pub broadcast-shelf : (e : Option PtyEvent) (m : Manager vt) → (broadcast e m).shelf ≡ m.shelf
  broadcast-shelf none m = refl
  broadcast-shelf (some e) m = refl

  broadcast-terminated :
      (e : Option PtyEvent) (m : Manager vt) → (broadcast e m).terminated ≡ m.terminated
  broadcast-terminated none m = refl
  broadcast-terminated (some e) m = refl

  pub kill_session-terminated :
      (k : Kernel) (i : ℕ) (s : PtySession vt) (m : Manager vt)
      → (kill_session k i s m).terminated ≡ m.terminated ++ s.child ∷ []
  unfolding kill_session
  kill_session-terminated k i s m = broadcast-terminated (mark_killed k s).1 _

  pub kill_session-shelf :
      (k : Kernel) (i : ℕ) (s : PtySession vt) (m : Manager vt)
      → (kill_session k i s m).shelf ≡ (put i (mark_killed k s).0 m).shelf
  unfolding kill_session
  kill_session-shelf k i s m = broadcast-shelf (mark_killed k s).1 _

  pub find_missing :
      (name : String) (m : Shelf vt) → lookup name m.table ≡ none → find name m ≡ none
  unfolding find
  find_missing name m h = rw h refl

  pub find_same :
      (name : String) (m m' : Shelf vt)
      → lookup name m'.table ≡ lookup name m.table
      → ((i : ℕ) → lookup name m.table ≡ some i → get_elem? m'.sessions i ≡ get_elem? m.sessions i)
      → find name m' ≡ find name m
  unfolding find
  find_same name m m' table at = elim (Option-cases (lookup name m.table)) [
    | inl e ↦ rw (table, e) refl
    | inr (i, e) ↦ rw (table, e, at i e) refl
  ]

  -- In a valid table two names never lead to one place.
  places_differ :
      (name other : String) (i : ℕ) (s : PtySession vt) (m : Shelf vt) (j : ℕ)
      → IsValid m
      → name ≢ other
      → find name m ≡ some (i, s)
      → lookup other m.table ≡ some j
      → i ≢ j
  places_differ name other i s m j v ne at there same =
      let (e, f) = find-eq_some name m i s at in
      let mine : s.name ≡ name = rw f at (v.named name i e) in
      let theirs : s.name ≡ other = rw (← same, f) at (v.named other j there) in
      ne (sym mine ∙ theirs)

  pub killed_gone :
      (k : Kernel) (name : String) (i : ℕ) (s : PtySession vt) (m : Manager vt)
      → find name (kill_session k i s (forget name m)).shelf ≡ none
  killed_gone k name i s m =
      rw (kill_session-shelf k i s (forget name m)) (
        find_missing name _ (ground (arith, lookup-remove name name m.table, str_eq_iff name name)))

  pub killed_others :
      (k : Kernel) (name other : String) (i : ℕ) (s : PtySession vt) (m : Manager vt)
      → IsValid m.shelf
      → name ≢ other
      → find name m.shelf ≡ some (i, s)
      → find other (kill_session k i s (forget name m)).shelf ≡ find other m.shelf
  killed_others k name other i s m v ne at = rw (kill_session-shelf k i s (forget name m)) (
      find_same other m.shelf _
        (ground (arith, lookup-remove name other m.table, str_eq_iff name other))
        (λ j there.
          get_elem?-set_ne m.sessions i j _ (places_differ name other i s m.shelf j v ne at there)))

  not_there :
      (name other : String) (m : Manager vt)
      → find name m.shelf ≡ none
      → find other m.shelf ≡ (if str_eq name other then none else find other m.shelf)
  not_there name other m e = elim (Bool-cases (str_eq name other)) [
    | inl same ↦ rw same (rw ((str_eq_iff name other).0 same) at e)
    | inr differs ↦ rw differs refl
  ]

  pub killed :
      (k : Kernel) (name other : String) (i : ℕ) (s : PtySession vt) (m : Manager vt)
      → IsValid m.shelf
      → find name m.shelf ≡ some (i, s)
      → find other (kill_session k i s (forget name m)).shelf
        ≡ (if str_eq name other then none else find other m.shelf)
  killed k name other i s m v at = elim (Bool-cases (str_eq name other)) [
    | inl same ↦ rw (same, ← (str_eq_iff name other).0 same) (killed_gone k name i s m)
    | inr differs ↦
        rw differs
          (killed_others k name other i s m v (λ p. cc ((str_eq_iff name other).1 p, differs)) at)
  ]

  -- A kill ends the pty of that name, if there is one, and its child is terminated; the answer says
  -- whether there was one. In a valid table every other name leads where it led.
  pub kill_lem :
      (k : Kernel) (name : String) (m : Manager vt) (other : String)
      → IsValid m.shelf
      → (find other (kill k name m).0.shelf
          ≡ (if str_eq name other then none else find other m.shelf))
        × ((kill k name m).1 ≡ is_some (find name m.shelf))
        × ((kill k name m).0.terminated
            ≡ map_or m.terminated (λ (i, s). m.terminated ++ s.child ∷ []) (find name m.shelf))
  unfolding kill
  kill_lem k name m other v = elim (Option-cases (find name m.shelf)) [
    | inl e ↦ rw (e, kill) (not_there name other m e, refl, refl)
    | inr ((i, s), e) ↦
        rw (e, kill)
          (killed k name other i s m v e, refl, kill_session-terminated k i s (forget name m))
  ]
