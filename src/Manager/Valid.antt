-- ===== src/Manager/Valid.antt =====
-- The table of ptys: names are distinct, there are 256 at most, and each leads to a session of that
-- name.
use mux.Prelude.{
  ℕ, ◌≤◌, ◌<◌, ◌≡◌, ◌∙◌, inl, inr, Bool, List, [], ◌∷◌, ◌++◌, Option, none, some, String, str_eq,
  str_eq_iff, arith, ◌==◌, ==_iff, length, get_elem?, set, get_elem?-set_self, get_elem?-set_ne,
  get_elem?-append, get_elem?-append_last, get_elem?-lt, Bool-cases, Option-cases, lookup, insert,
  remove, IsDistinct, lookup-remove, lookup-insert, length-remove, length-insert, remove-IsDistinct,
  insert-IsDistinct,
}
use mux.Prelude.Int.{ℤ}
use mux.Terminal.{Ghostty, Terminal}
use mux.Session.{PtySession}
use mux.Manager.{max_ptys, Shelf, done, find, fresh_session, insert_locked}

module _ {vt : Ghostty} where
  abbrev pub NamedAt : String → Option (PtySession vt) → Type 0
  NamedAt name none = ⊥
  NamedAt name (some s) = s.name ≡ name

  pub record IsValid (m : Shelf vt) : Type 0 where
    pub keys : IsDistinct m.table
    pub size : length m.table ≤ max_ptys
    pub named :
        (name : String) (i : ℕ)
        → lookup name m.table ≡ some i
        → NamedAt name (get_elem? m.sessions i)

  pub find-eq_some :
      (name : String) (m : Shelf vt) (i : ℕ) (s : PtySession vt)
      → find name m ≡ some (i, s)
      → (lookup name m.table ≡ some i) × (get_elem? m.sessions i ≡ some s)
  unfolding find
  find-eq_some name m i s h = ground arith

  pub set-NamedAt :
      (xs : List (PtySession vt)) (i j : ℕ) (s s' : PtySession vt) (name : String)
      → get_elem? xs i ≡ some s
      → s'.name ≡ s.name
      → NamedAt name (get_elem? xs j)
      → NamedAt name (get_elem? (set xs i s') j)
  set-NamedAt xs i j s s' name at_i same h = elim (Bool-cases (i == j)) [
    | inl e ↦
        let ij = (==_iff i j).0 e in
        rw (← ij, get_elem?-set_self xs i s' (get_elem?-lt xs i at_i))
          (same ∙ (rw (← ij, at_i) at h))
    | inr ne ↦ rw (get_elem?-set_ne xs i j s' (λ p. cc ((==_iff i j).1 p, ne))) h
  ]

  -- A session may change in all but its name.
  pub set-IsValid :
      (m : Shelf vt) (i : ℕ) (s s' : PtySession vt)
      → get_elem? m.sessions i ≡ some s
      → s'.name ≡ s.name
      → IsValid m
      → IsValid (record m { sessions = set m.sessions i s' })
  set-IsValid m i s s' at_i same v = record {
    keys = v.keys;
    size = v.size;
    named = λ name j e. set-NamedAt m.sessions i j s s' name at_i same (v.named name j e);
  }

  pub remove-IsValid :
      (m : Shelf vt) (k : String) → IsValid m → IsValid (record m { table = remove k m.table })
  remove-IsValid m k v = record {
    keys = remove-IsDistinct k m.table v.keys;
    size = omega (arith, length-remove k m.table, v.size);
    named = λ name j e. v.named name j (ground (arith, lookup-remove k name m.table));
  }

  pub append-NamedAt :
      (xs : List (PtySession vt)) (x : PtySession vt) (name : String) (i : ℕ)
      → NamedAt name (get_elem? xs i)
      → NamedAt name (get_elem? (xs ++ x ∷ []) i)
  append-NamedAt xs x name i h = elim (Option-cases (get_elem? xs i)) [
    | inl e ↦ absurd (rw e at h)
    | inr (s, e) ↦ rw (get_elem?-append xs x i s e) (rw e at h)
  ]

  pub insert-IsValid :
      (m : Shelf vt) (s : PtySession vt)
      → length m.table < max_ptys
      → IsValid m
      → IsValid (record {
        sessions = m.sessions ++ s ∷ [];
        table = insert s.name (length m.sessions) m.table;
      })
  insert-IsValid m s room v = record {
    keys = insert-IsDistinct s.name (length m.sessions) m.table v.keys;
    size = omega (arith, length-insert s.name (length m.sessions) m.table);
    named = λ name i e. elim (Bool-cases (str_eq s.name name)) [
      | inl same ↦
          let here : i ≡ length m.sessions =
            ground (arith, lookup-insert s.name name (length m.sessions) m.table) in
          rw (here, get_elem?-append_last m.sessions s) ((str_eq_iff s.name name).0 same)
      | inr other ↦
          append-NamedAt m.sessions s name i
            (v.named name i (ground (arith, lookup-insert s.name name (length m.sessions) m.table)))
    ];
  }

  pub insert_locked-eq_done :
      (generation : ℕ) (name : String) (command : List String) (t : Terminal vt) (child : ℤ)
      (adopted : Bool) (m : Shelf vt) (i : ℕ) (m' : Shelf vt)
      → insert_locked generation name command t child adopted m ≡ done (i, m')
      → ((length m.table < max_ptys) × (lookup name m.table ≡ none))
        × ((i ≡ length m.sessions)
            × (m' ≡ record {
              sessions = m.sessions ++ fresh_session generation name command t child adopted ∷ [];
              table = insert name (length m.sessions) m.table;
            }))
  unfolding insert_locked
  insert_locked-eq_done generation name command t child adopted m i m' h = ground arith

  pub insert_locked-IsValid :
      (generation : ℕ) (name : String) (command : List String) (t : Terminal vt) (child : ℤ)
      (adopted : Bool) (m : Shelf vt) (i : ℕ) (m' : Shelf vt)
      → insert_locked generation name command t child adopted m ≡ done (i, m')
      → IsValid m
      → IsValid m'
  insert_locked-IsValid generation name command t child adopted m i m' h v =
      let (room, e) = insert_locked-eq_done generation name command t child adopted m i m' h in
      rw (e.1) (insert-IsValid m (fresh_session generation name command t child adopted) (room.0) v)
