-- ===== src/Migrate/Carried.antt =====
-- migrate.rs: what a handoff is to carry, told without the sorted list of sessions: of each name in
-- the table whose pty lives, the entry and the descriptor of that pty.
use mathlib.Core.List.{Perm}
use mathlib.Core.List.Perm
use mux.Prelude.{
  ℕ, suc, ◌≡◌, refl, sym, ap, ◌∙◌, inl, inr, true, false, List, [], ◌∷◌, map, Option, none, some,
  String, if◌then◌else◌, get_elem?, Table, length, Bool, Option-cases,
}
use mux.Terminal.{Ghostty}
use mux.Session.{PtySession}
use mux.Manager.{Manager, MigratePty}
use mux.Manager.Listing.{values, running, live_sessions}
use mux.Manager.Listing.Sorted.{InOrder, sort_by-InOrder, sort_by-perm}
use mux.Prelude.{◌⊎◌}
use mux.Migrate.{MigrateError, Handed, taken, lost, Adopted, zip_fds, entry, dup_all}

-- What is received, with its descriptor as an answer of `dup`.
abbrev pub sent : Adopted → MigratePty × Option ℕ
sent a = (a.pty, some a.master)

pub Handed-cases {ℓ} :
    {A : Type ℓ} (h : Handed A) → ((a : A) × (h ≡ taken a)) ⊎ ((e : MigrateError) × (h ≡ lost e))
Handed-cases (taken a) = inl (a, refl)
Handed-cases (lost e) = inr (e, refl)

taken_injective {ℓ} : {A : Type ℓ} {x y : A} → taken x ≡ taken y → x ≡ y
taken_injective h = cc h

module _ {vt : Ghostty} (window_size : PtySession vt → ℕ × ℕ) (dup : PtySession vt → Option ℕ) where
  abbrev pub described : PtySession vt → MigratePty × Option ℕ
  described s = (entry window_size s, dup s)

  unfoldable pub to_carry : List (PtySession vt) → Table ℕ → List (MigratePty × Option ℕ)
  to_carry sessions [] = []
  to_carry sessions ((name, i) ∷ table) =
      let rest = to_carry sessions table in
      elim (get_elem? sessions i) [
        | none ↦ rest
        | some s ↦ if s.exited then rest else described s ∷ rest
      ]

  one_more :
      (exited : Bool) (s : PtySession vt) (ss : List (PtySession vt))
      (rest : List (MigratePty × Option ℕ))
      → map described ss ≡ rest
      → map described (if exited then ss else s ∷ ss)
        ≡ (if exited then rest else described s ∷ rest)
  one_more true s ss rest h = h
  one_more false s ss rest h = ap (◌∷◌ (described s)) h

  running-to_carry :
      (sessions : List (PtySession vt)) (table : Table ℕ)
      → map described (running (values sessions table)) ≡ to_carry sessions table
  unfolding values to_carry
  running-to_carry sessions [] = refl
  running-to_carry sessions ((name, i) ∷ table) = elim (Option-cases (get_elem? sessions i)) [
    | inl gone ↦ rw (gone, values, to_carry) (running-to_carry sessions table)
    | inr (s, there) ↦
        rw (there, values, to_carry)
          (one_more s.exited s (running (values sessions table)) (to_carry sessions table)
            (running-to_carry sessions table))
  ]

  -- The first descriptor, and the others.
  dup_all_cons :
      (s : PtySession vt) (ss : List (PtySession vt)) (fds : List ℕ)
      → dup_all dup (s ∷ ss) ≡ taken fds
      → (fd : ℕ) × (rest : List ℕ) × (dup s ≡ some fd)
        × (dup_all dup ss ≡ taken rest)
        × (fds ≡ fd ∷ rest)
  unfolding dup_all
  dup_all_cons s ss fds h = elim (Option-cases (dup s)) [
    | inl bad ↦ absurd (cc (rw (bad, dup_all) at h))
    | inr (fd, good) ↦ elim (Handed-cases (dup_all dup ss)) [
      | inl (rest, others) ↦
          (fd, rest, good, others, sym (taken_injective (rw (good, others, dup_all) at h)))
      | inr (e, bad) ↦ absurd (cc (rw (good, bad, dup_all) at h))
    ]
  ]

  pub length-dup_all :
      (ss : List (PtySession vt)) (fds : List ℕ)
      → dup_all dup ss ≡ taken fds
      → length fds ≡ length ss
  unfolding dup_all
  length-dup_all [] fds h = ap length (sym (taken_injective h))
  length-dup_all (s ∷ ss) fds h =
      let (fd, rest, one, others, whole) = dup_all_cons s ss fds h in
      ap length whole ∙ ap suc (length-dup_all ss rest others)

  -- Each entry gets the descriptor of its own session.
  pub sent-zip_fds :
      (ss : List (PtySession vt)) (fds : List ℕ)
      → dup_all dup ss ≡ taken fds
      → map sent (zip_fds (map (entry window_size) ss) fds) ≡ map described ss
  unfolding zip_fds
  sent-zip_fds [] fds h = refl
  sent-zip_fds (s ∷ ss) fds h =
      let (fd, rest, one, others, whole) = dup_all_cons s ss fds h in
      rw (whole, one, zip_fds)
        (ap (◌∷◌ (entry window_size s, some fd)) (sent-zip_fds ss rest others))

  abbrev pub name_of : Adopted → String
  name_of a = a.pty.name

  pub zip_fds-InOrder :
      (ss : List (PtySession vt)) (fds : List ℕ)
      → dup_all dup ss ≡ taken fds
      → InOrder (λ s. s.name) ss
      → InOrder name_of (zip_fds (map (entry window_size) ss) fds)
  unfolding zip_fds
  zip_fds-InOrder [] fds h sorted = tt
  zip_fds-InOrder (s ∷ []) fds h sorted =
      let (fd, rest, one, others, whole) = dup_all_cons s [] fds h in rw (whole, zip_fds) tt
  zip_fds-InOrder (s ∷ t ∷ ss) fds h sorted =
      let (fd, rest, one, others, whole) = dup_all_cons s (t ∷ ss) fds h in
      let (fd', rest', one', others', whole') = dup_all_cons t ss rest others in
      let tail = zip_fds-InOrder (t ∷ ss) rest others sorted.1 in
      rw (whole, whole', zip_fds) (sorted.0, (rw (whole', zip_fds) at tail))

  -- The live sessions are those that a handoff is to carry, in the order of their names.
  pub live_sessions-to_carry :
      (m : Manager vt) → Perm (map described (live_sessions m)) (to_carry m.sessions m.table)
  unfolding live_sessions
  live_sessions-to_carry m =
      rw (← running-to_carry m.sessions m.table)
        (Perm.map described (sort_by-perm (λ s. s.name) (running (values m.sessions m.table))))

  pub live_sessions-InOrder : (m : Manager vt) → InOrder (λ s. s.name) (live_sessions m)
  unfolding live_sessions
  live_sessions-InOrder m = sort_by-InOrder (λ s. s.name) (running (values m.sessions m.table))
