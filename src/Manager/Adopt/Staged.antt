-- ===== src/Manager/Adopt/Staged.antt =====
-- manager.rs: what staging a handoff leaves behind.
use mux.Prelude.{
  ℕ, ◌≡◌, refl, ◌⊎◌, inl, inr, true, List, [], ◌∷◌, Option, some, String, get_elem?, Bool-cases,
  Option-cases,
}
use mux.Terminal.{Ghostty, Terminal, new, feed}
use mux.Manager.{Shelf, Failure, Outcome, done, fails, ◌>>=◌, Received, insert_locked}
use mux.Manager.Valid.{
  NamedAt, IsValid, set-NamedAt, append-NamedAt, set-IsValid, insert_locked-IsValid,
  insert_locked-eq_done,
}
use mux.Manager.Adopt.{with_deadline, stage_one, stage}

pub Outcome-cases {ℓ} :
    {A : Type ℓ} (o : Outcome A) → ((a : A) × (o ≡ done a)) ⊎ ((f : Failure) × (o ≡ fails f))
Outcome-cases (done a) = inl (a, refl)
Outcome-cases (fails f) = inr (f, refl)

pub done_injective {ℓ} : {A : Type ℓ} {a b : A} → done a ≡ done b → a ≡ b
done_injective h = cc

module _ {vt : Ghostty} where
  with_deadline-IsValid :
      (i : ℕ) (d : Option ℕ) (m : Shelf vt) → IsValid m → IsValid (with_deadline i d m)
  with_deadline-IsValid i d m v = elim (Option-cases (get_elem? m.sessions i)) [
    | inl e ↦ rw (e, with_deadline) v
    | inr (s, e) ↦
        rw (e, with_deadline) (set-IsValid m i s (record s { close_deadline = d }) e refl v)
  ]

  with_deadline-NamedAt :
      (i : ℕ) (d : Option ℕ) (m : Shelf vt) (name : String) (j : ℕ)
      → NamedAt name (get_elem? m.sessions j)
      → NamedAt name (get_elem? (with_deadline i d m).sessions j)
  with_deadline-NamedAt i d m name j h = elim (Option-cases (get_elem? m.sessions i)) [
    | inl e ↦ rw (e, with_deadline) h
    | inr (s, e) ↦
        rw (e, with_deadline)
          (set-NamedAt m.sessions i j s (record s { close_deadline = d }) name e refl h)
  ]

  -- What a staged pty has gone through.
  pub record Staged (r : Received) (staged next : Shelf vt) : Type 0 where
    pub at : ℕ
    pub blank : Terminal vt
    pub made : new vt r.pty.rows r.pty.cols ≡ some blank
    pub shelf : Shelf vt
    pub inserted :
        insert_locked r.generation r.pty.name r.pty.command
          (feed vt blank r.pty.screen)
          r.pty.child_pid
          true
          staged
        ≡ done (at, shelf)
    pub end : next ≡ with_deadline at r.pty.close_deadline shelf

  bound-Staged :
      (r : Received) (t : Terminal vt) (staged next : Shelf vt) (o : Outcome (ℕ × Shelf vt))
      → new vt r.pty.rows r.pty.cols ≡ some t
      → insert_locked r.generation r.pty.name r.pty.command
          (feed vt t r.pty.screen)
          r.pty.child_pid
          true
          staged
        ≡ o
      → (o >>= λ (i, shelf). done (with_deadline i r.pty.close_deadline shelf)) ≡ done next
      → Staged r staged next
  bound-Staged r t staged next (fails f) made e h = absurd (cc)
  bound-Staged r t staged next (done (i, shelf)) made e h = record {
    at = i;
    blank = t;
    made = made;
    shelf = shelf;
    inserted = e;
    end = cc;
  }

  pub stage_one-Staged :
      (r : Received) (staged next : Shelf vt)
      → stage_one r staged ≡ done next
      → Staged r staged next
  unfolding stage_one
  stage_one-Staged r staged next h = elim (Bool-cases r.nonblocking) [
    | inr a ↦ absurd (cc (rw a at h))
    | inl a ↦ elim (Option-cases (new vt r.pty.rows r.pty.cols)) [
      | inl b ↦ absurd (cc (rw (a, b) at h))
      | inr (t, b) ↦ elim (Bool-cases r.registered) [
        | inr c ↦ absurd (cc (rw (a, b, c) at h))
        | inl c ↦ bound-Staged r t staged next _ b refl (rw (a, b, c) at h)
      ]
    ]
  ]

  stage_one-IsValid :
      (r : Received) (staged next : Shelf vt)
      → stage_one r staged ≡ done next
      → IsValid staged
      → IsValid next
  stage_one-IsValid r staged next h v =
      let s = stage_one-Staged r staged next h in
      rw (s.end) (
        with_deadline-IsValid s.at r.pty.close_deadline s.shelf (
          insert_locked-IsValid r.generation r.pty.name r.pty.command (feed vt s.blank r.pty.screen)
            r.pty.child_pid true staged s.at s.shelf s.inserted v))

  stage_one-NamedAt :
      (r : Received) (staged next : Shelf vt) (name : String) (j : ℕ)
      → stage_one r staged ≡ done next
      → NamedAt name (get_elem? staged.sessions j)
      → NamedAt name (get_elem? next.sessions j)
  stage_one-NamedAt r staged next name j h at_j =
      let s = stage_one-Staged r staged next h in
      let e =
        insert_locked-eq_done r.generation r.pty.name r.pty.command (feed vt s.blank r.pty.screen)
          r.pty.child_pid true staged s.at s.shelf s.inserted in
      rw (s.end) (
        with_deadline-NamedAt s.at r.pty.close_deadline s.shelf name j
          (rw (e.1.1) (append-NamedAt staged.sessions _ name j at_j)))

  pub record Kept (before after : Shelf vt) : Type 0 where
    pub valid : IsValid after
    pub names :
        (name : String) (j : ℕ)
        → NamedAt name (get_elem? before.sessions j)
        → NamedAt name (get_elem? after.sessions j)

  pub stage-Kept :
      (rs : List Received) (staged next : Shelf vt)
      → stage rs staged ≡ done next
      → IsValid staged
      → Kept staged next
  unfolding stage
  stage-Kept [] staged next h v =
      rw (← done_injective h) (record { valid = v; names = λ name j at_j. at_j })
  stage-Kept (r ∷ rs) staged next h v = elim (Outcome-cases (stage_one r staged)) [
    | inr (f, e) ↦ absurd (cc (rw e at h))
    | inl (middle, e) ↦
        let rest = stage-Kept rs middle next (rw e at h) (stage_one-IsValid r staged middle e v) in
        record {
          valid = rest.valid;
          names =
              λ name j at_j. rest.names name j (stage_one-NamedAt r staged middle name j e at_j);
        }
  ]
