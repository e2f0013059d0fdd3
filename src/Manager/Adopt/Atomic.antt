-- ===== src/Manager/Adopt/Atomic.antt =====
-- manager.rs: a handoff is taken whole or not at all.
use mux.Prelude.{
  ℕ, ◌+◌, ◌≡◌, refl, ap, ◌∙◌, inl, inr, Bool, true, false, ◌||◌, List, [], ◌∷◌, none, some, String,
  str_eq, str_eq_iff, arith, ltb, any, All, length, get_elem?, Bool-cases, Option-cases, is_some,
  or_else, Table, lookup, insert, IsDistinct, lookup-insert,
}
use mux.Terminal.{Ghostty, new}
use mux.Session.{PtySession}
use mux.Manager.{
  max_ptys, Shelf, Manager, Failure, done, fails, Received, schedule_agent, spawn_task, read_loop,
}
use mux.Manager.Adopt.{extend, stage, start_adopted_one, start_adopted, admit_staged, adopt_many}
use mux.Manager.Adopt.Staged.{Outcome-cases}
use mux.Manager.Adopt.Held.{Holds, set-Holds, stage-Holds}
use mux.Manager.Adopt.Valid.{start_adopted_one-shelf, nothing_staged}
use mux.Manager.Adopt.Staged.{Outcome-cases, stage-Kept}

lookup-extend :
    (k : String) (staged table : Table ℕ)
    → IsDistinct staged
    → lookup k (extend staged table) ≡ or_else (lookup k staged) (lookup k table)
unfolding extend IsDistinct lookup
lookup-extend k [] table distinct = refl
lookup-extend k ((j, i) ∷ staged) table (new, distinct) = ground (
  arith,
  lookup-extend k staged (insert j i table) distinct,
  lookup-insert j k i table,
  str_eq_iff j k,
  new,
)

or_false_right : (a b : Bool) → (a || b) ≡ false → b ≡ false
or_false_right true b h = absurd (cc)
or_false_right false b h = h

free_lookup :
    (k : String) (staged table : Table ℕ) (i : ℕ)
    → any (λ (name, j). is_some (lookup name table)) staged ≡ false
    → lookup k table ≡ some i
    → lookup k staged ≡ none
unfolding lookup
free_lookup k [] table i free at = refl
free_lookup k ((j, p) ∷ staged) table i free at = elim (Bool-cases (str_eq j k)) [
  | inl same ↦
      let e : lookup j table ≡ some i = ap (λ n. lookup n table) ((str_eq_iff j k).0 same) ∙ at in
      absurd (cc (rw e at free))
  | inr other ↦ rw (other, lookup) (free_lookup k staged table i (or_false_right _ _ free) at)
]

module _ {vt : Ghostty} where
  schedule_agent-Holds :
      (i : ℕ) (m : Manager vt) (r : Received) → Holds m.shelf r → Holds (schedule_agent i m).shelf r
  unfolding schedule_agent
  schedule_agent-Holds i m r h = elim (Option-cases (get_elem? m.sessions i)) [
    | inl e ↦ rw (e, schedule_agent) h
    | inr (s, e) ↦ elim (Bool-cases s.agent_pending) [
      | inl p ↦ rw (e, p, schedule_agent) h
      | inr p ↦
          rw (e, p, schedule_agent)
            (set-Holds m.shelf r i s (record s { agent_pending = true }) e
              (refl, refl, refl, refl, refl) h)
    ]
  ]

  schedule_agent-table : (i : ℕ) (m : Manager vt) → (schedule_agent i m).table ≡ m.table
  unfolding schedule_agent
  schedule_agent-table i m = ground arith

  start_adopted-Holds :
      (staged : Table ℕ) (m : Manager vt) (r : Received)
      → Holds m.shelf r
      → Holds (start_adopted staged m).shelf r
  unfolding start_adopted
  start_adopted-Holds [] m r h = h
  start_adopted-Holds ((name, i) ∷ staged) m r h =
      start_adopted-Holds staged (start_adopted_one i m) r
        (rw (start_adopted_one-shelf i m) (schedule_agent-Holds i (spawn_task (read_loop i) m) r h))

  start_adopted-table :
      (staged : Table ℕ) (m : Manager vt) → (start_adopted staged m).table ≡ m.table
  unfolding start_adopted
  start_adopted-table [] m = refl
  start_adopted-table ((name, i) ∷ staged) m =
      start_adopted-table staged (start_adopted_one i m)
      ∙ ap (λ (s : Shelf vt). s.table) (start_adopted_one-shelf i m)
      ∙ schedule_agent-table i (spawn_task (read_loop i) m)

  extend-Holds :
      (sessions : List (PtySession vt)) (staged table : Table ℕ) (r : Received)
      → IsDistinct staged
      → Holds (record { sessions = sessions; table = staged }) r
      → Holds (record { sessions = sessions; table = extend staged table }) r
  extend-Holds sessions staged table r distinct h = record {
    place = h.place;
    session = h.session;
    at = ground (arith, lookup-extend r.pty.name staged table distinct, h.at);
    there = h.there;
    continues = h.continues;
  }

  adopt_many-eq_done :
      (incoming : List Received) (m : Manager vt)
      → (adopt_many incoming m).1 ≡ done tt
      → (staged : Shelf vt) × (stage incoming (record { sessions = m.sessions; table = [] })
          ≡ done staged)
        × (any (λ (name, i). is_some (lookup name m.table)) staged.table ≡ false)
        × ((adopt_many incoming m).0
            ≡ start_adopted staged.table (record m {
              shelf = record { sessions = staged.sessions; table = extend staged.table m.table };
            }))
  unfolding adopt_many admit_staged
  adopt_many-eq_done incoming m h =
      elim (Outcome-cases (stage incoming (record { sessions = m.sessions; table = [] }))) [
        | inr (f, e) ↦ absurd (cc (rw (e, adopt_many) at h))
        | inl (staged, e) ↦
            elim (Bool-cases (ltb max_ptys (length m.table + length staged.table))) [
              | inl full ↦ absurd (cc (rw (e, full, adopt_many, admit_staged) at h))
              | inr room ↦
                  elim (Bool-cases
                    (any (λ (name, i). is_some (lookup name m.table)) staged.table)) [
                      | inl taken ↦ absurd (cc (rw (e, room, taken, adopt_many, admit_staged) at h))
                      | inr free ↦
                          (staged, e, free, rw (e, room, free, adopt_many, admit_staged) refl)
                    ]
            ]
      ]

  -- A handoff that is refused, for whatever reason, leaves the manager as it was.
  pub adopt_many_refused :
      (incoming : List Received) (m : Manager vt) (f : Failure)
      → (adopt_many incoming m).1 ≡ fails f
      → (adopt_many incoming m).0 ≡ m
  unfolding adopt_many admit_staged
  adopt_many_refused incoming m f h =
      elim (Outcome-cases (stage incoming (record { sessions = m.sessions; table = [] }))) [
        | inr (g, e) ↦ rw (e, adopt_many) refl
        | inl (staged, e) ↦
            elim (Bool-cases (ltb max_ptys (length m.table + length staged.table))) [
              | inl full ↦ rw (e, full, adopt_many, admit_staged) refl
              | inr room ↦
                  elim (Bool-cases
                    (any (λ (name, i). is_some (lookup name m.table)) staged.table)) [
                      | inl taken ↦ rw (e, room, taken, adopt_many, admit_staged) refl
                      | inr free ↦ absurd (cc (rw (e, room, free, adopt_many, admit_staged) at h))
                    ]
            ]
      ]

  All-held :
      (rs : List Received) (m : Manager vt) (staged : Shelf vt)
      → IsDistinct staged.table
      → All (Holds staged) rs
      → All
          (Holds
            (start_adopted staged.table (record m {
              shelf = record { sessions = staged.sessions; table = extend staged.table m.table };
            })).shelf)
          rs
  All-held [] m staged distinct h = tt
  All-held (r ∷ rs) m staged distinct (h, hs) = (
    start_adopted-Holds staged.table _ r
        (extend-Holds staged.sessions staged.table m.table r distinct h),
    All-held rs m staged distinct hs,
  )

  -- After a handoff that is taken, each pty in it is there under its name, with the
  -- child, the command, the screen and the deadline that were handed over, and with the generation
  -- that was drawn for it when it came in.
  pub adopt_many_taken :
      (incoming : List Received) (m : Manager vt)
      → (adopt_many incoming m).1 ≡ done tt
      → All (Holds (adopt_many incoming m).0.shelf) incoming
  adopt_many_taken incoming m h =
      let (staged, e, free, after) = adopt_many-eq_done incoming m h in
      let distinct = (stage-Kept incoming _ staged e (nothing_staged m.sessions)).valid.keys in
      rw after (All-held incoming m staged distinct (stage-Holds incoming _ staged e))

  taken_keeps :
      (incoming : List Received) (m : Manager vt) (name : String) (i : ℕ)
      → (adopt_many incoming m).1 ≡ done tt
      → lookup name m.table ≡ some i
      → lookup name (adopt_many incoming m).0.table ≡ some i
  taken_keeps incoming m name i h at =
      let (staged, e, free, after) = adopt_many-eq_done incoming m h in
      let distinct = (stage-Kept incoming _ staged e (nothing_staged m.sessions)).valid.keys in
      let new = free_lookup name staged.table m.table i free at in
      ap (λ (x : Manager vt). lookup name x.table) after
      ∙ ap (lookup name) (start_adopted-table staged.table _)
      ∙ lookup-extend name staged.table m.table distinct
      ∙ rw (new, at) refl

  -- A handoff, taken or refused, leaves each name that was there leading where it led.
  pub adopt_many_keeps :
      (incoming : List Received) (m : Manager vt) (name : String) (i : ℕ)
      → lookup name m.table ≡ some i
      → lookup name (adopt_many incoming m).0.table ≡ some i
  adopt_many_keeps incoming m name i at = elim (Outcome-cases (adopt_many incoming m).1) [
    | inl (tt, h) ↦ taken_keeps incoming m name i h at
    | inr (f, h) ↦ rw (adopt_many_refused incoming m f h) at
  ]
