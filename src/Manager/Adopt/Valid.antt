-- ===== src/Manager/Adopt/Valid.antt =====
-- manager.rs: a handoff keeps the table valid.
use mux.Prelude.{
  ℕ, ◌≤◌, ◌+◌, ◌≡◌, refl, inl, inr, true, List, [], ◌∷◌, some, String, str_eq, str_eq_iff, arith,
  ltb, any, All, length, get_elem?, Bool-cases, Option-cases, is_some, Table, lookup, insert,
  IsDistinct, lookup-insert, length-insert, insert-IsDistinct,
}
use mux.Terminal.{Ghostty, new}
use mux.Session.{PtySession}
use mux.Manager.{
  max_ptys, Shelf, Manager, Received, schedule_agent, schedule_close, spawn_task, read_loop,
}
use mux.Manager.Valid.{NamedAt, IsValid, set-IsValid}
use mux.Manager.Adopt.{extend, stage, start_adopted_one, start_adopted, admit_staged, adopt_many}
use mux.Manager.Adopt.Staged.{Outcome-cases, Kept, stage-Kept}

module _ {vt : Ghostty} where
  NamedEntry : List (PtySession vt) → String × ℕ → Type 0
  NamedEntry sessions (name, i) = NamedAt name (get_elem? sessions i)

  entries_named :
      (sessions : List (PtySession vt)) (table : Table ℕ)
      → IsDistinct table
      → ((name : String) (i : ℕ) → lookup name table ≡ some i → NamedAt name (get_elem? sessions i))
      → All (NamedEntry sessions) table
  unfolding NamedEntry IsDistinct
  entries_named sessions [] distinct named = tt
  entries_named sessions ((k, i) ∷ table) (new, distinct) named = (
    named k i (unfold lookup in ground (arith, str_eq_iff k k)),
    entries_named sessions table distinct
        (λ name j e. named name j (unfold lookup in ground (arith, str_eq_iff k name, new))),
  )

  put_named :
      (sessions : List (PtySession vt)) (table : Table ℕ) (k : String) (i : ℕ)
      → NamedAt k (get_elem? sessions i)
      → ((name : String) (j : ℕ) → lookup name table ≡ some j → NamedAt name (get_elem? sessions j))
      → (name : String) (j : ℕ) → lookup name (insert k i table) ≡ some j
      → NamedAt name (get_elem? sessions j)
  put_named sessions table k i here named name j e = elim (Bool-cases (str_eq k name)) [
    | inl same ↦
        let at : j ≡ i = ground (arith, lookup-insert k name i table) in
        rw (at, ← (str_eq_iff k name).0 same) here
    | inr other ↦ named name j (ground (arith, lookup-insert k name i table))
  ]

  extend-IsValid :
      (sessions : List (PtySession vt)) (staged table : Table ℕ)
      → length table + length staged ≤ max_ptys
      → All (NamedEntry sessions) staged
      → IsValid (record { sessions = sessions; table = table })
      → IsValid (record { sessions = sessions; table = extend staged table })
  unfolding extend NamedEntry
  extend-IsValid sessions [] table room named v = v
  extend-IsValid sessions ((k, i) ∷ staged) table room (here, named) v =
      extend-IsValid sessions staged (insert k i table)
        (omega (arith, room, length-insert k i table)) named
        (record {
          keys = insert-IsDistinct k i table v.keys;
          size = omega (arith, room, length-insert k i table);
          named = put_named sessions table k i here v.named;
        })

  pub schedule_agent-IsValid :
      (i : ℕ) (m : Manager vt) → IsValid m.shelf → IsValid (schedule_agent i m).shelf
  unfolding schedule_agent
  schedule_agent-IsValid i m v = elim (Option-cases (get_elem? m.sessions i)) [
    | inl e ↦ rw (e, schedule_agent) v
    | inr (s, e) ↦ elim (Bool-cases s.agent_pending) [
      | inl p ↦ rw (e, p, schedule_agent) v
      | inr p ↦
          rw (e, p, schedule_agent)
            (set-IsValid m.shelf i s (record s { agent_pending = true }) e refl v)
    ]
  ]

  pub start_adopted_one-shelf :
      (i : ℕ) (m : Manager vt)
      → (start_adopted_one i m).shelf ≡ (schedule_agent i (spawn_task (read_loop i) m)).shelf
  unfolding start_adopted_one schedule_close
  start_adopted_one-shelf i m =
      let m' = schedule_agent i (spawn_task (read_loop i) m) in
      elim (Option-cases (get_elem? m'.sessions i)) [
        | inl e ↦ rw (e, start_adopted_one) refl
        | inr (s, e) ↦ elim (Option-cases s.close_deadline) [
          | inl d ↦ rw (e, d, start_adopted_one, schedule_close) refl
          | inr (deadline, d) ↦ rw (e, d, start_adopted_one, schedule_close) refl
        ]
      ]

  start_adopted-IsValid :
      (staged : Table ℕ) (m : Manager vt) → IsValid m.shelf → IsValid (start_adopted staged m).shelf
  unfolding start_adopted
  start_adopted-IsValid [] m v = v
  start_adopted-IsValid ((name, i) ∷ staged) m v =
      start_adopted-IsValid staged (start_adopted_one i m)
        (rw (start_adopted_one-shelf i m) (schedule_agent-IsValid i (spawn_task (read_loop i) m) v))

  admit_staged-IsValid :
      (staged : Shelf vt) (m : Manager vt)
      → Kept (record { sessions = m.sessions; table = [] }) staged
      → IsValid m.shelf
      → IsValid (admit_staged staged m).0.shelf
  unfolding admit_staged
  admit_staged-IsValid staged m kept v =
      elim (Bool-cases (ltb max_ptys (length m.table + length staged.table))) [
        | inl full ↦ rw full v
        | inr room ↦
            elim (Bool-cases (any (λ (name, i). is_some (lookup name m.table)) staged.table)) [
              | inl taken ↦ rw (room, taken) v
              | inr free ↦
                  rw (room, free)
                    (start_adopted-IsValid staged.table
                      (record m {
                        shelf = record {
                          sessions = staged.sessions;
                          table = extend staged.table m.table;
                        };
                      })
                      (extend-IsValid staged.sessions staged.table m.table (ground arith)
                        (entries_named staged.sessions staged.table kept.valid.keys
                          kept.valid.named)
                        (record {
                          keys = v.keys;
                          size = v.size;
                          named = λ name j e. kept.names name j (v.named name j e);
                        })))
            ]
      ]

  pub nothing_staged :
      (sessions : List (PtySession vt)) → IsValid (record { sessions = sessions; table = [] })
  nothing_staged sessions = record {
    keys = unfold IsDistinct in tt;
    size = omega arith;
    named = λ name i e. absurd (unfold lookup in cc);
  }

  pub adopt_many-IsValid :
      (incoming : List Received) (m : Manager vt)
      → IsValid m.shelf
      → IsValid (adopt_many incoming m).0.shelf
  unfolding adopt_many
  adopt_many-IsValid incoming m v =
      elim (Outcome-cases (stage incoming (record { sessions = m.sessions; table = [] }))) [
        | inr (f, e) ↦ rw (e, adopt_many) v
        | inl (staged, e) ↦
            rw (e, adopt_many)
              (admit_staged-IsValid staged m
                (stage-Kept incoming _ staged e (nothing_staged m.sessions)) v)
      ]
