-- ===== src/Manager/Adopt.antt =====
-- manager.rs: the handoff of a predecessor's ptys.
pub mod Staged
pub mod Valid
pub mod Held
pub mod Atomic
use mux.Prelude.{
  ℕ, zero, suc, ◌+◌, ◌-◌, ◌*◌, ◌^◌, Bool, true, false, not, ◌||◌, ◌&&◌, List, [], ◌∷◌, ◌++◌, Option,
  none, some, String, if◌then◌else◌, ltb, leb, ◌==◌, length, get_elem?, set, any, keep_if, and_then,
  map_or, is_some, min, Table, lookup, insert, remove,
}
use mux.Prelude.Int.{ℤ}
use mux.Peer.{PtyEvent}
use mux.Terminal.{Ghostty, Terminal, new, feed}
use mux.Session.{PtySession, Kernel, mark_killed, mark_exited, emit}
use mux.Manager.{
  max_ptys, retention, saturating_add, Failure, already_exists, limit_reached, closed, missing,
  expired, alloc_failed, io_failed, Outcome, done, fails, ◌>>=◌, Task, read_loop, close_at,
  Received, Shelf, Manager, find, put, spawn_task, broadcast, insert_locked, schedule_agent,
  schedule_close,
}

-- `HashMap::extend`
unfoldable pub extend : Table ℕ → Table ℕ → Table ℕ
extend [] table = table
extend ((name, i) ∷ staged) table = extend staged (insert name i table)

module _ {vt : Ghostty} where
  abbrev pub with_deadline : ℕ → Option ℕ → Shelf vt → Shelf vt
  with_deadline i deadline m = elim (get_elem? m.sessions i) [
    | none ↦ m
    | some s ↦ record m { sessions = set m.sessions i (record s { close_deadline = deadline }) }
  ]

  -- One pty of a handoff goes to the staged table; the first failure ends the whole.
  unfoldable pub stage_one : Received → Shelf vt → Outcome (Shelf vt)
  unfolding insert_locked
  stage_one r staged =
      if not r.nonblocking then fails io_failed else elim (new vt r.pty.rows r.pty.cols) [
        | none ↦ fails alloc_failed
        | some terminal ↦ if not r.registered then fails io_failed else do
          (i, shelf) ←
              insert_locked r.generation r.pty.name r.pty.command (feed vt terminal r.pty.screen)
                r.pty.child_pid true staged
          done (with_deadline i r.pty.close_deadline shelf)
      ]

  unfoldable pub stage : List Received → Shelf vt → Outcome (Shelf vt)
  stage [] staged = done staged
  stage (r ∷ rs) staged = do next ← stage_one r staged; stage rs next

  unfoldable pub start_adopted_one : ℕ → Manager vt → Manager vt
  unfolding schedule_agent schedule_close
  start_adopted_one i m =
      let m' = schedule_agent i (spawn_task (read_loop i) m) in
      elim (get_elem? m'.sessions i) [
        | none ↦ m'
        | some s ↦ map_or m' (λ deadline. schedule_close s deadline m') s.close_deadline
      ]

  unfoldable pub start_adopted : Table ℕ → Manager vt → Manager vt
  start_adopted [] m = m
  start_adopted ((name, i) ∷ staged) m = start_adopted staged (start_adopted_one i m)

  unfoldable pub admit_staged : Shelf vt → Manager vt → Manager vt × Outcome (Unit {0})
  unfolding extend start_adopted
  admit_staged staged m =
      if ltb max_ptys (length m.table + length staged.table)
      then (m, fails limit_reached)
      else if any (λ (name, i). is_some (lookup name m.table)) staged.table
      then (m, fails already_exists)
      else (
        start_adopted staged.table (record m {
          shelf = record { sessions = staged.sessions; table = extend staged.table m.table };
        }),
        done tt,
      )

  -- The staged table is a new one; its sessions lie behind those that there are.
  unfoldable pub adopt_many : List Received → Manager vt → Manager vt × Outcome (Unit {0})
  unfolding stage admit_staged
  adopt_many incoming m = elim (stage incoming (record { sessions = m.sessions; table = [] })) [
    | fails e ↦ (m, fails e)
    | done staged ↦ admit_staged staged m
  ]
