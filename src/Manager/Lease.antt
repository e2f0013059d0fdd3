-- ===== src/Manager/Lease.antt =====
-- manager.rs: the end of a pty, by a kill, by a lease that runs out, or by its own exit.
pub mod Kill
pub mod Stale
pub mod Reap
use mux.Prelude.{
  ℕ, zero, suc, ◌+◌, ◌-◌, ◌*◌, ◌^◌, Bool, true, false, not, ◌||◌, ◌&&◌, List, [], ◌∷◌, ◌++◌, Option,
  none, some, String, if◌then◌else◌, ltb, leb, ◌==◌, length, get_elem?, set, any, keep_if, and_then,
  map_or, is_some, min, Table, lookup, insert, remove,
}
use mux.Prelude.Int.{ℤ}
use mux.Peer.{PtyEvent}
use mux.Terminal.{Ghostty, Terminal, new, feed}
use mux.Session.{PtySession, Kernel, mark_killed, mark_exited, emit}
use mux.Manager.{
  max_ptys, retention, saturating_add, Failure, already_exists, limit_reached, closed, missing,
  expired, alloc_failed, io_failed, Outcome, done, fails, ◌>>=◌, Task, read_loop, close_at,
  Received, Shelf, Manager, find, put, spawn_task, broadcast, insert_locked, schedule_agent,
  schedule_close,
}

module _ {vt : Ghostty} where
  unfoldable pub kill_session : Kernel → ℕ → PtySession vt → Manager vt → Manager vt
  kill_session k i s m =
      let (s', e) = mark_killed k s in
      broadcast e (put i s' (record m { terminated = m.terminated ++ s.child ∷ [] }))

  abbrev pub forget : String → Manager vt → Manager vt
  forget name m = record m { shelf = record m.shelf { table = remove name m.table } }

  unfoldable pub kill : Kernel → String → Manager vt → Manager vt × Bool
  unfolding kill_session
  kill k name m = elim (find name m.shelf) [
    | none ↦ (m, false)
    | some (i, s) ↦ (kill_session k i s (forget name m), true)
  ]

  unfoldable pub close_for : String → ℕ → ℕ → Manager vt → Manager vt × Outcome ℕ
  unfolding schedule_close
  close_for name kept now m = elim (find name m.shelf) [
    | none ↦ (m, fails missing)
    | some (i, s) ↦
        let expires = map_or (saturating_add now kept) (λ d. d) s.close_deadline in
        let s' = record s { close_deadline = some expires } in
        (schedule_close s' expires (put i s' m), done expires)
  ]

  unfoldable pub close : String → ℕ → Manager vt → Manager vt × Outcome ℕ
  unfolding close_for
  close name now m = close_for name retention now m

  -- The session is still the one that the task was made for, and its lease is still that one.
  unfoldable pub still_due : ℕ → ℕ → PtySession vt → Bool
  still_due generation deadline s =
      s.generation == generation && map_or false (λ d. d == deadline) s.close_deadline

  -- The body of the task that `schedule_close` spawns, once its sleep is over.
  unfoldable pub expire : Kernel → String → ℕ → ℕ → Manager vt → Manager vt
  unfolding kill_session
  expire k name generation deadline m = elim (find name m.shelf) [
    | none ↦ m
    | some (i, s) ↦
        if still_due generation deadline s then kill_session k i s (forget name m) else m
  ]

  unfoldable pub reopen : String → ℕ → Manager vt → Manager vt × Outcome (ℕ × Bool)
  reopen name now m = elim (find name m.shelf) [
    | none ↦ (m, fails missing)
    | some (i, s) ↦
        if map_or false (λ expires. leb expires now) s.close_deadline
        then (m, fails expired)
        else (put i (record s { close_deadline = none }) m, done (i, false))
  ]

  unfoldable pub remove_if_same : ℕ → PtySession vt → Manager vt → Manager vt
  remove_if_same i s m =
      if map_or false (λ current. current == i) (lookup s.name m.table) then forget s.name m else m

  -- `reap` of a session that `read_loop` is done with, behind the wait for its child; the client
  -- that is told of the exit is the second part of the result.
  unfoldable pub reap : Kernel → ℕ → Manager vt → Manager vt × Option ℕ
  unfolding remove_if_same
  reap k i m = elim (get_elem? m.sessions i) [
    | none ↦ (m, none)
    | some s ↦
        let (s1, client) = mark_exited s in
        let (s2, e) = emit k s1 in (broadcast e (put i s2 (remove_if_same i s1 m)), client)
  ]
