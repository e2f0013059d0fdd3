-- ===== src/Manager.antt =====
-- crates/muxd/src/manager.rs: the table of ptys and the calls on it. A session is an `Arc` that
-- tasks hold on to, so sessions lie in a list, never leave it, and are named by their place; the
-- table maps names to places. A call is one step, also where the source gives up the table's lock
-- before the last of it (the signals and the event of a kill, the tasks of an open). What the
-- system answers (the time, a spawned child, a drawn generation) is an argument.
pub mod Valid
pub mod Lease
pub mod Adopt
pub mod Keeps
pub mod Open
pub mod Calls
pub mod Listing
pub mod Detecting
mod Examples
use mux.Prelude.{
  ℕ, zero, suc, ◌+◌, ◌-◌, ◌*◌, ◌^◌, Bool, true, false, not, ◌||◌, ◌&&◌, List, [], ◌∷◌, ◌++◌, Option,
  none, some, String, if◌then◌else◌, ltb, leb, ◌==◌, length, get_elem?, set, any, keep_if, and_then,
  map_or, is_some, min, Table, lookup, insert, remove,
}
use mux.Prelude.Int.{ℤ}
use mux.Peer.{PtyEvent}
use mux.Terminal.{Ghostty, Terminal, new, feed}
use mux.Session.{PtySession, Kernel, mark_killed, mark_exited, emit}

abbrev pub max_ptys : ℕ
max_ptys = 256

-- `Duration::from_mins(1)` in milliseconds.
abbrev pub retention : ℕ
retention = 60_000

abbrev pub saturating_add : ℕ → ℕ → ℕ
saturating_add a b = min (a + b) (2 ^ 64 - 1)

-- Why a call fails, one for each message of the source.
pub data Failure : Type 0 where
  already_exists limit_reached closed missing expired spawn_failed alloc_failed io_failed
        not_an_open :
      Failure

pub data Outcome {ℓ} (A : Type ℓ) : Type ℓ where
  done : A → Outcome A
  fails : Failure → Outcome A

infixl 5 ◌>>=◌
abbrev pub ◌>>=◌ {ℓ κ} : {A : Type ℓ} {B : Type κ} → Outcome A → (A → Outcome B) → Outcome B
done a >>= f = f a
fails e >>= f = fails e

-- What `tokio::spawn` was handed.
pub data Task : Type 0 where
  read_loop : ℕ → Task
  detect_agent : ℕ → Task
  close_at : String → ℕ → ℕ → Task

-- A pty that a predecessor hands over (migrate.rs).
pub record MigratePty : Type 0 where
  pub name : String
  pub command : List String
  pub child_pid : ℤ
  pub cols : ℕ
  pub rows : ℕ
  pub screen : List ℕ
  pub close_deadline : Option ℕ

-- What the system answers while a pty is adopted: its two calls on the master, and a random number.
pub record Received : Type 0 where
  pub pty : MigratePty
  pub nonblocking : Bool
  pub registered : Bool
  pub generation : ℕ

module _ (vt : Ghostty) where
  -- The sessions that were ever made, and a table of some of them.
  pub record Shelf : Type 0 where
    pub sessions : List (PtySession vt)
    pub table : Table ℕ

  pub record Manager : Type 0 where
    pub shelf : Shelf
    pub open shelf use *
    pub spawned : List ℤ
    pub terminated : List ℤ
    pub events : List PtyEvent
    pub tasks : List Task

module _ {vt : Ghostty} where
  abbrev pub empty : Manager vt
  empty = record {
    shelf = record { sessions = []; table = [] };
    spawned = [];
    terminated = [];
    events = [];
    tasks = [];
  }

  -- The session under a name, with its place.
  unfoldable pub find : String → Shelf vt → Option (ℕ × PtySession vt)
  find name m =
      and_then (lookup name m.table) (λ i. and_then (get_elem? m.sessions i) (λ s. some (i, s)))

  abbrev pub put : ℕ → PtySession vt → Manager vt → Manager vt
  put i s m = record m { shelf = record m.shelf { sessions = set m.sessions i s } }

  abbrev pub spawn_task : Task → Manager vt → Manager vt
  spawn_task t m = record m { tasks = m.tasks ++ t ∷ [] }

  abbrev pub broadcast : Option PtyEvent → Manager vt → Manager vt
  broadcast none m = m
  broadcast (some e) m = record m { events = m.events ++ e ∷ [] }

  unfoldable pub open_existing : String → Manager vt → Outcome (ℕ × Bool)
  open_existing name m = elim (keep_if (λ (i, s). not s.exited) (find name m.shelf)) [
    | some (i, s) ↦ if is_some s.close_deadline then fails closed else done (i, false)
    | none ↦ fails missing
  ]

  abbrev fresh_session : ℕ → String → List String → Terminal vt → ℤ → Bool → PtySession vt
  fresh_session generation name command terminal child adopted = record {
    generation = generation;
    revision = 0;
    input_revision = 0;
    changes = 0;
    name = name;
    command = command;
    terminal = terminal;
    client = none;
    child = child;
    adopted = adopted;
    exited = false;
    close_deadline = none;
    agent = none;
    foreground = none;
    agent_pending = false;
    last_event = none;
  }

  unfoldable pub insert_locked :
      ℕ → String → List String → Terminal vt → ℤ → Bool → Shelf vt → Outcome (ℕ × Shelf vt)
  insert_locked generation name command terminal child adopted m =
      let i = length m.sessions in
      if is_some (lookup name m.table)
      then fails already_exists
      else if leb max_ptys (length m.table)
      then fails limit_reached
      else done (
        i,
        record {
          sessions =
              m.sessions ++ fresh_session generation name command terminal child adopted ∷ [];
          table = insert name i m.table;
        },
      )

  installed : Manager vt → Outcome (ℕ × Shelf vt) → Manager vt × Outcome (ℕ × Bool)
  installed m (fails e) = (m, fails e)
  installed m (done (i, shelf)) =
      (spawn_task (read_loop i) (record m { shelf = shelf }), done (i, true))

  start_pty :
      String
      → List String
      → ℤ
      → ℕ
      → Option (Terminal vt)
      → Manager vt
      → Manager vt × Outcome (ℕ × Bool)
  unfolding installed insert_locked
  start_pty name command child generation none m = (m, fails alloc_failed)
  start_pty name command child generation (some terminal) m =
      installed m (insert_locked generation name command terminal child false m.shelf)

  -- `spawn_pty` is the child that `pty::spawn` started, if it did.
  unfoldable pub open_pty :
      String → List String → ℕ → ℕ → Option ℤ → ℕ → Manager vt → Manager vt × Outcome (ℕ × Bool)
  unfolding start_pty
  open_pty name command cols rows spawn_pty generation m = elim (find name m.shelf) [
    | some (i, s) ↦ (m, if is_some s.close_deadline then fails closed else done (i, false))
    | none ↦ if leb max_ptys (length m.table) then (m, fails limit_reached) else elim spawn_pty [
      | none ↦ (m, fails spawn_failed)
      | some child ↦
          start_pty name command child generation (new vt rows cols)
            (record m { spawned = m.spawned ++ child ∷ [] })
    ]
  ]

  -- `schedule_agent`: one evaluation is under way at most.
  unfoldable pub schedule_agent : ℕ → Manager vt → Manager vt
  schedule_agent i m = elim (get_elem? m.sessions i) [
    | none ↦ m
    | some s ↦
        if s.agent_pending
        then m
        else spawn_task (detect_agent i) (put i (record s { agent_pending = true }) m)
  ]

  -- `schedule_close`: the task remembers the session by name and generation.
  unfoldable pub schedule_close : PtySession vt → ℕ → Manager vt → Manager vt
  schedule_close s deadline m = spawn_task (close_at s.name s.generation deadline) m
