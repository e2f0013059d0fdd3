-- ===== src/Session.antt =====
-- crates/muxd/src/manager.rs and control.rs: one pty, its state and what a single call does to it.
-- Locks are not modelled: each function is what runs under one. What the kernel answers at the
-- time of a call is the argument `Kernel`; a client's channel goes by the client's id, and what is
-- sent to it is part of the result.
pub mod Detector
pub mod Input
pub mod Shell
mod Examples
use mux.Prelude.{
  ℕ, ◌+◌, ◌%◌, ◌^◌, Bool, true, false, not, ◌||◌, ◌&&◌, List, Option, none, some, String,
  if◌then◌else◌, ltb, ◌==◌, length, keep_if, or_else, map_or, is_some,
}
use mux.Prelude.Int.{ℤ, is_positive}
use mathlib.Core.Logic.{ite}
use mux.Peer.{AgentInfo, PtyEvent, PtyInfo, PtyInput, PtySnapshot, event_discrete, int_discrete}
use mux.Terminal.{Ghostty, Terminal, feed, resize, row_texts, cursor_position, render_screen_bytes}

abbrev pub max_input_bytes : ℕ
max_input_bytes = 8192

pub data ClientMsg : Type 0 where
  output : List ℕ → ClientMsg
  exit : ℤ → ClientMsg
  foreground : String → ClientMsg

pub record AttachedClient : Type 0 where
  pub id : ℕ
  pub connection : Option ℕ

-- `tcgetpgrp` on the pty's master, and what the kernel knows of a process.
pub record Kernel : Type 0 where
  pub foreground_pgid : Option ℤ
  pub process_cwd : ℤ → Option String

-- `AtomicU64::fetch_add(1)`
abbrev pub next_u64 : ℕ → ℕ
next_u64 n = (n + 1) % 2 ^ 64

pub record PtySession (vt : Ghostty) : Type 0 where
  pub generation : ℕ
  pub revision : ℕ
  pub input_revision : ℕ
  pub changes : ℕ
  pub name : String
  pub command : List String
  pub terminal : Terminal vt
  pub client : Option AttachedClient
  pub child : ℤ
  pub adopted : Bool
  pub exited : Bool
  pub close_deadline : Option ℕ
  pub agent : Option AgentInfo
  pub foreground : Option String
  pub agent_pending : Bool
  pub last_event : Option PtyEvent

-- Why `checked_input` wrote nothing, or not all.
pub data InputError : Type 0 where
  bad_length no_foreground stale partial_write : InputError

pub data InputResult : Type 0 where
  written : ℕ → InputResult
  failed : InputError → InputResult

module _ {vt : Ghostty} where
  -- `changes` counts what `send_replace` told the observers.
  unfoldable pub notify_observers : PtySession vt → PtySession vt
  notify_observers s = record s { changes = s.changes + 1 }

  unfoldable pub changed : PtySession vt → PtySession vt
  unfolding notify_observers
  changed s = notify_observers (record s { revision = next_u64 s.revision })

  unfoldable pub advance_input : PtySession vt → PtySession vt × ℕ
  unfolding notify_observers
  advance_input s =
      let revision = next_u64 s.input_revision in
      (notify_observers (record s { input_revision = revision }), revision)

  unfoldable pub current_cwd : Kernel → PtySession vt → Option String
  current_cwd k s =
      or_else (k.process_cwd (map_or s.child (λ pid. pid) k.foreground_pgid))
        (k.process_cwd s.child)

  unfoldable pub detach : ℕ → PtySession vt → PtySession vt
  detach id s = if map_or false (λ c. c.id == id) s.client then record s { client = none } else s

  unfoldable pub info : Kernel → PtySession vt → PtyInfo
  unfolding current_cwd
  info k s = record {
    name = s.name;
    command = s.command;
    attached = is_some s.client;
    exited = s.exited;
    cwd = current_cwd k s;
    agent = s.agent;
  }

  unfoldable pub event : Kernel → PtySession vt → PtyEvent
  unfolding current_cwd
  event k s = record { name = s.name; agent = s.agent; cwd = current_cwd k s; exited = s.exited }

  -- The event that is broadcast, when it is not the last one again.
  unfoldable pub emit : Kernel → PtySession vt → PtySession vt × Option PtyEvent
  unfolding event notify_observers
  emit k s =
      let e = event k s in
      ite (event_discrete s.last_event (some e)) (s, none)
        (notify_observers (record s { last_event = some e }), some e)

  unfoldable pub snapshot : Kernel → PtySession vt → PtySnapshot
  unfolding current_cwd
  snapshot k s =
      let c = cursor_position vt s.terminal in
      record {
        name = s.name;
        generation = s.generation;
        revision = s.revision;
        input_revision = s.input_revision;
        pid = s.child;
        foreground_pgid = keep_if is_positive k.foreground_pgid;
        cols = s.terminal.cols;
        rows = s.terminal.rows;
        cursor_row = c.row;
        cursor_col = c.col;
        text = row_texts vt s.terminal;
        cwd = current_cwd k s;
        agent = s.agent;
        exited = s.exited;
      }

  -- What is handed to the pty comes back beside the state.
  unfoldable pub write_input : List ℕ → PtySession vt → PtySession vt × List ℕ
  unfolding advance_input
  write_input bytes s = ((advance_input s).0, bytes)

  -- `foreground <= 0 || ...`: the terminal is not the one that was inspected.
  unfoldable pub moved_on : ℤ → PtyInput → PtySession vt → Bool
  moved_on pgid input s =
      not (is_positive pgid)
      || (not (s.generation == input.generation)
          || (s.exited
              || (not (s.revision == input.revision)
                  || (not (s.input_revision == input.input_revision)
                      || ite (int_discrete pgid input.foreground_pgid) false true))))

  submit : Bool → PtyInput → PtySession vt → PtySession vt × (InputResult × Option (List ℕ))
  unfolding advance_input
  submit complete input s =
      let (s', revision) = advance_input s in
      (s', (if complete then written revision else failed partial_write, some input.bytes))

  -- `complete`: the write to the pty came to its end. The bytes that it was given are the last part
  -- of the result, when there was a write.
  unfoldable pub checked_input :
      Kernel → Bool → PtyInput → PtySession vt → PtySession vt × (InputResult × Option (List ℕ))
  unfolding submit
  checked_input k complete input s =
      if length input.bytes == 0 || ltb max_input_bytes (length input.bytes)
      then (s, (failed bad_length, none))
      else elim k.foreground_pgid [
        | none ↦ (s, (failed no_foreground, none))
        | some pgid ↦
            if moved_on pgid input s then (s, (failed stale, none)) else submit complete input s
      ]

  -- One round of `read_loop` under the terminal lock: the chunk is fed, and the client that gets
  -- it is resolved.
  unfoldable pub feed_chunk : List ℕ → PtySession vt → PtySession vt × Option ℕ
  unfolding changed
  feed_chunk chunk s =
      let s' = changed (record s { terminal = feed vt s.terminal chunk }) in
      (s', map_or none (λ c. some c.id) s'.client)

  -- `attach_on` for a new client id: the session, the dump, and what the new channel starts with.
  unfoldable pub attach_on :
      ℕ → ℕ → ℕ → Option ℕ → PtySession vt → PtySession vt × (List ℕ × Option ClientMsg)
  unfolding changed
  attach_on id cols rows connection s =
      let sized = changed (record s { terminal = resize vt s.terminal rows cols }) in
      (
        record sized { client = some (record { id = id; connection = connection }) },
        (
          render_screen_bytes vt sized.terminal,
          map_or none (λ name. some (foreground name)) sized.foreground,
        ),
      )

  -- `resize` of server.rs under the terminal lock: the dump that is sent again while no live output
  -- has reached the client.
  unfoldable pub resize_session : ℕ → ℕ → Bool → PtySession vt → PtySession vt × Option (List ℕ)
  unfolding changed
  resize_session cols rows live_output s =
      let s' = changed (record s { terminal = resize vt s.terminal rows cols }) in
      (s', if live_output then none else some (render_screen_bytes vt s'.terminal))

  -- The part of `kill_session` behind the signals.
  unfoldable pub mark_killed : Kernel → PtySession vt → PtySession vt × Option PtyEvent
  unfolding emit
  mark_killed k s = emit k (record s { client = none; exited = true; agent = none })

  -- `reap` up to the send: the exit is recorded and the client is taken out of its slot.
  unfoldable pub mark_exited : PtySession vt → PtySession vt × Option ℕ
  unfolding changed
  mark_exited s =
      let s' = changed (record s { exited = true; agent = none }) in
      (record s' { client = none }, map_or none (λ c. some c.id) s'.client)
