-- ===== src/Session/Detector.antt =====
-- crates/muxd/src/manager.rs: what a session learns of the agent in its foreground. The kernel's
-- answer to `process_args` is an argument; `none` as the result is a panic of the engine.
pub mod Refresh
mod Examples
use mux.Prelude.{
  ℕ, ◌-◌, Bool, true, false, not, List, [], ◌∷◌, Option, none, some, String, map, if◌then◌else◌,
  length, drop, map_or, and_then, ◌==◌, ◌≡◌,
}
use mathlib.Core.Logic.{ite}
use mux.Text.{Text, codes, strip_prefix, is_empty}
use mux.Text.Strings.{to_string, join_lines}
use mux.Terminal.{Ghostty, Terminal, row_texts, title}
use mux.Peer.{AgentInfo, PtyEvent, label_discrete}
use mux.Agents.Gate.{Matcher}
use mux.Agents.Manifest.{AgentManifest, AgentState, idle}
use mux.Agents.Region.Names.{DetectionInput}
use mux.Agents.Detect.{Detection}
use mux.Agents.Load.{detect}
use mux.Agents.Names.{basename, from_command, state_label, topic}
use mux.Agents.Names.Table.{Agent, label}
use mux.Session.{PtySession, Kernel, emit}

abbrev pub agent_tail_rows : ℕ
agent_tail_rows = 24

-- What the rules of the agent read.
unfoldable pub detection_input : {vt : Ghostty} → Terminal vt → DetectionInput
unfolding row_texts join_lines
detection_input {vt} term =
    let rows = row_texts vt term in
    let tail = length rows - agent_tail_rows in
    record {
      screen = join_lines (map codes (drop tail rows));
      osc_title = map_or [] codes (title vt term);
      osc_progress = [];
    }

-- A viewer over the live screen keeps the state it covers.
unfoldable pub state_text : Option AgentInfo → Option AgentState → String
unfolding state_label to_string
state_text previous (some state) = to_string (state_label state)
state_text none none = to_string (state_label idle)
state_text (some info) none = info.state

module _ (m : Matcher) where
  -- Without a coding agent, the name of what was run, less a login shell's dash.
  unfoldable pub foreground_label : List Text → Option Text
  unfolding from_command label basename strip_prefix
  foreground_label [] = none
  foreground_label (executable ∷ args) = elim (from_command m (executable ∷ args)) [
    | some agent ↦ some (label agent)
    | none ↦
        let name = basename executable in
        let name = map_or name (λ rest. rest) (strip_prefix (codes "-") name) in
        if is_empty name then none else some name
  ]

  -- The foreground program's name as it is kept.
  unfoldable pub foreground_name : Option (List Text) → Option String
  unfolding foreground_label to_string
  foreground_name argv = map_or none (λ n. some (to_string n)) (and_then argv foreground_label)

  unfoldable pub agent_info :
      (Agent → Option AgentManifest) → DetectionInput → Option AgentInfo → Agent → Option AgentInfo
  unfolding detect state_text label topic to_string
  agent_info bundled input previous agent = and_then (detect m bundled agent input) λ detection.
      some (record {
        agent = to_string (label agent);
        state = state_text previous detection.state;
        topic = to_string (topic input.osc_title);
      })

  -- The `next` of `refresh_agent`: no agent is no information.
  unfoldable pub next_agent :
      {vt : Ghostty}
      → (Agent → Option AgentManifest)
      → Option (List Text)
      → PtySession vt
      → Option (Option AgentInfo)
  unfolding from_command agent_info detection_input
  next_agent bundled argv s = elim (and_then argv (from_command m)) [
    | none ↦ some none
    | some agent ↦
        and_then (agent_info bundled (detection_input s.terminal) s.agent agent)
          λ info. some (some info)
  ]

  unfoldable named_differently : Option String → Option String → Bool
  unfolding label_discrete
  named_differently old new = ite (label_discrete old new) false true

  -- The session, and the foreground program's name when it differs from the last one.
  unfoldable pub refresh_agent :
      {vt : Ghostty}
      → (Agent → Option AgentManifest)
      → Option (List Text)
      → PtySession vt
      → Option (PtySession vt × Option String)
  unfolding next_agent foreground_name named_differently
  refresh_agent bundled argv s = and_then (next_agent bundled argv s) λ next.
      let s = record s { agent = next } in
      let name = foreground_name argv in
      some (
        if named_differently s.foreground name
        then (record s { foreground = name }, name)
        else (s, none))
