-- ===== src/Agents/Names.antt =====
-- crates/agents/src/lib.rs: which agent a process is, by its name, and what its title says.
pub mod Table
pub mod Paths
use mux.Prelude.{
  ℕ, Bool, true, false, ◌&&◌, ◌||◌, List, [], ◌∷◌, Option, none, some, if◌then◌else◌, leb, ◌==◌,
  any, and_then, or_else, get_elem?, map_or,
}
use mux.Text.{Text, codes, same, trim, starts_with, strip_prefix, strip_suffix}
use mux.Agents.Gate.{Matcher}
use mux.Agents.Manifest.{AgentState, idle, working, blocked}
use mux.Agents.Names.Table.{Agent, names, all_agents}

abbrev pub slash : ℕ
slash = 47

abbrev pub is_slash : ℕ → Bool
is_slash c = c == slash

-- `rsplit('/').next()`: what follows the last slash.
unfoldable pub basename : Text → Text
basename [] = []
basename (c ∷ s) = let rest = basename s in if is_slash c || any is_slash s then rest else c ∷ s

abbrev pub script_suffixes : List Text
script_suffixes = codes ".exe" ∷ codes ".cmd" ∷ codes ".bat" ∷ codes ".ps1" ∷ codes ".js" ∷ []

-- `find_map(|suffix| name.strip_suffix(suffix)).unwrap_or(name)`
unfoldable pub strip_any : List Text → Text → Text
unfolding strip_suffix
strip_any [] name = name
strip_any (suffix ∷ suffixes) name = elim (strip_suffix suffix name) [
  | some stem ↦ stem
  | none ↦ strip_any suffixes name
]

-- The first agent that goes by the name.
unfoldable pub named : Text → List Agent → Option Agent
unfolding same names
named name [] = none
named name (a ∷ agents) =
    let rest = named name agents in if any (same name) (names a) then some a else rest

abbrev pub launchers : List Text
launchers = codes "node" ∷ codes "nodejs" ∷ codes "bun" ∷ []

module _ (m : Matcher) where
  unfoldable pub parse_agent_label : Text → Option Agent
  unfolding trim strip_any named all_agents
  parse_agent_label name = named (strip_any script_suffixes (m.to_lowercase (trim name))) all_agents

  unfoldable pub from_process_name : Text → Option Agent
  unfolding basename parse_agent_label
  from_process_name name = parse_agent_label (basename name)

  -- The second argument, where the first one is a launcher.
  unfoldable pub from_script : Text → List Text → Option Agent
  unfolding from_process_name basename same
  from_script executable argv =
      if any (same (basename executable)) launchers
      then and_then (get_elem? argv 1) from_process_name
      else none

  unfoldable pub from_command : List Text → Option Agent
  unfolding from_process_name from_script
  from_command [] = none
  from_command (executable ∷ args) =
      or_else (from_process_name executable) (from_script executable (executable ∷ args))

unfoldable pub state_label : AgentState → Text
state_label idle = codes "idle"
state_label working = codes "working"
state_label blocked = codes "blocked"

-- `split_once(separator)`: what follows the first separator.
unfoldable pub after_first : Text → Text → Option Text
unfolding strip_prefix
after_first separator [] = strip_prefix separator []
after_first separator (c ∷ s) =
    let rest = after_first separator s in
    elim (strip_prefix separator (c ∷ s)) [ none ↦ rest | some tail ↦ some tail ]

-- A spinner of one of the agents, or the mark of claude.
abbrev pub is_marker : ℕ → Bool
is_marker glyph =
    (leb 0x2800 glyph && leb glyph 0x28ff)
    || (leb 0x25d0 glyph && leb glyph 0x25d3)
    || (glyph == 0x2733)

unfoldable pub topic_after_marker : Text → Text
unfolding trim
topic_after_marker [] = []
topic_after_marker (glyph ∷ []) = glyph ∷ []
topic_after_marker (glyph ∷ c ∷ s) = if is_marker glyph && (c == 32) then trim s else glyph ∷ c ∷ s

unfoldable pub topic : Text → Text
unfolding trim starts_with after_first topic_after_marker
topic title =
    let title = trim title in
    if starts_with (codes "[ ! ] Action Required") title
      || starts_with (codes "[ . ] Action Required") title
    then trim (map_or [] (λ rest. rest) (after_first (codes " | ") title))
    else topic_after_marker title
