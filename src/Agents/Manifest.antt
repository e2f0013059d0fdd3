-- ===== src/Agents/Manifest.antt =====
-- crates/agents/src/engine.rs: a manifest as it is read, its check and compilation into rules.
pub mod Limits
use mux.Prelude.{
  ℕ, ◌+◌, Bool, true, false, not, ◌&&◌, ◌||◌, List, [], ◌∷◌, Option, none, some, if◌then◌else◌, ltb,
  leb, length, map_or,
}
use mux.Prelude.Int.{ℤ}
use mux.Prelude.Results.{Result, ok, err, ◌>>=◌, ◌>>◌, guard, map_err}
use mux.Text.{Text, codes, trim, starts_with, is_empty}
use mux.Agents.Gate.{
  Matcher, ManifestGates, ManifestGate, gate, GateError, ManifestComplexity, CompiledGate,
  compile_gate,
}
use mux.Agents.Region.Names.{validate_region_name}

pub data AgentState : Type 0 where
  idle working blocked : AgentState

pub data ManifestState : Type 0 where
  idle working blocked unknown : ManifestState

-- `unknown` carries no state: its rule keeps the last one.
unfoldable pub carried : ManifestState → Option AgentState
carried idle = some idle
carried working = some working
carried blocked = some blocked
carried unknown = none

pub record ManifestRule : Type 0 where
  pub id : Text
  pub state : Option ManifestState
  pub priority : ℤ
  pub region : Text
  pub visible_idle : Bool
  pub visible_blocker : Bool
  pub visible_working : Bool
  pub skip_state_update : Bool
  pub all : ManifestGates
  pub any : ManifestGates
  pub not_gate : ManifestGates
  pub contains : List Text
  pub regex : List Text
  pub line_regex : List Text

pub record AgentManifest : Type 0 where
  pub id : Text
  pub min_engine_version : Option ℕ
  pub aliases : List Text
  pub rules : List ManifestRule

-- Why a manifest is refused.
pub data ManifestError : Type 0 where
  engine_too_old no_rule too_many_rules empty_id skip_without_unknown skip_with_evidence
        top_lines_too_old :
      ManifestError
  bad_region : Text → ManifestError
  bad_gate : GateError → ManifestError

abbrev pub manifest_engine_version : ℕ
manifest_engine_version = 3

abbrev pub max_rules_per_manifest : ℕ
max_rules_per_manifest = 128

abbrev pub top_non_empty_lines_engine_version : ℕ
top_non_empty_lines_engine_version = 3

-- `ManifestComplexity::default()`
abbrev pub no_complexity : ManifestComplexity
no_complexity = record { total_gates = 0; total_matchers = 0 }

abbrev is_unknown : Option ManifestState → Bool
is_unknown (some unknown) = true
is_unknown _ = false

-- The checks on one rule before its gate.
unfoldable pub check_rule : Option ℕ → ManifestRule → Result ManifestError (Unit {0})
unfolding trim starts_with validate_region_name
check_rule min_engine_version rule = do
  guard (not (is_empty (trim rule.id))) empty_id
  guard (not rule.skip_state_update || is_unknown rule.state) skip_without_unknown
  guard
      (not (
        rule.skip_state_update
        && (rule.visible_idle || rule.visible_blocker || rule.visible_working)))
      skip_with_evidence
  map_err bad_region (validate_region_name rule.region)
  guard
      (not (
        starts_with (codes "top_non_empty_lines(") (trim rule.region)
        && map_or false (λ version. ltb version top_non_empty_lines_engine_version)
            min_engine_version))
      top_lines_too_old

abbrev pub root_gate : ManifestRule → ManifestGate
root_gate rule = gate rule.all rule.any rule.not_gate rule.contains rule.regex rule.line_regex

module _ (m : Matcher) where
  pub record Rule : Type 0 where
    pub id : Text
    pub state : Option AgentState
    pub priority : ℤ
    pub region : Text
    pub gate : CompiledGate m

  -- A rule without a state is an idle one.
  unfoldable pub rule_of : ManifestRule → CompiledGate m → Rule
  unfolding carried
  rule_of rule g = record {
    id = rule.id;
    state = map_or (some idle) carried rule.state;
    priority = rule.priority;
    region = rule.region;
    gate = g;
  }

  unfoldable pub compile_rules :
      Option ℕ
      → List ManifestRule
      → ManifestComplexity
      → Result ManifestError (List Rule × ManifestComplexity)
  unfolding check_rule compile_gate rule_of
  compile_rules version [] complexity = ok ([], complexity)
  compile_rules version (rule ∷ rules) complexity = do
    check_rule version rule
    (g, counted) ← map_err bad_gate (compile_gate m (root_gate rule) false 0 complexity)
    (rest, total) ← compile_rules version rules counted
    ok (rule_of rule g ∷ rest, total)

  unfoldable pub compile_manifest : AgentManifest → Result ManifestError (List Rule)
  unfolding compile_rules
  compile_manifest manifest = do
    guard
        (map_or true (λ required. leb required manifest_engine_version) manifest.min_engine_version)
        engine_too_old
    guard (not (is_empty manifest.rules)) no_rule
    guard (leb (length manifest.rules) max_rules_per_manifest) too_many_rules
    (rules, total) ← compile_rules manifest.min_engine_version manifest.rules no_complexity
    ok rules
