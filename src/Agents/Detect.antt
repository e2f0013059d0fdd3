-- ===== src/Agents/Detect.antt =====
-- crates/agents/src/engine.rs: the rules of an agent over what its terminal shows. The result is
-- `none` where the code panics on a slice.
pub mod Best
pub mod Choice
use mux.Prelude.{
  Bool, true, false, ◌&&◌, List, [], ◌∷◌, Option, none, some, if◌then◌else◌, map_or, and_then,
}
use mux.Prelude.Int.{less}
use mux.Text.{Text}
use mux.Agents.Gate.{Matcher, compiled_rule_matches}
use mux.Agents.Manifest.{AgentState, idle, Rule}
use mux.Agents.Region.Names.{DetectionInput, region}

pub record Detection : Type 0 where
  pub state : Option AgentState
  pub rule : Option Text

module _ (m : Matcher) where
  -- `best.is_none_or(..)`
  unfoldable pub outranks : Option (Rule m) → Rule m → Bool
  unfolding less
  outranks best rule = map_or true (λ previous. less previous.priority rule.priority) best

  -- A region is cut out only for a rule that outranks the best one so far.
  unfoldable pub consider : DetectionInput → Option (Rule m) → Rule m → Option (Option (Rule m))
  unfolding outranks region compiled_rule_matches
  consider input best rule =
      if outranks best rule
      then (and_then (region input rule.region)
          λ text. some (if compiled_rule_matches m rule.gate text then some rule else best))
      else some best

  unfoldable pub best_rule :
      DetectionInput → Option (Rule m) → List (Rule m) → Option (Option (Rule m))
  unfolding consider
  best_rule input best [] = some best
  best_rule input best (rule ∷ rules) =
      and_then (consider input best rule) λ best. best_rule input best rules

  abbrev pub detection_of : Option (Rule m) → Detection
  detection_of best = record {
    state = map_or (some idle) (λ rule. rule.state) best;
    rule = map_or none (λ rule. some rule.id) best;
  }

  unfoldable pub evaluate : List (Rule m) → DetectionInput → Option Detection
  unfolding best_rule
  evaluate rules input = and_then (best_rule input none rules) λ best. some (detection_of best)
