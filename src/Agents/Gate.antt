-- ===== src/Agents/Gate.antt =====
-- crates/agents/src/engine.rs: the gates of a rule, their compilation and what they match. The
-- crate `regex` and the tables behind `str::to_lowercase` are the parameter `Matcher`.
pub mod Counting
pub mod Limits
pub mod Measures
use mux.Prelude.{
  ℕ, ◌+◌, Bool, true, false, not, ◌&&◌, ◌||◌, List, [], ◌∷◌, ◌++◌, map, if◌then◌else◌, ltb, leb,
  length, all, any,
}
use mux.Prelude.Results.{Result, ok, err, ◌>>=◌, ◌>>◌, guard}
use mux.Text.{Text, contains, lines, is_empty}

pub record Matcher : Type 1 where
  pub Regex : Type 0
  pub new_regex : Text → Result Text Regex
  pub is_match : Regex → Text → Bool
  pub to_lowercase : Text → Text

mutual
  pub data ManifestGate : Type 0 where
    gate : (all any not_gate : ManifestGates) (contains regex line_regex : List Text) → ManifestGate

  pub data ManifestGates : Type 0 where
    end : ManifestGates
    next : ManifestGate → ManifestGates → ManifestGates

abbrev pub has_gates : ManifestGates → Bool
has_gates end = false
has_gates (next g gs) = true

abbrev pub has_any : List Text → Bool
has_any ts = not (is_empty ts)

-- Why a gate is refused.
pub data GateError : Type 0 where
  max_depth max_gate_count max_direct_matchers max_matcher_count max_length no_positive_matcher :
      GateError
  bad_regex : Text → GateError

pub record ManifestComplexity : Type 0 where
  pub total_gates : ℕ
  pub total_matchers : ℕ

abbrev pub max_gate_depth : ℕ
max_gate_depth = 8

abbrev pub max_total_gates : ℕ
max_total_gates = 512

abbrev pub max_matchers_per_gate : ℕ
max_matchers_per_gate = 32

abbrev pub max_total_matchers : ℕ
max_total_matchers = 1024

abbrev pub max_matcher_chars : ℕ
max_matcher_chars = 512

abbrev pub fits : Text → Bool
fits value = leb (length value) max_matcher_chars

unfoldable pub direct_matchers : ManifestGate → ℕ
direct_matchers (gate all any not_gate contains regex line_regex) =
    length contains + length regex + length line_regex

abbrev pub matchers : ManifestGate → List Text
matchers (gate all any not_gate contains regex line_regex) = contains ++ regex ++ line_regex

unfoldable pub validate_matcher_limits :
    ManifestGate → ManifestComplexity → Result GateError ManifestComplexity
unfolding direct_matchers
validate_matcher_limits g complexity = do
  let matcher_count = direct_matchers g
  guard (leb matcher_count max_matchers_per_gate) max_direct_matchers
  let total_matchers = complexity.total_matchers + matcher_count
  guard (leb total_matchers max_total_matchers) max_matcher_count
  guard (all fits (matchers g)) max_length
  ok (record complexity { total_matchers = total_matchers })

unfoldable pub gate_has_positive_matcher : ManifestGate → Bool
gate_has_positive_matcher (gate all any not_gate contains regex line_regex) =
    has_any contains || has_any regex || has_any line_regex || has_gates all || has_gates any

abbrev pub has_not : ManifestGate → Bool
has_not (gate all any not_gate contains regex line_regex) = has_gates not_gate

-- The checks that `compile_gate` makes before it goes into the gate.
unfoldable pub admit_gate :
    ManifestGate → Bool → ℕ → ManifestComplexity → Result GateError ManifestComplexity
unfolding validate_matcher_limits gate_has_positive_matcher
admit_gate g negated depth complexity = do
  guard (leb depth max_gate_depth) max_depth
  let total_gates = complexity.total_gates + 1
  guard (leb total_gates max_total_gates) max_gate_count
  counted ← validate_matcher_limits g (record complexity { total_gates = total_gates })
  guard (gate_has_positive_matcher g || negated && has_not g) no_positive_matcher
  ok counted

module _ (m : Matcher) where
  open m use {Regex, new_regex, is_match, to_lowercase}

  mutual
    pub data CompiledGate : Type 0 where
      compiled :
          (all any not_gate : CompiledGates) (contains : List Text) (regex line_regex : List Regex)
          → CompiledGate

    pub data CompiledGates : Type 0 where
      nil : CompiledGates
      cons : CompiledGate → CompiledGates → CompiledGates

  unfoldable pub compile_regexes : List Text → Result GateError (List Regex)
  compile_regexes [] = ok []
  compile_regexes (pattern_text ∷ rest) = elim (new_regex pattern_text) [
    | err e ↦ err (bad_regex e)
    | ok r ↦ compile_regexes rest >>= λ rs. ok (r ∷ rs)
  ]

  -- The three loops over the nested gates thread the count of the whole manifest.
  unfoldable mutual
    unfolding admit_gate compile_regexes

    pub compile_gate :
        ManifestGate
        → Bool
        → ℕ
        → ManifestComplexity
        → Result GateError (CompiledGate × ManifestComplexity)
    compile_gate (gate all any not_gate contains regex line_regex) negated depth complexity = do
      c0 ← admit_gate (gate all any not_gate contains regex line_regex) negated depth complexity
      (all_gates, c1) ← compile_gates all false (depth + 1) c0
      (any_gates, c2) ← compile_gates any false (depth + 1) c1
      (not_gates, c3) ← compile_gates not_gate true (depth + 1) c2
      regexes ← compile_regexes regex
      line_regexes ← compile_regexes line_regex
      ok (
        compiled all_gates any_gates not_gates (map to_lowercase contains) regexes line_regexes,
        c3,
      )

    pub compile_gates :
        ManifestGates
        → Bool
        → ℕ
        → ManifestComplexity
        → Result GateError (CompiledGates × ManifestComplexity)
    compile_gates end negated depth complexity = ok (nil, complexity)
    compile_gates (next g gs) negated depth complexity = do
      (first, c1) ← compile_gate g negated depth complexity
      (rest, c2) ← compile_gates gs negated depth c1
      ok (cons first rest, c2)

  abbrev matches_line : Text → Regex → Bool
  unfolding lines
  matches_line text r = any (is_match r) (lines text)

  abbrev is_none_left : CompiledGates → Bool
  is_none_left nil = true
  is_none_left (cons g gs) = false

  unfoldable mutual
    unfolding contains lines

    pub compiled_gate_matches : CompiledGate → Text → Text → Bool
    compiled_gate_matches (compiled all_gates any_gates not_gates needles regexes line_regexes) text
          lower_text =
        all (λ needle. contains needle lower_text) needles
        && all (λ r. is_match r text) regexes
        && all (matches_line text) line_regexes
        && all_match all_gates text lower_text
        && (is_none_left any_gates || any_matches any_gates text lower_text)
        && not (any_matches not_gates text lower_text)

    pub all_match : CompiledGates → Text → Text → Bool
    all_match nil text lower_text = true
    all_match (cons g gs) text lower_text =
        compiled_gate_matches g text lower_text && all_match gs text lower_text

    pub any_matches : CompiledGates → Text → Text → Bool
    any_matches nil text lower_text = false
    any_matches (cons g gs) text lower_text =
        compiled_gate_matches g text lower_text || any_matches gs text lower_text

  unfoldable pub compiled_rule_matches : CompiledGate → Text → Bool
  unfolding compiled_gate_matches
  compiled_rule_matches g text = compiled_gate_matches g text (to_lowercase text)
