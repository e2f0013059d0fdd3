-- ===== src/Agents/Detect/Choice.antt =====
-- crates/agents/src/engine.rs: the rule that `evaluate` promises.
use mathlib.Core.Path.{subst}
use mux.Prelude.{
  ◌≡◌, refl, sym, ap, ◌∙◌, Bool, true, false, List, [], ◌∷◌, ◌++◌, Option, none, some, All,
  append_assoc, All-append, All-imp,
}
use mux.Prelude.Int.{less, less_trans, less_of_not_less}
use mux.Agents.Gate.{Matcher, compiled_rule_matches}
use mux.Agents.Manifest.{Rule}
use mux.Agents.Region.Names.{DetectionInput, region}

module _ (m : Matcher) (input : DetectionInput) where
  -- What a rule says of the terminal, on its own.
  unfoldable pub rule_matches : Rule m → Bool
  unfolding region compiled_rule_matches
  rule_matches rule = elim (region input rule.region) [
    | none ↦ false
    | some text ↦ compiled_rule_matches m rule.gate text
  ]

  abbrev pub IsBelow : Rule m → Rule m → Type 0
  IsBelow best rule = rule_matches rule ≡ true → less rule.priority best.priority ≡ true

  abbrev pub IsNotAbove : Rule m → Rule m → Type 0
  IsNotAbove best rule = rule_matches rule ≡ true → less best.priority rule.priority ≡ false

  -- A rule that matches, with those before it of a lower priority and those after it of no higher
  -- one, as far as they match.
  pub record IsFirstBest (rules : List (Rule m)) (best : Rule m) : Type 0 where
    pub before : List (Rule m)
    pub after : List (Rule m)
    pub parts : rules ≡ before ++ best ∷ after
    pub matching : rule_matches best ≡ true
    pub earlier : All (IsBelow best) before
    pub later : All (IsNotAbove best) after

  -- What the choice among the rules promises.
  abbrev pub IsChoice : List (Rule m) → Option (Rule m) → Type 0
  IsChoice rules none = All (λ rule. rule_matches rule ≡ false) rules
  IsChoice rules (some best) = IsFirstBest rules best

  snoc-append :
      (before after : List (Rule m)) (best rule : Rule m)
      → (before ++ best ∷ after) ++ rule ∷ [] ≡ before ++ best ∷ (after ++ rule ∷ [])
  snoc-append before after best rule = append_assoc before (best ∷ after) (rule ∷ [])

  -- A rule that is not above the best one is put after it.
  pub pass :
      (seen : List (Rule m)) (best rule : Rule m)
      → IsFirstBest seen best
      → IsNotAbove best rule
      → IsFirstBest (seen ++ rule ∷ []) best
  pass seen best rule c low = record {
    before = c.before;
    after = c.after ++ rule ∷ [];
    parts = ap (λ rs. rs ++ rule ∷ []) c.parts ∙ snoc-append c.before c.after best rule;
    matching = c.matching;
    earlier = c.earlier;
    later = All-append (IsNotAbove best) c.after (rule ∷ []) c.later (low, tt);
  }

  pub IsBelow-new :
      (seen : List (Rule m)) (best rule : Rule m)
      → IsFirstBest seen best
      → less best.priority rule.priority ≡ true
      → All (IsBelow rule) seen
  IsBelow-new seen best rule c over =
      let low = λ (r : Rule m) (h : IsBelow best r). λ (e : rule_matches r ≡ true).
        less_trans r.priority best.priority rule.priority (h e) over in
      let high = λ (r : Rule m) (h : IsNotAbove best r). λ (e : rule_matches r ≡ true).
        less_of_not_less r.priority best.priority rule.priority (h e) over in
      subst (All (IsBelow rule)) (sym c.parts) (
        All-append (IsBelow rule) c.before (best ∷ c.after)
          (All-imp (IsBelow best) (IsBelow rule) low c.before c.earlier)
          ((λ e. over), All-imp (IsNotAbove best) (IsBelow rule) high c.after c.later))

  pub take_over :
      (seen : List (Rule m)) (rule : Rule m)
      → rule_matches rule ≡ true
      → All (IsBelow rule) seen
      → IsFirstBest (seen ++ rule ∷ []) rule
  take_over seen rule e h = record {
    before = seen;
    after = [];
    parts = refl;
    matching = e;
    earlier = h;
    later = tt;
  }

  pub none-IsBelow :
      (rule : Rule m) (seen : List (Rule m))
      → All (λ r. rule_matches r ≡ false) seen
      → All (IsBelow rule) seen
  none-IsBelow rule seen h =
      All-imp (λ r. rule_matches r ≡ false) (IsBelow rule) (λ r e1 e2. absurd (cc)) seen h
