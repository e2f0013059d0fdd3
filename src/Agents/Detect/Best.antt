-- ===== src/Agents/Detect/Best.antt =====
-- crates/agents/src/engine.rs: which rule the loop of `evaluate` ends with.
use mathlib.Core.Path.{subst}
use mux.Prelude.{
  ◌≡◌, refl, sym, ap, ◌∙◌, ◌⊎◌, inl, inr, true, false, List, [], ◌∷◌, ◌++◌, Option, none, some,
  append_assoc, append-nil, if◌then◌else◌, All-append, and_then, Bool-cases, Option-cases, is_some,
  ◌≢◌, and_then-some, some_injective,
}
use mux.Text.{Text, has_crlf}
use mux.Agents.Region.Arms.{region-total}
use mux.Agents.Gate.{Matcher, compiled_rule_matches}
use mux.Agents.Manifest.{Rule}
use mux.Agents.Region.Names.{DetectionInput, region}
use mux.Agents.Detect.{outranks, consider, best_rule, detection_of, evaluate}
use mux.Agents.Detect.Choice.{rule_matches, IsChoice, pass, IsBelow-new, take_over, none-IsBelow}

false-true : false ≢ true
false-true h = cc

module _ (m : Matcher) (input : DetectionInput) where
  rule_matches-cut :
      (rule : Rule m) {text : Text}
      → region input rule.region ≡ some text
      → rule_matches m input rule ≡ compiled_rule_matches m rule.gate text
  unfolding rule_matches
  rule_matches-cut rule e = rw (e, rule_matches) refl

  consider-low :
      (best : Option (Rule m)) (rule : Rule m)
      → outranks m best rule ≡ false
      → consider m input best rule ≡ some best
  unfolding consider
  consider-low best rule low = rw (low, consider) refl

  consider-over :
      (best : Option (Rule m)) (rule : Rule m) {next : Option (Rule m)}
      → outranks m best rule ≡ true
      → consider m input best rule ≡ some next
      → (text : Text) × (region input rule.region ≡ some text)
        × (some (if compiled_rule_matches m rule.gate text then some rule else best) ≡ some next)
  unfolding consider
  consider-over best rule over h =
      and_then-some (region input rule.region) _ (rw (over, consider) at h)

  -- The three ways of one round of the loop.
  consider-cases :
      (best : Option (Rule m)) (rule : Rule m) {next : Option (Rule m)}
      → consider m input best rule ≡ some next
      → ((outranks m best rule ≡ false) × (next ≡ best))
        ⊎ (((rule_matches m input rule ≡ false) × (next ≡ best))
            ⊎ ((outranks m best rule ≡ true)
                × (rule_matches m input rule ≡ true)
                × (next ≡ some rule)))
  consider-cases best rule h = elim (Bool-cases (outranks m best rule)) [
    | inr low ↦ inl (low, some_injective (sym h ∙ consider-low best rule low))
    | inl over ↦
        let (text, e, k) = consider-over best rule over h in
        elim (Bool-cases (compiled_rule_matches m rule.gate text)) [
          | inl yes_match ↦ inr (
              inr (
                over,
                rule_matches-cut rule e ∙ yes_match,
                sym (some_injective (rw yes_match at k)),
              ))
          | inr no_match ↦
              inr
                (inl (rule_matches-cut rule e ∙ no_match, sym (some_injective (rw no_match at k))))
        ]
  ]

  unmatched :
      (seen : List (Rule m)) (best : Option (Rule m)) (rule : Rule m)
      → IsChoice m input seen best
      → rule_matches m input rule ≡ false
      → IsChoice m input (seen ++ rule ∷ []) best
  unmatched seen none rule c e =
      All-append (λ r. rule_matches m input r ≡ false) seen (rule ∷ []) c (e, tt)
  unmatched seen (some best) rule c e = pass m input seen best rule c (λ e2. absurd (cc))

  outranked :
      (seen : List (Rule m)) (best : Option (Rule m)) (rule : Rule m)
      → IsChoice m input seen best
      → outranks m best rule ≡ false
      → IsChoice m input (seen ++ rule ∷ []) best
  unfolding outranks
  outranked seen none rule c e = absurd (cc)
  outranked seen (some best) rule c e = pass m input seen best rule c (λ _. e)

  chosen :
      (seen : List (Rule m)) (best : Option (Rule m)) (rule : Rule m)
      → IsChoice m input seen best
      → outranks m best rule ≡ true
      → rule_matches m input rule ≡ true
      → IsChoice m input (seen ++ rule ∷ []) (some rule)
  unfolding outranks
  chosen seen none rule c over e = take_over m input seen rule e (none-IsBelow m input rule seen c)
  chosen seen (some best) rule c over e =
      take_over m input seen rule e (IsBelow-new m input seen best rule c over)

  consider-IsChoice :
      (seen : List (Rule m)) (best : Option (Rule m)) (rule : Rule m) {next : Option (Rule m)}
      → IsChoice m input seen best
      → consider m input best rule ≡ some next
      → IsChoice m input (seen ++ rule ∷ []) next
  consider-IsChoice seen best rule c h = elim (consider-cases best rule h) [
    | inl (low, same) ↦
        subst (IsChoice m input (seen ++ rule ∷ [])) (sym same) (outranked seen best rule c low)
    | inr (inl (no_match, same)) ↦
        subst (IsChoice m input (seen ++ rule ∷ [])) (sym same)
          (unmatched seen best rule c no_match)
    | inr (inr (over, e, new)) ↦
        subst (IsChoice m input (seen ++ rule ∷ [])) (sym new) (chosen seen best rule c over e)
  ]

  best_rule-IsChoice :
      (seen : List (Rule m)) (best : Option (Rule m)) (rules : List (Rule m))
      (final : Option (Rule m))
      → IsChoice m input seen best
      → best_rule m input best rules ≡ some final
      → IsChoice m input (seen ++ rules) final
  unfolding best_rule
  best_rule-IsChoice seen best [] final c h =
      subst (λ rs. IsChoice m input rs final) (sym (append-nil seen))
        (subst (IsChoice m input seen) (some_injective h) c)
  best_rule-IsChoice seen best (rule ∷ rules) final c h =
      let (next, e, h) = and_then-some (consider m input best rule) _ h in
      subst (λ rs. IsChoice m input rs final) (append_assoc seen (rule ∷ []) rules)
        (best_rule-IsChoice (seen ++ rule ∷ []) next rules final
          (consider-IsChoice seen best rule c e) h)

  consider-total :
      has_crlf input.screen ≡ false
      → (best : Option (Rule m)) (rule : Rule m)
      → (next : Option (Rule m)) × (consider m input best rule ≡ some next)
  unfolding consider
  consider-total unix best rule = elim (Bool-cases (outranks m best rule)) [
    | inr low ↦ (best, rw (low, consider) refl)
    | inl over ↦ elim (Option-cases (region input rule.region)) [
      | inl e ↦ absurd (false-true (ap is_some (sym e) ∙ region-total input rule.region unix))
      | inr (text, e) ↦ (
        (if compiled_rule_matches m rule.gate text then some rule else best),
        rw (over, e, consider) refl,
      )
    ]
  ]

  best_rule-total :
      has_crlf input.screen ≡ false
      → (best : Option (Rule m)) (rules : List (Rule m))
      → (final : Option (Rule m)) × (best_rule m input best rules ≡ some final)
  unfolding best_rule
  best_rule-total unix best [] = (best, refl)
  best_rule-total unix best (rule ∷ rules) =
      let (next, e) = consider-total unix best rule in
      let (final, h) = best_rule-total unix next rules in
      (final, ap (λ o. and_then o λ b. best_rule m input b rules) e ∙ h)

  -- On a screen in which no line ends with "\r\n", `evaluate` always has an answer. It is the state
  -- and the id of a rule that matches, with every matching rule before it of a lower priority and
  -- every matching rule after it of no higher one; or, where no rule matches, the idle state.
  pub evaluate-IsChoice :
      (rules : List (Rule m))
      → has_crlf input.screen ≡ false
      → (best : Option (Rule m)) × IsChoice m input rules best
        × (evaluate m rules input ≡ some (detection_of m best))
  unfolding evaluate
  evaluate-IsChoice rules unix =
      let (best, e) = best_rule-total unix none rules in
      (
        best,
        best_rule-IsChoice [] none rules best tt e,
        ap (λ o. and_then o λ b. some (detection_of m b)) e,
      )
