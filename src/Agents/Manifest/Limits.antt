-- ===== src/Agents/Manifest/Limits.antt =====
-- crates/agents/src/engine.rs: how large the rules of one manifest can be together.
use mathlib.Core.Path.{subst}
use mux.Prelude.{
  ℕ, suc, ◌+◌, ◌≤◌, ◌≡◌, refl, ap, true, false, List, [], ◌∷◌, Option, not, leb, leb→le, length,
  All, arith, map_or,
}
use mux.Prelude.Results.{ok, guard-ok, map_err, map_err-ok, ok_injective, >>=-eq-ok}
use mux.Text.{is_empty}
use mux.Agents.Gate.{
  Matcher, ManifestComplexity, compile_gate, max_total_gates, max_total_matchers, max_gate_depth,
}
use mux.Agents.Gate.Counting.{Counts, Counts-trans}
use mux.Agents.Gate.Measures.{gate_count, matcher_count, HasHeight, IsNarrow}
use mux.Agents.Gate.Limits.{compile_gate-IsLimited}
use mux.Agents.Manifest.{
  ManifestRule, AgentManifest, Rule, bad_gate, root_gate, rule_of, check_rule, compile_rules,
  compile_manifest, no_complexity, max_rules_per_manifest, manifest_engine_version,
}

module _ {m : Matcher} where
  unfoldable pub total_gates : List (Rule m) → ℕ
  unfolding gate_count
  total_gates [] = 0
  total_gates (r ∷ rs) = gate_count r.gate + total_gates rs

  unfoldable pub total_matchers : List (Rule m) → ℕ
  unfolding matcher_count
  total_matchers [] = 0
  total_matchers (r ∷ rs) = matcher_count r.gate + total_matchers rs

  -- Gates nest at most eight deep under the rule's own, each with at most 32 matchers.
  abbrev pub IsBounded : Rule m → Type 0
  IsBounded r = HasHeight max_gate_depth r.gate × IsNarrow r.gate

filled_length : {A : Type 0} (xs : List A) → not (is_empty xs) ≡ true → 1 ≤ length xs
filled_length [] h = absurd (cc)
filled_length (x ∷ xs) h = omega arith

from_default :
    {after : ManifestComplexity} {gates matchers : ℕ}
    → Counts no_complexity after gates matchers
    → (gates ≤ max_total_gates) × (matchers ≤ max_total_matchers)
from_default k =
    (omega (arith, k.gates_added, k.gates_limit), omega (arith, k.matchers_added, k.matchers_limit))

module _ (m : Matcher) where
  compile_rules-limits :
      (version : Option ℕ) (rules : List ManifestRule) (c : ManifestComplexity)
      {out : List (Rule m) × ManifestComplexity}
      → c.total_gates ≤ max_total_gates
      → c.total_matchers ≤ max_total_matchers
      → compile_rules m version rules c ≡ ok out
      → Counts c out.1 (total_gates out.0) (total_matchers out.0)
        × All IsBounded out.0
        × (length out.0 ≡ length rules)
  unfolding compile_rules total_gates total_matchers rule_of
  compile_rules-limits version [] c lg lm h =
      let same : Counts c c 0 0 = record {
        gates_added = omega arith;
        matchers_added = omega arith;
        gates_limit = lg;
        matchers_limit = lm;
      } in
      subst
        (λ (x : List (Rule m) × ManifestComplexity).
          Counts c x.1 (total_gates x.0) (total_matchers x.0)
          × All IsBounded x.0
          × (length x.0 ≡ 0))
        {x = ([], c)} (ok_injective h) (same, tt, refl)
  compile_rules-limits version (rule ∷ rules) c lg lm h =
      let (_, _, h) = >>=-eq-ok (check_rule version rule) _ h in
      let (first, e1, h) =
        >>=-eq-ok (map_err bad_gate (compile_gate m (root_gate rule) false 0 c)) _ h in
      let (rest, e2, h) = >>=-eq-ok (compile_rules m version rules first.1) _ h in
      let (k1, t1, n1, _) =
        compile_gate-IsLimited m (root_gate rule) false 0 c (map_err-ok bad_gate _ e1) in
      let (k2, b2, l2) =
        compile_rules-limits version rules first.1 k1.gates_limit k1.matchers_limit e2 in
      subst
        (λ (x : List (Rule m) × ManifestComplexity).
          Counts c x.1 (total_gates x.0) (total_matchers x.0)
          × All IsBounded x.0
          × (length x.0 ≡ suc (length rules)))
        {x = (rule_of m rule first.0 ∷ rest.0, rest.1)} (ok_injective h)
        (Counts-trans k1 k2, ((t1, n1), b2), ap suc l2)

  -- A manifest that compiles has between 1 and 128 rules, with at most 512 gates and 1024 matchers
  -- between them; each rule's gates nest at most 8 deep below its own, and none has more than 32
  -- matchers.
  pub compile_manifest-limits :
      (manifest : AgentManifest) {rules : List (Rule m)}
      → compile_manifest m manifest ≡ ok rules
      → (1 ≤ length rules)
        × (length rules ≤ max_rules_per_manifest)
        × (total_gates rules ≤ max_total_gates)
        × (total_matchers rules ≤ max_total_matchers)
        × All IsBounded rules
  unfolding compile_manifest
  compile_manifest-limits manifest h =
      let (_, h) =
        guard-ok
          (map_or true (λ required. leb required manifest_engine_version)
            manifest.min_engine_version)
          _ _ h in
      let (filled, h) = guard-ok (not (is_empty manifest.rules)) _ _ h in
      let (few, h) = guard-ok (leb (length manifest.rules) max_rules_per_manifest) _ _ h in
      let (out, e, h) =
        >>=-eq-ok (compile_rules m manifest.min_engine_version manifest.rules no_complexity) _ h in
      let (k, bounded, same) =
        compile_rules-limits manifest.min_engine_version manifest.rules no_complexity (omega arith)
          (omega arith) e in
      subst
        (λ rules.
          (1 ≤ length rules)
          × (length rules ≤ max_rules_per_manifest)
          × (total_gates rules ≤ max_total_gates)
          × (total_matchers rules ≤ max_total_matchers)
          × All IsBounded rules)
        (ok_injective h)
        (
          omega (arith, same, filled_length manifest.rules filled),
          omega (arith, same, leb→le _ _ few),
          (from_default k).0,
          (from_default k).1,
          bounded,
        )
