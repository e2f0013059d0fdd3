-- ===== src/Agents/Gate/Counting.antt =====
-- crates/agents/src/engine.rs: what one gate adds to the counts of its manifest.
use mux.Prelude.{ℕ, suc, ◌+◌, ◌-◌, ◌≤◌, ◌≡◌, sym, ap, Bool, leb, leb→le, arith, ◌||◌, ◌&&◌, all}
use mathlib.Core.Path.{subst}
use mux.Prelude.Results.{ok, ok_injective, >>=-eq-ok, guard-ok}
use mux.Agents.Gate.{
  ManifestGate, max_gate_depth, max_total_gates, max_matchers_per_gate, max_total_matchers,
  ManifestComplexity, direct_matchers, matchers, fits, has_not, admit_gate, validate_matcher_limits,
  gate_has_positive_matcher,
}

-- A count went from one to another by what was compiled in between, and stayed in its limits.
pub record Counts (before after : ManifestComplexity) (gates matchers : ℕ) : Type 0 where
  pub gates_added : after.total_gates ≡ before.total_gates + gates
  pub matchers_added : after.total_matchers ≡ before.total_matchers + matchers
  pub gates_limit : after.total_gates ≤ max_total_gates
  pub matchers_limit : after.total_matchers ≤ max_total_matchers

pub suc-sub :
    (depth : ℕ) → depth ≤ max_gate_depth → suc (max_gate_depth - depth) ≡ suc max_gate_depth - depth
suc-sub depth h = omega arith

pub plus_zero : (n : ℕ) → n ≡ n + 0
plus_zero n = omega arith

pub suc-depth : (depth : ℕ) → suc max_gate_depth - (depth + 1) ≡ max_gate_depth - depth
suc-depth depth = omega arith

pub ≤_of_eq : {a b n : ℕ} → a ≡ b → b ≤ n → a ≤ n
≤_of_eq e h = omega arith

validated :
    (g : ManifestGate) (c : ManifestComplexity) {c0 : ManifestComplexity}
    → validate_matcher_limits g c ≡ ok c0
    → (direct_matchers g ≤ max_matchers_per_gate)
      × (c0.total_gates ≡ c.total_gates)
      × (c0.total_matchers ≡ c.total_matchers + direct_matchers g)
      × (c0.total_matchers ≤ max_total_matchers)
unfolding validate_matcher_limits
validated g c h =
    let (few, h) = guard-ok (leb (direct_matchers g) max_matchers_per_gate) _ _ h in
    let (all_few, h) =
      guard-ok (leb (c.total_matchers + direct_matchers g) max_total_matchers) _ _ h in
    let (_, h) = guard-ok (all fits (matchers g)) _ _ h in
    (
      leb→le _ _ few,
      sym (ap ManifestComplexity.total_gates (ok_injective h)),
      sym (ap ManifestComplexity.total_matchers (ok_injective h)),
      ≤_of_eq (sym (ap ManifestComplexity.total_matchers (ok_injective h))) (leb→le _ _ all_few),
    )

one_gate :
    (before after : ManifestComplexity) (n : ℕ)
    → after.total_gates ≡ before.total_gates + 1
    → after.total_matchers ≡ before.total_matchers + n
    → before.total_gates + 1 ≤ max_total_gates
    → after.total_matchers ≤ max_total_matchers
    → Counts before after 1 n
one_gate before after n e1 e2 l1 l2 = record {
  gates_added = e1;
  matchers_added = e2;
  gates_limit = ≤_of_eq e1 l1;
  matchers_limit = l2;
}

pub Counts-trans :
    {a b c : ManifestComplexity} {g1 m1 g2 m2 : ℕ}
    → Counts a b g1 m1
    → Counts b c g2 m2
    → Counts a c (g1 + g2) (m1 + m2)
Counts-trans p q = record {
  gates_added = omega (arith, p.gates_added, q.gates_added);
  matchers_added = omega (arith, p.matchers_added, q.matchers_added);
  gates_limit = q.gates_limit;
  matchers_limit = q.matchers_limit;
}

pub admitted_gate :
    (g : ManifestGate) (negated : Bool) (depth : ℕ) (c : ManifestComplexity)
    {c0 : ManifestComplexity}
    → admit_gate g negated depth c ≡ ok c0
    → (depth ≤ max_gate_depth)
      × (direct_matchers g ≤ max_matchers_per_gate)
      × Counts c c0 1 (direct_matchers g)
unfolding admit_gate
admitted_gate g negated depth c h =
    let (deep, h) = guard-ok (leb depth max_gate_depth) _ _ h in
    let (many, h) = guard-ok (leb (c.total_gates + 1) max_total_gates) _ _ h in
    let (counted, e, h) =
      >>=-eq-ok (validate_matcher_limits g (record c { total_gates = c.total_gates + 1 })) _ h in
    let (_, h) = guard-ok (gate_has_positive_matcher g || negated && has_not g) _ _ h in
    let (few, same_gates, more, limit) =
      validated g (record c { total_gates = c.total_gates + 1 }) e in
    (
      leb→le _ _ deep,
      few,
      subst (λ x. Counts c x 1 (direct_matchers g)) (ok_injective h)
          (one_gate c counted (direct_matchers g) same_gates more (leb→le _ _ many) limit),
    )
