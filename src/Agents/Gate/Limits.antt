-- ===== src/Agents/Gate/Limits.antt =====
-- crates/agents/src/engine.rs: how large what `compile_gate` lets through can be.
use mux.Prelude.{
  ℕ, suc, ◌+◌, ◌-◌, ◌≤◌, ◌≡◌, refl, sym, ap, Bool, true, false, List, [], ◌∷◌, map, length,
  length-map, arith, inl, inr, all,
}
use mathlib.Core.Path.{subst}
use mux.Prelude.Results.{ok, ok_injective, >>=-eq-ok, Result-cases}
use mux.Text.{Text}
use mux.Agents.Gate.{
  Matcher, ManifestGates, end, next, ManifestGate, gate, max_gate_depth, max_total_gates,
  max_matchers_per_gate, max_total_matchers, ManifestComplexity, direct_matchers, admit_gate,
  CompiledGate, compiled, CompiledGates, cons, compile_regexes, compile_gate, compile_gates,
}
use mux.Agents.Gate.Counting.{
  Counts, Counts-trans, suc-sub, plus_zero, suc-depth, ≤_of_eq, admitted_gate,
}
use mux.Agents.Gate.Measures.{
  gate_count, gates_count, matcher_count, matchers_count, HasHeight, HaveHeight, IsNarrow,
  AreNarrow,
}

module _ (m : Matcher) where
  length-compile_regexes :
      (ts : List Text) {rs : List m.Regex} → compile_regexes m ts ≡ ok rs → length rs ≡ length ts
  unfolding compile_regexes
  length-compile_regexes [] h = rw (← ok_injective h) refl
  length-compile_regexes (t ∷ ts) h = elim (Result-cases (m.new_regex t)) [
    | inl (r, e) ↦ elim (Result-cases (compile_regexes m ts)) [
      | inl (rs, es) ↦
          rw (← ok_injective (rw (e, es, compile_regexes) at h))
            (ap suc (length-compile_regexes ts es))
      | inr (es, e2) ↦ absurd (cc)
    ]
    | inr (e2, e) ↦ absurd (cc)
  ]

  -- A gate that was compiled at a depth, and the lists in it at the depth below.
  abbrev pub IsLimited : ℕ → ManifestComplexity → CompiledGate m → ManifestComplexity → Type 0
  IsLimited depth before g after =
      Counts before after (gate_count g) (matcher_count g)
      × HasHeight (max_gate_depth - depth) g
      × IsNarrow g
      × (depth ≤ max_gate_depth)

  abbrev pub AreLimited : ℕ → ManifestComplexity → CompiledGates m → ManifestComplexity → Type 0
  AreLimited depth before gs after =
      Counts before after (gates_count gs) (matchers_count gs)
      × HaveHeight (suc max_gate_depth - depth) gs
      × AreNarrow gs

  same_direct :
      (contains regex line_regex : List Text) {rs ls : List m.Regex}
      → compile_regexes m regex ≡ ok rs
      → compile_regexes m line_regex ≡ ok ls
      → length (map m.to_lowercase contains) + length rs + length ls
        ≡ length contains + length regex + length line_regex
  same_direct contains regex line_regex e1 e2 = omega (
    arith,
    length-map m.to_lowercase contains,
    length-compile_regexes regex e1,
    length-compile_regexes line_regex e2,
  )

  gather :
      (depth : ℕ) (before c0 : ManifestComplexity) (all any not_gate : CompiledGates m)
      (c1 c2 c3 : ManifestComplexity) (contains : List Text) (rs ls : List m.Regex) (d : ℕ)
      → length contains + length rs + length ls ≡ d
      → (depth ≤ max_gate_depth) × (d ≤ max_matchers_per_gate) × Counts before c0 1 d
      → AreLimited (depth + 1) c0 all c1
      → AreLimited (depth + 1) c1 any c2
      → AreLimited (depth + 1) c2 not_gate c3
      → IsLimited depth before (compiled all any not_gate contains rs ls) c3
  unfolding gate_count matcher_count HasHeight IsNarrow
  gather depth before c0 all any not_gate c1 c2 c3 contains rs ls d e (deep, few, own) (k1, t1, n1)
        (k2, t2, n2) (k3, t3, n3) =
      let lower = suc-depth depth in
      (
        subst
            (λ n.
              Counts before c3 (1 + gates_count all + gates_count any + gates_count not_gate)
                (n + matchers_count all + matchers_count any + matchers_count not_gate))
            (sym e) (Counts-trans (Counts-trans (Counts-trans own k1) k2) k3),
        (
          subst (λ n. HaveHeight n all) lower t1,
          subst (λ n. HaveHeight n any) lower t2,
          subst (λ n. HaveHeight n not_gate) lower t3,
        ),
        (≤_of_eq e few, n1, n2, n3),
        deep,
      )

  cons_limited :
      (depth : ℕ) (before c1 after : ManifestComplexity) (g : CompiledGate m) (gs : CompiledGates m)
      → IsLimited depth before g c1
      → AreLimited depth c1 gs after
      → AreLimited depth before (cons g gs) after
  unfolding gate_count matcher_count HasHeight IsNarrow
  cons_limited depth before c1 after g gs (k1, t1, n1, deep) (k2, t2, n2) =
      let height = suc-sub depth deep in
      (
        Counts-trans k1 k2,
        subst (λ n. HaveHeight n (cons g gs)) height
            (t1, subst (λ n. HaveHeight n gs) (sym height) t2),
        (n1, n2),
      )

  mutual
    unfolding compile_gate gate_count matcher_count HasHeight IsNarrow direct_matchers

    pub compile_gate-IsLimited :
        (g : ManifestGate) (negated : Bool) (depth : ℕ) (c : ManifestComplexity)
        {out : CompiledGate m × ManifestComplexity}
        → compile_gate m g negated depth c ≡ ok out
        → IsLimited depth c out.0 out.1
    compile_gate-IsLimited (gate all any not_gate contains regex line_regex) negated depth c h =
        let g = gate all any not_gate contains regex line_regex in
        let (c0, e0, h) = >>=-eq-ok (admit_gate g negated depth c) _ h in
        let (one, e1, h) = >>=-eq-ok (compile_gates m all false (depth + 1) c0) _ h in
        let (two, e2, h) = >>=-eq-ok (compile_gates m any false (depth + 1) one.1) _ h in
        let (three, e3, h) = >>=-eq-ok (compile_gates m not_gate true (depth + 1) two.1) _ h in
        let (rs, e4, h) = >>=-eq-ok (compile_regexes m regex) _ h in
        let (ls, e5, h) = >>=-eq-ok (compile_regexes m line_regex) _ h in
        let own = admitted_gate g negated depth c e0 in
        let l1 =
          compile_gates-AreLimited all false (depth + 1) c0 own.2.gates_limit own.2.matchers_limit
            e1 in
        let l2 =
          compile_gates-AreLimited any false (depth + 1) one.1 l1.0.gates_limit l1.0.matchers_limit
            e2 in
        let l3 =
          compile_gates-AreLimited not_gate true (depth + 1) two.1 l2.0.gates_limit
            l2.0.matchers_limit e3 in
        subst (λ (x : CompiledGate m × ManifestComplexity). IsLimited depth c x.0 x.1)
          (ok_injective h)
          (gather depth c c0 one.0 two.0 three.0 one.1 two.1 three.1 (map m.to_lowercase contains)
            rs ls (direct_matchers g) (same_direct contains regex line_regex e4 e5) own l1 l2 l3)

    compile_gates-AreLimited :
        (gs : ManifestGates) (negated : Bool) (depth : ℕ) (c : ManifestComplexity)
        {out : CompiledGates m × ManifestComplexity}
        → c.total_gates ≤ max_total_gates
        → c.total_matchers ≤ max_total_matchers
        → compile_gates m gs negated depth c ≡ ok out
        → AreLimited depth c out.0 out.1
    compile_gates-AreLimited end negated depth c lg lm h =
        let none_added : Counts c c 0 0 = record {
          gates_added = plus_zero c.total_gates;
          matchers_added = plus_zero c.total_matchers;
          gates_limit = lg;
          matchers_limit = lm;
        } in
        subst (λ (x : CompiledGates m × ManifestComplexity). AreLimited depth c x.0 x.1)
          (ok_injective h) (none_added, tt, tt)
    compile_gates-AreLimited (next g gs) negated depth c lg lm h =
        let (first, e1, h) = >>=-eq-ok (compile_gate m g negated depth c) _ h in
        let (rest, e2, h) = >>=-eq-ok (compile_gates m gs negated depth first.1) _ h in
        let l1 = compile_gate-IsLimited g negated depth c e1 in
        let l2 =
          compile_gates-AreLimited gs negated depth first.1 l1.0.gates_limit l1.0.matchers_limit
            e2 in
        subst (λ (x : CompiledGates m × ManifestComplexity). AreLimited depth c x.0 x.1)
          (ok_injective h) (cons_limited depth c first.1 rest.1 first.0 rest.0 l1 l2)
