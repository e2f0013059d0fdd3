-- ===== src/Agents/Gate/Measures.antt =====
-- crates/agents/src/engine.rs: how large a compiled gate is.
use mux.Prelude.{ℕ, zero, suc, ◌+◌, ◌≤◌, length, all}
use mux.Agents.Gate.{
  Matcher, max_matchers_per_gate, CompiledGate, compiled, CompiledGates, nil, cons,
}

module _ {m : Matcher} where
  unfoldable mutual
    pub gate_count : CompiledGate m → ℕ
    gate_count (compiled all any not_gate contains regex line_regex) =
        1 + gates_count all + gates_count any + gates_count not_gate

    pub gates_count : CompiledGates m → ℕ
    gates_count nil = 0
    gates_count (cons g gs) = gate_count g + gates_count gs

  unfoldable mutual
    pub matcher_count : CompiledGate m → ℕ
    matcher_count (compiled all any not_gate contains regex line_regex) =
        (length contains + length regex + length line_regex)
        + matchers_count all
        + matchers_count any
        + matchers_count not_gate

    pub matchers_count : CompiledGates m → ℕ
    matchers_count nil = 0
    matchers_count (cons g gs) = matcher_count g + matchers_count gs

  -- A gate without nested ones has the height 0.
  unfoldable mutual
    pub HasHeight : ℕ → CompiledGate m → Type 0
    HasHeight n (compiled all any not_gate contains regex line_regex) =
        HaveHeight n all × HaveHeight n any × HaveHeight n not_gate

    pub HaveHeight : ℕ → CompiledGates m → Type 0
    HaveHeight n nil = Unit
    HaveHeight zero (cons g gs) = ⊥
    HaveHeight (suc n) (cons g gs) = HasHeight n g × HaveHeight (suc n) gs

  -- No gate has more than 32 matchers of its own.
  unfoldable mutual
    pub IsNarrow : CompiledGate m → Type 0
    IsNarrow (compiled all any not_gate contains regex line_regex) =
        (length contains + length regex + length line_regex ≤ max_matchers_per_gate)
        × AreNarrow all
        × AreNarrow any
        × AreNarrow not_gate

    pub AreNarrow : CompiledGates m → Type 0
    AreNarrow nil = Unit
    AreNarrow (cons g gs) = IsNarrow g × AreNarrow gs
