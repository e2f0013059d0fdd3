-- ===== src/Agents/Load.antt =====
-- crates/agents/src/engine.rs: the bundled manifests and the entry to the engine. `bundled` is what
-- the crate `toml` makes of an agent's file, `none` where it is not a manifest; the code panics there.
use mux.Prelude.{
  ℕ, zero, suc, ◌==◌, ◌≡◌, refl, sym, ap, ◌∙◌, Bool, false, ◌||◌, List, [], ◌∷◌, Option, none, some,
  if◌then◌else◌, any, and_then, and_then-some, some_injective, get_elem?,
}
use mux.Prelude.Results.{Result, ok, err}
use mux.Text.{same, has_crlf}
use mux.Agents.Gate.{Matcher}
use mux.Agents.Manifest.{AgentManifest, Rule, compile_manifest}
use mux.Agents.Region.Names.{DetectionInput}
use mux.Agents.Detect.{Detection, evaluate, detection_of}
use mux.Agents.Detect.Best.{evaluate-IsChoice}
use mux.Agents.Names.{parse_agent_label}
use mux.Agents.Names.Table.{
  Agent, pi, claude, codex, gemini, cursor, devin, antigravity, cline, open_code, github_copilot,
  kimi, kiro, droid, amp, grok, hermes, kilo, qodercli, qwen, maki, label, all_agents, index,
}
use mathlib.Core.Path.{subst}

-- `==` on the enum
unfoldable pub same_agent : Agent → Agent → Bool
unfolding index
same_agent a b = index a == index b

abbrev is_agent : Agent → Option Agent → Bool
unfolding same_agent
is_agent a none = false
is_agent a (some b) = same_agent b a

-- The enum and `ALL` have the same order.
all_agents-index : (a : Agent) → get_elem? all_agents (index a) ≡ some a
unfolding all_agents index
all_agents-index pi = refl
all_agents-index claude = refl
all_agents-index codex = refl
all_agents-index gemini = refl
all_agents-index cursor = refl
all_agents-index devin = refl
all_agents-index antigravity = refl
all_agents-index cline = refl
all_agents-index open_code = refl
all_agents-index github_copilot = refl
all_agents-index kimi = refl
all_agents-index kiro = refl
all_agents-index droid = refl
all_agents-index amp = refl
all_agents-index grok = refl
all_agents-index hermes = refl
all_agents-index kilo = refl
all_agents-index qodercli = refl
all_agents-index qwen = refl
all_agents-index maki = refl

module _ (m : Matcher) where
  unfoldable pub manifest_matches_agent : AgentManifest → Agent → Bool
  unfolding label same parse_agent_label same_agent
  manifest_matches_agent manifest agent =
      let id = label agent in
      same manifest.id id
      || any (λ alias. same alias id) manifest.aliases
      || is_agent agent (parse_agent_label m manifest.id)
      || any (λ alias. is_agent agent (parse_agent_label m alias)) manifest.aliases

  abbrev unwrapped : {E : Type 0} {A : Type 0} → Result E A → Option A
  unwrapped (ok a) = some a
  unwrapped (err e) = none

  unfoldable pub load : (Agent → Option AgentManifest) → Agent → Option (List (Rule m))
  unfolding manifest_matches_agent compile_manifest
  load bundled agent = and_then (bundled agent) λ manifest.
      if manifest_matches_agent manifest agent
      then unwrapped (compile_manifest m manifest)
      else none

  -- `LOADED`: the manifests of all agents are loaded at once.
  unfoldable pub load_each :
      (Agent → Option AgentManifest) → List Agent → Option (List (List (Rule m)))
  unfolding load
  load_each bundled [] = some []
  load_each bundled (agent ∷ agents) =
      and_then (load bundled agent)
        λ rules. and_then (load_each bundled agents) λ rest. some (rules ∷ rest)

  unfoldable pub detect : (Agent → Option AgentManifest) → Agent → DetectionInput → Option Detection
  unfolding load_each evaluate all_agents index
  detect bundled agent input =
      and_then (load_each bundled all_agents)
        λ loaded. and_then (get_elem? loaded (index agent)) λ rules. evaluate m rules input

  get_elem?-load_each :
      (bundled : Agent → Option AgentManifest) (agents : List Agent) (i : ℕ) (agent : Agent)
      (loaded : List (List (Rule m)))
      → load_each bundled agents ≡ some loaded
      → get_elem? agents i ≡ some agent
      → get_elem? loaded i ≡ load bundled agent
  unfolding load_each
  get_elem?-load_each bundled [] i agent loaded h e = absurd (cc)
  get_elem?-load_each bundled (first ∷ agents) zero agent loaded h e =
      let (rules, e1, h) = and_then-some (load bundled first) _ h in
      let (rest, e2, h) = and_then-some (load_each bundled agents) _ h in
      subst (λ rs. get_elem? rs 0 ≡ load bundled agent) (some_injective h)
        (sym e1 ∙ ap (load bundled) (some_injective e))
  get_elem?-load_each bundled (first ∷ agents) (suc i) agent loaded h e =
      let (rules, e1, h) = and_then-some (load bundled first) _ h in
      let (rest, e2, h) = and_then-some (load_each bundled agents) _ h in
      subst (λ rs. get_elem? rs (suc i) ≡ load bundled agent) (some_injective h)
        (get_elem?-load_each bundled agents i agent rest e2 e)

  load_each-agent :
      (bundled : Agent → Option AgentManifest) (agents : List Agent) (i : ℕ) (agent : Agent)
      (loaded : List (List (Rule m)))
      → load_each bundled agents ≡ some loaded
      → get_elem? agents i ≡ some agent
      → (rules : List (Rule m)) × (load bundled agent ≡ some rules)
  unfolding load_each
  load_each-agent bundled [] i agent loaded h e = absurd (cc)
  load_each-agent bundled (first ∷ agents) zero agent loaded h e =
      let (rules, e1, h) = and_then-some (load bundled first) _ h in
      (rules, ap (load bundled) (sym (some_injective e)) ∙ e1)
  load_each-agent bundled (first ∷ agents) (suc i) agent loaded h e =
      let (rules, e1, h) = and_then-some (load bundled first) _ h in
      let (rest, e2, h) = and_then-some (load_each bundled agents) _ h in
      load_each-agent bundled agents i agent rest e2 e

  -- Where the engine answers for an agent, every agent's manifest was loaded, and the answer is what
  -- `evaluate` makes of the agent's own rules.
  pub detect-load :
      (bundled : Agent → Option AgentManifest) (agent : Agent) (input : DetectionInput)
      {d : Detection}
      → detect bundled agent input ≡ some d
      → (rules : List (Rule m)) × (load bundled agent ≡ some rules)
        × (evaluate m rules input ≡ some d)
  unfolding detect
  detect-load bundled agent input h =
      let (loaded, e, h) = and_then-some (load_each bundled all_agents) _ h in
      let (rules, own, h) = and_then-some (get_elem? loaded (index agent)) _ h in
      (
        rules,
        sym (
              get_elem?-load_each bundled all_agents (index agent) agent loaded e
                (all_agents-index agent))
            ∙ own,
        h,
      )

  -- Once the manifests are loaded, the engine answers on every screen of plain lines.
  pub detect-total :
      (bundled : Agent → Option AgentManifest) (agent : Agent) (input : DetectionInput)
      {loaded : List (List (Rule m))}
      → load_each bundled all_agents ≡ some loaded
      → has_crlf input.screen ≡ false
      → (d : Detection) × (detect bundled agent input ≡ some d)
  unfolding detect
  detect-total bundled agent input {loaded} e unix =
      let (rules, own) =
        load_each-agent bundled all_agents (index agent) agent loaded e (all_agents-index agent) in
      let at =
        get_elem?-load_each bundled all_agents (index agent) agent loaded e (all_agents-index agent)
        ∙ own in
      let (best, _, d) = evaluate-IsChoice m input rules unix in
      (detection_of m best, rw (e, at, detect) d)
