-- ===== src/Agents/Names/Table.antt =====
-- crates/agents/src/lib.rs: the agents, and the names that each goes by.
use mux.Prelude.{ℕ, List, [], ◌∷◌}
use mux.Text.{Text, codes}

pub data Agent : Type 0 where
  pi claude codex gemini cursor devin antigravity cline open_code github_copilot kimi kiro droid amp
        grok hermes kilo qodercli qwen maki :
      Agent

-- `Agent::label`
unfoldable pub label : Agent → Text
label pi = codes "pi"
label claude = codes "claude"
label codex = codes "codex"
label gemini = codes "gemini"
label cursor = codes "cursor"
label devin = codes "devin"
label antigravity = codes "agy"
label cline = codes "cline"
label open_code = codes "opencode"
label github_copilot = codes "copilot"
label kimi = codes "kimi"
label kiro = codes "kiro"
label droid = codes "droid"
label amp = codes "amp"
label grok = codes "grok"
label hermes = codes "hermes"
label kilo = codes "kilo"
label qodercli = codes "qodercli"
label qwen = codes "qwen"
label maki = codes "maki"

-- What follows the label in a row.
unfoldable pub aliases : Agent → List Text
aliases claude = codes "claude-code" ∷ []
aliases cursor = codes "cursor-agent" ∷ []
aliases devin = codes "devin-cli" ∷ codes "devin cli" ∷ []
aliases antigravity = codes "antigravity" ∷ codes "antigravity-cli" ∷ []
aliases open_code = codes "opencode2" ∷ codes "open-code" ∷ []
aliases github_copilot = codes "github-copilot" ∷ codes "ghcs" ∷ []
aliases kimi = codes "kimi-code" ∷ codes "kimi code" ∷ []
aliases kiro = codes "kiro-cli" ∷ []
aliases amp = codes "amp-local" ∷ []
aliases grok = codes "grok-build" ∷ []
aliases hermes = codes "hermes-agent" ∷ []
aliases kilo = codes "kilo-code" ∷ codes "kilo code" ∷ []
aliases qodercli = codes "qoderclicn" ∷ codes "qoder" ∷ codes "qodercn" ∷ []
aliases qwen = codes "qwen-code" ∷ codes "qwen code" ∷ []
aliases _ = []

unfoldable pub names : Agent → List Text
unfolding label aliases
names a = label a ∷ aliases a

-- `Agent::ALL`
unfoldable pub all_agents : List Agent
all_agents =
    pi ∷ claude ∷ codex ∷ gemini ∷ cursor ∷ devin ∷ antigravity ∷ cline ∷ open_code ∷ github_copilot
    ∷ kimi ∷ kiro ∷ droid ∷ amp ∷ grok ∷ hermes ∷ kilo ∷ qodercli ∷ qwen ∷ maki ∷ []

-- `agent as usize`
unfoldable pub index : Agent → ℕ
index pi = 0
index claude = 1
index codex = 2
index gemini = 3
index cursor = 4
index devin = 5
index antigravity = 6
index cline = 7
index open_code = 8
index github_copilot = 9
index kimi = 10
index kiro = 11
index droid = 12
index amp = 13
index grok = 14
index hermes = 15
index kilo = 16
index qodercli = 17
index qwen = 18
index maki = 19
