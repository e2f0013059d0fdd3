-- ===== src/Agents/Examples.antt =====
-- A small manifest, what it is compiled to, and what it says of a screen.
use mux.Prelude.{
  ℕ, ◌+◌, ◌≡◌, refl, true, false, ◌&&◌, List, [], ◌∷◌, Option, none, some, map, if◌then◌else◌, leb,
  all, All, length, arith, ◌≤◌,
}
use mathlib.Core.Path.{ap₂}
use mux.Prelude.Int.{pos}
use mux.Prelude.Results.{ok}
use mux.Text.{Text, codes, contains, has_crlf}
use mux.Agents.Gate.{
  Matcher, ManifestGates, gate, compiled, CompiledGates, nil, cons, max_total_gates,
  max_total_matchers,
}
use mux.Agents.Manifest.{
  ManifestRule, AgentManifest, Rule, working, blocked, compile_manifest, max_rules_per_manifest,
}
use mux.Agents.Manifest.Limits.{total_gates, total_matchers, IsBounded, compile_manifest-limits}
use mux.Agents.Region.Names.{DetectionInput, region}
use mux.Agents.Detect.{evaluate, detection_of}
use mux.Agents.Detect.Best.{evaluate-IsChoice}
use mux.Agents.Detect.Choice.{IsChoice}
use mux.Agents.Names.Paths.{is_plain}

abbrev lower : ℕ → ℕ
lower c = if leb 65 c && leb c 90 then c + 32 else c

-- Patterns that match where they occur.
abbrev words : Matcher
words = record {
  Regex = Text;
  new_regex = λ s. ok s;
  is_match = λ r s. contains r s;
  to_lowercase = map lower;
}

abbrev rule_with : Text → ManifestRule
rule_with needle = record {
  id = codes "r";
  state = some working;
  priority = pos 10;
  region = codes "whole_recent";
  visible_idle = false;
  visible_blocker = false;
  visible_working = false;
  skip_state_update = false;
  all = ManifestGates.end;
  any = ManifestGates.end;
  not_gate = ManifestGates.end;
  contains = needle ∷ [];
  regex = [];
  line_regex = [];
}

-- A nested gate, and a region of its own.
abbrev asking : ManifestRule
asking = record (rule_with (codes "Allow?")) {
  id = codes "ask";
  state = some blocked;
  priority = pos 20;
  region = codes " bottom_non_empty_lines(1) ";
  any =
      ManifestGates.next
        (gate ManifestGates.end ManifestGates.end ManifestGates.end [] [] (codes "y" ∷ []))
        ManifestGates.end;
}

abbrev manifest : AgentManifest
manifest = record {
  id = codes "claude";
  min_engine_version = some 3;
  aliases = [];
  rules =
      asking
      ∷ rule_with (codes "esc")
      ∷ record (rule_with (codes "Esc")) { id = codes "late" }
      ∷ [];
}

abbrev one_word : Text → CompiledGates words → Rule words
one_word needle any = record {
  id = codes "r";
  state = some working;
  priority = pos 10;
  region = codes "whole_recent";
  gate = compiled nil any nil (needle ∷ []) [] [];
}

abbrev rules : List (Rule words)
rules =
    record (one_word (codes "allow?") (cons (compiled nil nil nil [] [] (codes "y" ∷ [])) nil)) {
      id = codes "ask";
      state = some blocked;
      priority = pos 20;
      region = codes " bottom_non_empty_lines(1) ";
    }
    ∷ one_word (codes "esc") nil
    ∷ record (one_word (codes "esc") nil) { id = codes "late" }
    ∷ []

compiled_rules : compile_manifest words manifest ≡ ok rules
unfolding compile_manifest
compiled_rules = refl

compile_manifest-limits_example :
    (1 ≤ length rules)
    × (length rules ≤ max_rules_per_manifest)
    × (total_gates rules ≤ max_total_gates)
    × (total_matchers rules ≤ max_total_matchers)
    × All IsBounded rules
compile_manifest-limits_example = compile_manifest-limits words manifest compiled_rules

abbrev pane : DetectionInput
pane = record { screen = codes "Allow? y\n(press ESC)\n\n"; osc_title = []; osc_progress = [] }

plain_screen : has_crlf pane.screen ≡ false
unfolding has_crlf
plain_screen = refl

evaluate-IsChoice_example :
    (best : Option (Rule words)) × IsChoice words pane rules best
    × (evaluate words rules pane ≡ some (detection_of words best))
evaluate-IsChoice_example = evaluate-IsChoice words pane rules plain_screen

busy : evaluate words rules pane ≡ some (record { state = some working; rule = some (codes "r") })
unfolding evaluate
busy = refl

lower_plain : (s : Text) → all is_plain s ≡ true → map lower s ≡ s
lower_plain [] h = refl
lower_plain (c ∷ s) h = ap₂ ◌∷◌ (ground arith) (lower_plain s (ground arith))

-- "\r\n" shifts the offsets of the code into the middle of a character.
split_character :
    region (record pane { screen = codes "\r\n\r\n›\r\nx" }) (codes "bottom_lines(1)") ≡ none
unfolding region
split_character = refl
