-- ===== src/Agents/Names/Paths.antt =====
-- crates/agents/src/lib.rs: an agent is found by its label behind any path, and as the script of a
-- launcher.
use mux.Prelude.{
  ◌≡◌, refl, ◌∙◌, Bool, true, false, not, ◌&&◌, ◌||◌, List, [], ◌∷◌, ◌++◌, none, some, any, all,
  leb, ltb, ℕ,
}
use mux.Text.{Text, codes, same, trim}
use mux.Agents.Gate.{Matcher}
use mux.Agents.Names.{
  slash, is_slash, basename, strip_any, script_suffixes, named, parse_agent_label,
  from_process_name, from_script, launchers, from_command,
}
use mux.Agents.Names.Table.{
  Agent, pi, claude, codex, gemini, cursor, devin, antigravity, cline, open_code, github_copilot,
  kimi, kiro, droid, amp, grok, hermes, kilo, qodercli, qwen, maki, label, names, all_agents,
}

pub data Launcher : Type 0 where
  node nodejs bun : Launcher

abbrev pub launcher_name : Launcher → Text
launcher_name node = codes "node"
launcher_name nodejs = codes "nodejs"
launcher_name bun = codes "bun"

-- A character of ASCII that is no capital letter.
abbrev pub is_plain : ℕ → Bool
is_plain c = ltb c 128 && not (leb 65 c && leb c 90)

or_true : (a b : Bool) → b ≡ true → (a || b) ≡ true
or_true true b h = refl
or_true false b h = h

has_slash : (dir name : Text) → any is_slash (dir ++ slash ∷ name) ≡ true
has_slash [] name = refl
has_slash (c ∷ dir) name = or_true (is_slash c) _ (has_slash dir name)

basename-none : (name : Text) → any is_slash name ≡ false → basename name ≡ name
unfolding basename
basename-none [] h = refl
basename-none (c ∷ s) h = rw (h, basename) refl

basename-path :
    (dir name : Text) → any is_slash name ≡ false → basename (dir ++ slash ∷ name) ≡ name
unfolding basename
basename-path [] name h = basename-none name h
basename-path (c ∷ dir) name h =
    rw (or_true (is_slash c) _ (has_slash dir name), basename) (basename-path dir name h)

label-trim : (a : Agent) → trim (label a) ≡ label a
unfolding trim label
label-trim pi = refl
label-trim claude = refl
label-trim codex = refl
label-trim gemini = refl
label-trim cursor = refl
label-trim devin = refl
label-trim antigravity = refl
label-trim cline = refl
label-trim open_code = refl
label-trim github_copilot = refl
label-trim kimi = refl
label-trim kiro = refl
label-trim droid = refl
label-trim amp = refl
label-trim grok = refl
label-trim hermes = refl
label-trim kilo = refl
label-trim qodercli = refl
label-trim qwen = refl
label-trim maki = refl

label-named : (a : Agent) → named (strip_any script_suffixes (label a)) all_agents ≡ some a
unfolding named strip_any all_agents label names
label-named pi = refl
label-named claude = refl
label-named codex = refl
label-named gemini = refl
label-named cursor = refl
label-named devin = refl
label-named antigravity = refl
label-named cline = refl
label-named open_code = refl
label-named github_copilot = refl
label-named kimi = refl
label-named kiro = refl
label-named droid = refl
label-named amp = refl
label-named grok = refl
label-named hermes = refl
label-named kilo = refl
label-named qodercli = refl
label-named qwen = refl
label-named maki = refl

label_plain : (a : Agent) → all is_plain (label a) ≡ true
unfolding label
label_plain pi = refl
label_plain claude = refl
label_plain codex = refl
label_plain gemini = refl
label_plain cursor = refl
label_plain devin = refl
label_plain antigravity = refl
label_plain cline = refl
label_plain open_code = refl
label_plain github_copilot = refl
label_plain kimi = refl
label_plain kiro = refl
label_plain droid = refl
label_plain amp = refl
label_plain grok = refl
label_plain hermes = refl
label_plain kilo = refl
label_plain qodercli = refl
label_plain qwen = refl
label_plain maki = refl

label-slash : (a : Agent) → any is_slash (label a) ≡ false
unfolding label
label-slash pi = refl
label-slash claude = refl
label-slash codex = refl
label-slash gemini = refl
label-slash cursor = refl
label-slash devin = refl
label-slash antigravity = refl
label-slash cline = refl
label-slash open_code = refl
label-slash github_copilot = refl
label-slash kimi = refl
label-slash kiro = refl
label-slash droid = refl
label-slash amp = refl
label-slash grok = refl
label-slash hermes = refl
label-slash kilo = refl
label-slash qodercli = refl
label-slash qwen = refl
label-slash maki = refl

launcher-trim : (l : Launcher) → trim (launcher_name l) ≡ launcher_name l
unfolding trim
launcher-trim node = refl
launcher-trim nodejs = refl
launcher-trim bun = refl

launcher_plain : (l : Launcher) → all is_plain (launcher_name l) ≡ true
launcher_plain node = refl
launcher_plain nodejs = refl
launcher_plain bun = refl

launcher-slash : (l : Launcher) → any is_slash (launcher_name l) ≡ false
launcher-slash node = refl
launcher-slash nodejs = refl
launcher-slash bun = refl

launcher-named :
    (l : Launcher) → named (strip_any script_suffixes (launcher_name l)) all_agents ≡ none
unfolding named strip_any all_agents label names
launcher-named node = refl
launcher-named nodejs = refl
launcher-named bun = refl

launcher-known : (l : Launcher) → any (same (launcher_name l)) launchers ≡ true
unfolding same
launcher-known node = refl
launcher-known nodejs = refl
launcher-known bun = refl

module _ (m : Matcher) (lower : (s : Text) → all is_plain s ≡ true → m.to_lowercase s ≡ s) where
  process_named :
      (dir name : Text)
      → trim name ≡ name
      → all is_plain name ≡ true
      → any is_slash name ≡ false
      → from_process_name m (dir ++ slash ∷ name)
        ≡ named (strip_any script_suffixes name) all_agents
  unfolding from_process_name parse_agent_label
  process_named dir name tight plain whole =
      rw (basename-path dir name whole, tight, lower name plain) refl

  process_at : (dir : Text) (a : Agent) → from_process_name m (dir ++ slash ∷ label a) ≡ some a
  process_at dir a =
      process_named dir (label a) (label-trim a) (label_plain a) (label-slash a) ∙ label-named a

  launcher_at :
      (dir : Text) (l : Launcher) → from_process_name m (dir ++ slash ∷ launcher_name l) ≡ none
  launcher_at dir l =
      process_named dir (launcher_name l) (launcher-trim l) (launcher_plain l) (launcher-slash l)
      ∙ launcher-named l

  -- A command is an agent where what it runs, or the script that it hands to a launcher, is the
  -- agent's label in some directory, whatever its arguments are.
  pub from_command-path :
      (l : Launcher) (dir bin : Text) (a : Agent) (args : List Text)
      → (from_command m ((dir ++ slash ∷ label a) ∷ args) ≡ some a)
        × (from_command m ((bin ++ slash ∷ launcher_name l) ∷ (dir ++ slash ∷ label a) ∷ args)
            ≡ some a)
  unfolding from_command from_script
  from_command-path l dir bin a args = (
    rw (process_at dir a) refl,
    rw (launcher_at bin l, basename-path bin (launcher_name l) (launcher-slash l), launcher-known l)
        (process_at dir a),
  )
