-- ===== src/Session/Detector/Examples.antt =====
-- A pty with claude in the foreground, read once.
use mathlib.Core.Logic.{ite}
use mux.Prelude.{ℕ, ◌≡◌, refl, false, List, [], ◌∷◌, ◌++◌, Option, none, some, any, and_then, map}
use mux.Prelude.Int.{pos}
use mux.Prelude.Results.{ok}
use mux.Text.{Text, codes, contains}
use mux.Terminal.{Ghostty}
use mux.Peer.{AgentInfo, label_discrete}
use mux.Agents.Gate.{Matcher, ManifestGates, compiled, nil}
use mux.Agents.Manifest.{ManifestRule, AgentManifest, Rule, working}
use mux.Agents.Load.{load_each}
use mux.Agents.Names.{from_command}
use mux.Agents.Names.Table.{Agent, label, all_agents}
use mux.Session.{PtySession}
use mux.Session.Detector.{foreground_name, refresh_agent}
use mux.Session.Detector.Refresh.{is_return, Describes, refresh_agent_lem}

abbrev screen : Ghostty
screen = record {
  Handle = List ℕ;
  terminal_new = λ cols rows. some [];
  terminal_feed = λ h bytes. h ++ bytes;
  terminal_resize = λ h cols rows. h;
  cursor = λ h. record { row = 1; col = 1 };
  dump_viewport_row = λ h r. "esc to interrupt";
  terminal_title = λ h. some "✳ fix it";
  render_reattach = λ h. h;
}

abbrev session : PtySession screen
session = record {
  generation = 7;
  revision = 0;
  input_revision = 0;
  changes = 0;
  name = "p1";
  command = [];
  terminal = record { handle = []; rows = 2; cols = 80 };
  client = none;
  child = pos 100;
  adopted = false;
  exited = false;
  close_deadline = none;
  agent = none;
  foreground = none;
  agent_pending = false;
  last_event = none;
}

abbrev words : Matcher
words = record {
  Regex = Text;
  new_regex = λ s. ok s;
  is_match = λ r s. contains r s;
  to_lowercase = λ s. s;
}

abbrev busy_rule : ManifestRule
busy_rule = record {
  id = codes "busy";
  state = some working;
  priority = pos 0;
  region = codes "whole_recent";
  visible_idle = false;
  visible_blocker = false;
  visible_working = false;
  skip_state_update = false;
  all = ManifestGates.end;
  any = ManifestGates.end;
  not_gate = ManifestGates.end;
  contains = codes "esc" ∷ [];
  regex = [];
  line_regex = [];
}

abbrev bundled : Agent → Option AgentManifest
unfolding label
bundled a =
    some (record { id = label a; min_engine_version = none; aliases = []; rules = busy_rule ∷ [] })

abbrev busy : Rule words
busy = record {
  id = codes "busy";
  state = some working;
  priority = pos 0;
  region = codes "whole_recent";
  gate = compiled nil nil nil (codes "esc" ∷ []) [] [];
}

abbrev loaded : List (List (Rule words))
unfolding all_agents
loaded = map (λ a. busy ∷ []) all_agents

ready : load_each words bundled all_agents ≡ some loaded
unfolding load_each all_agents label
ready = refl

rows_plain :
    (h : screen.Handle) (r : ℕ) → any is_return (codes (screen.dump_viewport_row h r)) ≡ false
rows_plain h r = refl

abbrev argv : Option (List Text)
argv = some (codes "/opt/claude" ∷ [])

refresh_agent_lem_example :
    (next : Option AgentInfo) × Describes words bundled session
      (and_then argv (from_command words))
      next
    × (refresh_agent words bundled argv session
        ≡ some (
          record session { agent = next; foreground = foreground_name words argv },
          ite
              (label_discrete session.foreground (foreground_name words argv))
              none
              (foreground_name words argv),
        ))
refresh_agent_lem_example = refresh_agent_lem screen rows_plain words bundled ready argv session
