-- ===== src/Session/Detector/Refresh.antt =====
-- manager.rs: what `refresh_agent` leaves in a session.
use mux.Prelude.{
  ℕ, zero, suc, ◌-◌, ◌≡◌, refl, ap, inl, inr, Bool, true, false, List, [], ◌∷◌, ◌++◌, Option, none,
  some, String, map, if◌then◌else◌, any, All, length, drop, and_then, ◌==◌, Option-cases, arith,
}
use mux.Text.{Text, codes, newline, carriage_return, has_crlf}
use mux.Text.Strings.{to_string, join_lines}
use mux.Terminal.{Ghostty, Terminal, row_texts, rows_from}
use mathlib.Core.Logic.{ite}
use mux.Peer.{AgentInfo, label_discrete}
use mux.Agents.Gate.{Matcher}
use mux.Agents.Manifest.{AgentManifest, AgentState, Rule}
use mux.Agents.Detect.{Detection}
use mux.Agents.Load.{detect, load_each, detect-total}
use mux.Agents.Names.{from_command, state_label, topic}
use mux.Agents.Names.Table.{Agent, label, all_agents}
use mux.Session.{PtySession}
use mux.Session.Detector.{
  agent_tail_rows, detection_input, state_text, foreground_name, agent_info, next_agent,
  named_differently, refresh_agent,
}

abbrev pub is_return : ℕ → Bool
is_return c = c == carriage_return

any-append :
    (p : ℕ → Bool) (s t : Text) → any p s ≡ false → any p t ≡ false → any p (s ++ t) ≡ false
any-append p [] t h k = k
any-append p (c ∷ s) t h k = ground (arith, any-append p s t)

no_return : (s : Text) → any is_return s ≡ false → has_crlf s ≡ false
unfolding has_crlf
no_return [] h = refl
no_return (c ∷ s) h = ground (arith, no_return s)

join_lines-return :
    (ls : List Text) → All (λ l. any is_return l ≡ false) ls → any is_return (join_lines ls) ≡ false
unfolding join_lines
join_lines-return [] h = refl
join_lines-return (l ∷ []) (h, hs) = h
join_lines-return (l ∷ k ∷ ls) (h, hs) =
    any-append is_return l (newline ∷ join_lines (k ∷ ls)) h (join_lines-return (k ∷ ls) hs)

All-map :
    (p : Text → Type 0) (rows : List String) (n : ℕ)
    → All (λ row. p (codes row)) rows
    → All p (map codes (drop n rows))
All-map p [] zero h = tt
All-map p [] (suc n) h = tt
All-map p (row ∷ rows) zero (h, hs) = (h, All-map p rows zero hs)
All-map p (row ∷ rows) (suc n) (h, hs) = All-map p rows n hs

-- The state that is told: the one that the engine found, else the last one, else that of a prompt.
abbrev pub IsTold : Option AgentInfo → Option AgentState → String → Type 0
IsTold previous (some found) text = text ≡ to_string (state_label found)
IsTold (some info) none text = text ≡ info.state
IsTold none none text = text ≡ "idle"

state_text-IsTold :
    (previous : Option AgentInfo) (found : Option AgentState)
    → IsTold previous found (state_text previous found)
unfolding state_text state_label to_string
state_text-IsTold previous (some found) = refl
state_text-IsTold (some info) none = refl
state_text-IsTold none none = refl

module _ {vt : Ghostty} (m : Matcher) (bundled : Agent → Option AgentManifest) where
  -- What a session says of its agent: nothing where none runs, else the agent's label and topic,
  -- and the state that the engine found or, where it found a viewer, the one from before.
  abbrev pub Describes : PtySession vt → Option Agent → Option AgentInfo → Type 0
  Describes s none next = next ≡ none
  Describes s (some agent) next =
      (d : Detection) × (detect m bundled agent (detection_input s.terminal) ≡ some d)
      × ((state : String) × IsTold s.agent d.state state
          × (next
              ≡ some (record {
                agent = to_string (label agent);
                state = state;
                topic = to_string (topic (detection_input s.terminal).osc_title);
              })))

-- A name that is the last one again may be written again.
settled :
    {A : Type 0} (f : Option String → A) (old new : Option String) (d : Dec (old ≡ new))
    → ◌≡◌ {A = A × Option String}
        (if (ite d false true) then (f new, new) else (f old, none))
        (f new, ite d none new)
settled f old new (yes e) = ap (λ x. (f x, none)) e
settled f old new (no ne) = refl

module _ (vt : Ghostty)
    (plain : (h : vt.Handle) (r : ℕ)
      → any is_return (codes (vt.dump_viewport_row h r)) ≡ false) where
  rows_plain :
      (h : vt.Handle) (r left : ℕ)
      → All (λ row. any is_return (codes row) ≡ false) (rows_from vt h r left)
  unfolding rows_from
  rows_plain h r zero = tt
  rows_plain h r (suc left) = (plain h r, rows_plain h (suc r) left)

  screen_plain : (t : Terminal vt) → has_crlf (detection_input t).screen ≡ false
  unfolding detection_input row_texts
  screen_plain t =
      let n = length (rows_from vt t.handle 0 t.rows) - agent_tail_rows in
      no_return _ (
        join_lines-return _ (
          All-map (λ l. any is_return l ≡ false) (rows_from vt t.handle 0 t.rows) n
            (rows_plain t.handle 0 t.rows)))

  module _ (m : Matcher) (bundled : Agent → Option AgentManifest) {loaded : List (List (Rule m))}
      (ready : load_each m bundled all_agents ≡ some loaded) where
    next_agent-total :
        (argv : Option (List Text)) (s : PtySession vt)
        → (next : Option AgentInfo) × (next_agent m bundled argv s ≡ some next)
          × Describes m bundled s (and_then argv (from_command m)) next
    unfolding next_agent agent_info
    next_agent-total argv s = elim (Option-cases (and_then argv (from_command m))) [
      | inl e ↦ (none, rw (e, next_agent) refl, rw e refl)
      | inr (agent, e) ↦
          let (d, found) =
            detect-total m bundled agent (detection_input s.terminal) ready
              (screen_plain s.terminal) in
          (
            some (record {
              agent = to_string (label agent);
              state = state_text s.agent d.state;
              topic = to_string (topic (detection_input s.terminal).osc_title);
            }),
            rw (e, found, next_agent) refl,
            rw e (d, found, (state_text s.agent d.state, state_text-IsTold s.agent d.state, refl)),
          )
    ]

    -- Where every bundled manifest was loaded and the rows of the screen hold no "\r", a reading of
    -- the pty never panics. The session then describes the agent in the foreground and has the name
    -- of the foreground program, and nothing else of it changed; the name is handed out exactly when
    -- it differs from the last one.
    pub refresh_agent_lem :
        (argv : Option (List Text)) (s : PtySession vt)
        → (next : Option AgentInfo) × Describes m bundled s (and_then argv (from_command m)) next
          × (refresh_agent m bundled argv s
              ≡ some (
                record s { agent = next; foreground = foreground_name m argv },
                ite
                    (label_discrete s.foreground (foreground_name m argv))
                    none
                    (foreground_name m argv),
              ))
    unfolding refresh_agent named_differently
    refresh_agent_lem argv s =
        let (next, e, describes) = next_agent-total argv s in
        (
          next,
          describes,
          rw (e, refresh_agent)
              (ap some (
                settled (λ name. record s { agent = next; foreground = name }) s.foreground
                  (foreground_name m argv) (label_discrete s.foreground (foreground_name m argv)))),
        )
