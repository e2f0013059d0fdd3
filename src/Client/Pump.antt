-- ===== src/Client/Pump.antt =====
-- main.rs: what a relay does with the frames of the session that it attached to.
pub mod Shown
use mux.Prelude.{
  ℕ, zero, suc, Bool, true, false, not, ◌&&◌, List, [], ◌∷◌, ◌++◌, Option, none, some, String,
  if◌then◌else◌, ◌==◌, str_eq,
}
use mux.Prelude.Int.{ℤ, pos}
use mux.Text.{codes}
use mux.Frame.{Stream, read_lane, out_lane_output, out_lane_events}
use mux.Frame as frame
use mux.Peer.{ServerEvent, exit, foreground}
use mux.Client.{valid_alias}

-- Why the relay for one connection ended.
pub data Relay : Type 0 where
  exited : ℤ → Relay
  daemon_gone : Relay
  mirror : String → Relay

-- `takes` tells whether the terminal, with what it was given before, takes a further payload.
pub record Pane : Type 0 where
  pub mirrors : Bool
  pub current_alias : String
  pub decode_event : List ℕ → Option ServerEvent
  pub takes : List ℕ → List ℕ → Bool

pub data Next : Type 0 where
  ends : Relay → Next
  goes_on : List ℕ → Next

-- `name` is one to re-exec under.
unfoldable pub to_mirror : Pane → String → Bool
unfolding valid_alias
to_mirror p name = p.mirrors && valid_alias (codes name) && not (str_eq name p.current_alias)

abbrev pub on_event : Pane → List ℕ → Option ServerEvent → Next
on_event p shown none = goes_on shown
on_event p shown (some (exit code)) = ends (exited code)
on_event p shown (some (foreground name)) =
    if to_mirror p name then ends (mirror name) else goes_on shown

-- One frame, with what the terminal was given before.
unfoldable pub on_frame : Pane → List ℕ → ℕ × List ℕ → Next
unfolding to_mirror
on_frame p shown (lane, payload) =
    if lane == out_lane_output
    then if p.takes shown payload then goes_on (shown ++ payload) else ends (exited (pos 0))
    else if lane == out_lane_events
    then on_event p shown (p.decode_event payload)
    else goes_on shown

-- `pump`: why it ended, what the terminal was given, and the rest of the stream. `none` is out of
-- fuel, of which each frame takes one.
unfoldable pub pump : Pane → ℕ → List ℕ → Stream → Option (Relay × List ℕ × Stream)
unfolding on_frame
pump p zero shown s = none
pump p (suc fuel) shown s = elim (read_lane s) [
  | frame.err e ↦ some (daemon_gone, shown, s)
  | frame.ok none ↦ some (daemon_gone, shown, s)
  | frame.ok (some (f, rest)) ↦ elim (on_frame p shown f) [
    | ends r ↦ some (r, shown, rest)
    | goes_on more ↦ pump p fuel more rest
  ]
]
