-- ===== src/Server/Incoming.antt =====
-- server.rs: what a client that attached sends, as `receive` of `handle_open` takes it in.
use mux.Prelude.{
  ℕ, zero, suc, Bool, List, [], ◌∷◌, ◌++◌, Option, none, some, if◌then◌else◌, ◌==◌, take,
}
use mux.Frame.{ok, err, IoError, Stream, read_lane, in_lane_input, in_lane_control}
use mux.Peer.{ClientControl, resize}
use mux.Terminal.{Ghostty}
use mux.Session.{PtySession, write_input, resize_session}

-- The session, what its pty was given, the dumps that were sent again, and the frames so far.
pub record Intake (vt : Ghostty) : Type 0 where
  pub session : PtySession vt
  pub typed : List (List ℕ)
  pub dumps : List (List ℕ)
  pub frames : ℕ

pub data Ended (vt : Ghostty) : Type 0 where
  detached : Intake vt → Ended vt
  broke : IoError → Intake vt → Ended vt
  write_failed : Intake vt → Ended vt
  out_of_fuel : Ended vt

-- What a frame comes to: the loop goes on, or a write to the pty ends it.
pub data Taken (vt : Ghostty) : Type 0 where
  goes_on breaks_off : Intake vt → Taken vt

abbrev pub add_dump : Option (List ℕ) → List (List ℕ) → List (List ℕ)
add_dump none dumps = dumps
add_dump (some d) dumps = dumps ++ d ∷ []

module _ {vt : Ghostty} where
  abbrev regrid : ℕ → ℕ → Bool → Intake vt → Intake vt
  regrid cols rows live t =
      let (s, dump) = resize_session cols rows live t.session in
      record t { session = s; dumps = add_dump dump t.dumps; frames = suc t.frames }

  -- A control frame that does not decode, and a frame on a lane that is unknown, are passed over.
  abbrev pub controlled : Option ClientControl → Bool → Intake vt → Intake vt
  controlled none live t = record t { frames = suc t.frames }
  controlled (some (resize cols rows)) live t = regrid cols rows live t

  -- A write that breaks off after so many bytes gives the pty no more of the payload.
  abbrev pub type_in : Option ℕ → List ℕ → Intake vt → Taken vt
  type_in none payload t = goes_on (record t {
    session = (write_input payload t.session).0;
    typed = t.typed ++ payload ∷ [];
    frames = suc t.frames;
  })
  type_in (some n) payload t = breaks_off (record t {
    session = (write_input payload t.session).0;
    typed = t.typed ++ take n payload ∷ [];
    frames = suc t.frames;
  })

  -- `live`: the first live output is on its way to the client. `stop`: after how many bytes a write
  -- to the pty fails, if it does.
  unfoldable pub take_frame :
      (List ℕ → Option ClientControl) → Bool → Option ℕ → ℕ × List ℕ → Intake vt → Taken vt
  take_frame decode live stop (lane, payload) t =
      if lane == in_lane_input
      then type_in stop payload t
      else if lane == in_lane_control
      then goes_on (controlled (decode payload) live t)
      else goes_on (record t { frames = suc t.frames })

  -- `live` says for each frame whether live output has reached the client by then, and `stops`
  -- whether the write of it fails.
  unfoldable pub receive :
      (List ℕ → Option ClientControl)
      → (ℕ → Bool)
      → (ℕ → Option ℕ)
      → ℕ
      → Intake vt
      → Stream
      → Ended vt
  unfolding take_frame
  receive decode live stops zero t s = out_of_fuel
  receive decode live stops (suc fuel) t s = elim (read_lane s) [
    | err e ↦ broke e t
    | ok none ↦ detached t
    | ok (some (f, rest)) ↦ elim (take_frame decode (live t.frames) (stops t.frames) f t) [
      | goes_on t' ↦ receive decode live stops fuel t' rest
      | breaks_off t' ↦ write_failed t'
    ]
  ]
