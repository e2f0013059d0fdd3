-- ===== src/AudioRoute.antt =====
-- crates/muxd/src/audio.rs: one audio route, from the events of the Linux devices and the packets
-- of the Mac to what is sent, and the playing end on the Mac's side (`bridge`).
pub mod Clock
pub mod Delivery
pub mod Lease
mod Examples
use mux.Prelude.{
  ℕ, ◌+◌, ◌/◌, Bool, true, false, not, ◌||◌, ◌&&◌, List, [], ◌∷◌, ◌++◌, Option, none, some,
  if◌then◌else◌, ◌==◌, any, and_then, length, to_le,
}
use mux.Audio.{packet, unpack, Packet, Sequence, accept, fresh, checked_add_u64}

-- `audio::State`
pub record State : Type 0 where
  pub capture : Bool
  pub playback : Bool
  pub capture_epoch : ℕ
  pub playback_epoch : ℕ

pub data Event : Type 0 where
  running : ℕ → Bool → Bool → Event
  played : List ℕ → Event

-- The variables of the loop in `serve_route`. A client is a device's number and whether it captures.
pub record Serving : Type 0 where
  pub state : State
  pub playback_position : ℕ
  pub clients : List (ℕ × Bool)
  pub sequence : Sequence

abbrev pub opened : Serving
opened = record {
  state = record { capture = false; playback = false; capture_epoch = 0; playback_epoch = 0 };
  playback_position = 0;
  clients = [];
  sequence = fresh;
}

abbrev same_kind : Bool → Bool → Bool
same_kind true b = b
same_kind false b = not b

-- `HashSet::remove` and `HashSet::insert`.
unfoldable pub remove_client : ℕ × Bool → List (ℕ × Bool) → List (ℕ × Bool)
remove_client (id, kind) [] = []
remove_client (id, kind) ((i, k) ∷ clients) =
    let rest = remove_client (id, kind) clients in
    if i == id && same_kind k kind then rest else (i, k) ∷ rest

unfoldable pub insert_client : ℕ × Bool → List (ℕ × Bool) → List (ℕ × Bool)
unfolding remove_client
insert_client client clients = client ∷ remove_client client clients

-- An epoch begins when its direction comes into use. No value: the counter would overflow, and the
-- route ends.
abbrev pub next_epoch : Bool → Bool → ℕ → Option ℕ
next_epoch before after epoch = if after && not before then checked_add_u64 epoch 1 else some epoch

abbrev captures : List (ℕ × Bool) → Bool
captures clients = any (λ (id, capture). capture) clients

abbrev plays : List (ℕ × Bool) → Bool
plays clients = any (λ (id, capture). not capture) clients

unfoldable pub set_running : List (ℕ × Bool) → Serving → Option Serving
set_running clients r =
    and_then (next_epoch r.state.capture (captures clients) r.state.capture_epoch) (λ ce.
      and_then (next_epoch r.state.playback (plays clients) r.state.playback_epoch) (λ pe.
        some (record r {
          clients = clients;
          playback_position =
              if plays clients && not r.state.playback then 0 else r.playback_position;
          state = record {
            capture = captures clients;
            playback = plays clients;
            capture_epoch = ce;
            playback_epoch = pe;
          };
        })))

-- The datagram that is sent, if there is one.
unfoldable pub on_playback : ℕ → List ℕ → Serving → Option (Serving × Option (List ℕ))
on_playback token pcm r = elim (packet token r.state.playback_epoch r.playback_position pcm) [
  | none ↦ some (r, none)
  | some datagram ↦
      and_then (checked_add_u64 r.playback_position (length pcm / 2))
        (λ position. some (record r { playback_position = position }, some datagram))
]

-- One event of the devices.
unfoldable pub on_event : ℕ → Event → Serving → Option (Serving × Option (List ℕ))
unfolding set_running on_playback insert_client
on_event token (running id capture on) r =
    and_then
      (set_running
        (if on
          then insert_client (id, capture) r.clients
          else remove_client (id, capture) r.clients)
        r)
      (λ next. some (next, none))
on_event token (played pcm) r = on_playback token pcm r

-- A datagram of the Mac: what is passed on to the devices that capture.
unfoldable pub on_datagram : ℕ → List ℕ → Serving → Serving × Option (List ℕ)
on_datagram token datagram r = elim (unpack datagram token) [
  | none ↦ (r, none)
  | some p ↦
      if r.state.capture && p.epoch == r.state.capture_epoch
      then (let (sequence, taken) = accept r.sequence p.epoch p.position (length p.pcm / 2) in
          (record r { sequence = sequence }, if taken then some p.pcm else none))
      else (r, none)
]

-- `playback` of `bridge`: what is handed to the driver, when the latest state names that epoch.
unfoldable pub on_packet : ℕ → ℕ → List ℕ → Sequence → Sequence × Option (List ℕ)
on_packet token playback_epoch datagram s = elim (unpack datagram token) [
  | none ↦ (s, none)
  | some p ↦
      if p.epoch == playback_epoch
      then (let (s', taken) = accept s p.epoch p.position (length p.pcm / 2) in
          (s', if taken then some (to_le 8 p.epoch ++ p.pcm) else none))
      else (s, none)
]
