-- ===== src/Audio.antt =====
-- crates/mux-proto/src/audio.rs: audio datagrams and the filter for late ones. PCM is a list of
-- bytes; tokens, epochs and positions are `u64`.
pub mod RoundTrip
pub mod Order
mod Examples
use mux.Prelude.{
  ℕ, ◌+◌, ◌*◌, ◌%◌, ◌^◌, Bool, true, false, not, ◌||◌, ◌&&◌, List, ◌++◌, Option, none, some,
  if◌then◌else◌, ltb, leb, ◌==◌, length, take, drop, to_le, from_le, map_or,
}

abbrev pub samples : ℕ
samples = 480

abbrev pub max_pcm : ℕ
max_pcm = samples * 2

abbrev pub header : ℕ
header = 24

abbrev pub max_packet : ℕ
max_packet = header + max_pcm

-- `usize::is_multiple_of(2)`
abbrev is_even : ℕ → Bool
is_even n = n % 2 == 0

unfoldable pub packet : ℕ → ℕ → ℕ → List ℕ → Option (List ℕ)
packet token epoch position pcm =
    if length pcm == 0 || (ltb max_pcm (length pcm) || not (is_even (length pcm)))
    then none
    else some (to_le 8 token ++ (to_le 8 epoch ++ (to_le 8 position ++ pcm)))

pub record Packet : Type 0 where
  pub epoch : ℕ
  pub position : ℕ
  pub pcm : List ℕ

-- The slices are in range behind the test of the length, so `try_into` does not fail.
unfoldable pub unpack : List ℕ → ℕ → Option Packet
unpack data' token =
    if not (leb (header + 2) (length data') && leb (length data') max_packet)
      || not (is_even (length data'))
    then none
    else let found = from_le (take 8 data') in
      let epoch = from_le (take 8 (drop 8 data')) in
      let position = from_le (take 8 (drop 16 data')) in
      if found == token
      then some (record { epoch = epoch; position = position; pcm = drop header data' })
      else none

-- `end` is the position behind the last packet that was accepted.
pub record Sequence : Type 0 where
  pub epoch : ℕ
  pub end : Option ℕ

abbrev pub fresh : Sequence
fresh = record { epoch = 0; end = none }

abbrev pub checked_add_u64 : ℕ → ℕ → Option ℕ
checked_add_u64 a b = if ltb (a + b) (2 ^ 64) then some (a + b) else none

-- The part behind the test of the epoch.
admit : Sequence → ℕ → ℕ → Sequence × Bool
admit s position end =
    if map_or false (λ previous. ltb position previous) s.end
    then (s, false)
    else (record s { end = some end }, true)

enter_epoch : Sequence → ℕ → Sequence
enter_epoch s epoch = if ltb s.epoch epoch then record { epoch = epoch; end = none } else s

unfoldable pub accept : Sequence → ℕ → ℕ → ℕ → Sequence × Bool
unfolding admit enter_epoch
accept s epoch position count = elim (checked_add_u64 position count) [
  | none ↦ (s, false)
  | some end ↦ if ltb epoch s.epoch then (s, false) else admit (enter_epoch s epoch) position end
]
