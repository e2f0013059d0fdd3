-- ===== src/Audio/Examples.antt =====
-- Packets and sequences at concrete inputs: the source's own tests, and the theorems there.
use mux.Prelude.{ℕ, ◌^◌, ◌-◌, ◌≡◌, refl, List, [], ◌∷◌, some, none, to_le, from_le}
use mux.Audio.{packet, unpack, fresh, accept}
use mux.Audio.Order.{Media, played, InOrder, played-InOrder}

abbrev pcm : List ℕ
pcm = 1 ∷ 2 ∷ 3 ∷ 4 ∷ []

abbrev datagram : List ℕ
datagram =
    7 ∷ 0 ∷ 0 ∷ 0 ∷ 0 ∷ 0 ∷ 0 ∷ 0 ∷ 1 ∷ 0 ∷ 0 ∷ 0 ∷ 0 ∷ 0 ∷ 0 ∷ 0 ∷ 224 ∷ 1 ∷ 0 ∷ 0 ∷ 0 ∷ 0 ∷ 0 ∷ 0
    ∷ pcm

datagram_sent : packet 7 1 480 pcm ≡ some datagram
unfolding packet to_le
datagram_sent = refl

datagram_read : unpack datagram 7 ≡ some (record { epoch = 1; position = 480; pcm = pcm })
unfolding unpack from_le
datagram_read = refl

odd_pcm_refused : packet 7 1 0 (1 ∷ []) ≡ none
unfolding packet
odd_pcm_refused = refl

abbrev media : ℕ → ℕ → Media
media epoch position = record { epoch = epoch; position = position; count = 480 }

abbrev arrivals : List Media
arrivals =
    media 1 480
    ∷ media 1 480
    ∷ media 1 0
    ∷ media 1 1440
    ∷ media 1 (2 ^ 64 - 1)
    ∷ media 2 0
    ∷ media 1 1920
    ∷ []

sequence_does_not_replay_or_wrap :
    played fresh arrivals ≡ media 1 480 ∷ media 1 1440 ∷ media 2 0 ∷ []
unfolding played accept
sequence_does_not_replay_or_wrap = refl

played-InOrder_example : InOrder (played fresh arrivals)
played-InOrder_example = played-InOrder arrivals fresh
