-- ===== src/Audio/RoundTrip.antt =====
-- `unpack` reads back what `packet` laid out for its token, and nothing else.
use mux.Prelude.{
  ℕ, ◌+◌, ◌%◌, ◌^◌, ◌≤◌, ◌<◌, ◌≡◌, refl, sym, ap, ◌∙◌, List, ◌++◌, none, some, arith, if◌then◌else◌,
  ◌==◌, length, take, drop, to_le, from_le, length-append, length-to_le, All, IsByte,
  take-append-drop, length-take, All-take, length-drop, drop-drop, All-drop, to_le-from_le_at,
}
use mux.Audio.{max_pcm, header, max_packet, packet, Packet, unpack}

pub packet-eq_some :
    (token epoch position : ℕ) (pcm : List ℕ) {datagram : List ℕ}
    → packet token epoch position pcm ≡ some datagram
    → (datagram ≡ to_le 8 token ++ (to_le 8 epoch ++ (to_le 8 position ++ pcm)))
      × (0 < length pcm)
      × (length pcm ≤ max_pcm)
      × (length pcm % 2 ≡ 0)
unfolding packet
packet-eq_some token epoch position pcm h = ground arith

module _ (token epoch position : ℕ) (pcm : List ℕ) where
  abbrev laid_out : List ℕ
  laid_out = to_le 8 token ++ (to_le 8 epoch ++ (to_le 8 position ++ pcm))

  length-laid_out : length laid_out ≡ header + length pcm
  length-laid_out = omega (
    arith,
    length-append (to_le 8 token) (to_le 8 epoch ++ (to_le 8 position ++ pcm)),
    length-append (to_le 8 epoch) (to_le 8 position ++ pcm),
    length-append (to_le 8 position) pcm,
    length-to_le 8 token,
    length-to_le 8 epoch,
    length-to_le 8 position,
  )

  fields_of_laid_out :
      token < 2 ^ 64
      → epoch < 2 ^ 64
      → position < 2 ^ 64
      → (from_le (take 8 laid_out) ≡ token)
        × (from_le (take 8 (drop 8 laid_out)) ≡ epoch)
        × (from_le (take 8 (drop 16 laid_out)) ≡ position)
        × (drop header laid_out ≡ pcm)
  unfolding to_le from_le
  fields_of_laid_out ht he hp = (omega arith, omega arith, omega arith, refl)

-- A packet is read back under its own token, as it was, and under no other.
pub unpack-packet :
    (token epoch position : ℕ) (pcm : List ℕ) (expected : ℕ) {datagram : List ℕ}
    → token < 2 ^ 64
    → epoch < 2 ^ 64
    → position < 2 ^ 64
    → packet token epoch position pcm ≡ some datagram
    → unpack datagram expected ≡ (
        if token == expected
        then some (record { epoch = epoch; position = position; pcm = pcm })
        else none)
unfolding unpack
unpack-packet token epoch position pcm expected {datagram} ht he hp h =
    let (out, pos, fits, even) = packet-eq_some token epoch position pcm h in
    let (ft, fe, fp, fd) = fields_of_laid_out token epoch position pcm ht he hp in
    rw (out, ft, fe, fp, fd, length-laid_out token epoch position pcm) (ground arith)

unpack-eq_some :
    (datagram : List ℕ) (token : ℕ) {p : Packet}
    → unpack datagram token ≡ some p
    → (header + 2 ≤ length datagram)
      × (length datagram ≤ max_packet)
      × (length datagram % 2 ≡ 0)
      × (from_le (take 8 datagram) ≡ token)
      × (p.epoch ≡ from_le (take 8 (drop 8 datagram)))
      × (p.position ≡ from_le (take 8 (drop 16 datagram)))
      × (p.pcm ≡ drop header datagram)
unfolding unpack
unpack-eq_some datagram token h = ground arith

module _ (datagram : List ℕ) (bytes : All IsByte datagram) (long : 24 ≤ length datagram) where
  field_at :
      (n : ℕ) → n + 8 ≤ 24 → to_le 8 (from_le (take 8 (drop n datagram))) ≡ take 8 (drop n datagram)
  field_at n h =
      to_le-from_le_at 8 (take 8 (drop n datagram))
        (All-take IsByte 8 (drop n datagram) (All-drop IsByte n datagram bytes))
        (omega (arith, length-take 8 (drop n datagram), length-drop n datagram))

  split_at : (n : ℕ) → take 8 (drop n datagram) ++ drop (n + 8) datagram ≡ drop n datagram
  split_at n =
      ap (◌++◌ (take 8 (drop n datagram))) (sym (drop-drop n 8 datagram))
      ∙ take-append-drop 8 (drop n datagram)

  fields_in_order :
      to_le 8 (from_le (take 8 (drop 0 datagram)))
        ++ (to_le 8 (from_le (take 8 (drop 8 datagram)))
            ++ (to_le 8 (from_le (take 8 (drop 16 datagram))) ++ drop 24 datagram))
      ≡ datagram
  fields_in_order =
      rw
        (
          field_at 0 (omega arith),
          field_at 8 (omega arith),
          field_at 16 (omega arith),
          split_at 16,
          split_at 8,
        )
        (split_at 0)

-- A datagram that `unpack` accepts is exactly the packet of its fields under that token.
pub packet-unpack :
    (datagram : List ℕ) (token : ℕ) {p : Packet}
    → All IsByte datagram
    → unpack datagram token ≡ some p
    → packet token p.epoch p.position p.pcm ≡ some datagram
unfolding packet
packet-unpack datagram token {p} bytes h =
    let (lo, hi, even, ft, fe, fp, fd) = unpack-eq_some datagram token h in
    let long : 24 ≤ length datagram = omega arith in
    rw (fe, fp, fd, ← ft)
      (ground (arith, fields_in_order datagram bytes long, length-drop 24 datagram))
