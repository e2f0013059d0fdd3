-- ===== src/Frame/RoundTrip.antt =====
-- What `write_lane` and `write_message` lay out, `read_lane` and `read_message` read back.
use mux.Prelude.{
  true, ℕ, ◌+◌, ◌^◌, ◌≤◌, ◌<◌, ◌≡◌, refl, sym, ap, ◌∙◌, Bool, ◌&&◌, inl, inr, List, [], ◌∷◌, ◌++◌,
  some, append_assoc, arith, if◌then◌else◌, ltb, leb, length, take, get_or, to_le, from_le,
  length-append, length-to_le, from_le-to_le, take-length_append, drop-length_append, Bool-cases,
  ltb→lt,
}
use mux.Frame.{
  ok, err, invalid_data, max_frame_size, max_request_bytes, encode, parse_header, encode_message,
  parse_message_len, read_exact, write_lane, read_lane, write_message, read_message,
}

-- `encode` succeeds on exactly the payloads that leave room for the lane byte, and lays out the
-- length of both, the lane and the payload.
pub encode_lem :
    (lane : ℕ) (payload : List ℕ)
    → encode lane payload ≡ (
        if ltb (length payload) max_frame_size
        then ok (to_le 4 (length payload + 1) ++ lane ∷ payload)
        else err invalid_data)
unfolding encode
encode_lem lane payload = ground arith

pub encode-eq_ok :
    (lane : ℕ) (payload : List ℕ) {frame : List ℕ}
    → encode lane payload ≡ ok frame
    → (frame ≡ to_le 4 (length payload + 1) ++ lane ∷ payload) × (length payload < max_frame_size)
encode-eq_ok lane payload h = ground (arith, encode_lem lane payload)

pub encode_message_lem :
    (bytes : List ℕ)
    → encode_message bytes ≡ (
        if ltb 0 (length bytes) && leb (length bytes) max_request_bytes
        then ok (to_le 4 (length bytes) ++ bytes)
        else err invalid_data)
unfolding encode_message
encode_message_lem bytes = ground arith

-- A buffer's worth of bytes at the front of the stream is what `read_exact` takes.
pub read_exact-append :
    (xs ys : List ℕ) (b : Bool) (n : ℕ)
    → n ≡ length xs
    → read_exact n (record { bytes = xs ++ ys; broken = b })
      ≡ ok (xs, record { bytes = ys; broken = b })
unfolding read_exact
read_exact-append xs ys b n e =
    ground (arith, length-append xs ys, take-length_append xs ys n e, drop-length_append xs ys n e)

from_le_header : (len lane : ℕ) → len < 2 ^ 32 → from_le (take 4 (to_le 4 len ++ lane ∷ [])) ≡ len
from_le_header len lane h =
    ap from_le (take-length_append (to_le 4 len) (lane ∷ []) 4 (sym (length-to_le 4 len)))
    ∙ from_le-to_le 4 len h

lane_of_header : (len lane : ℕ) → get_or (to_le 4 len ++ lane ∷ []) 4 0 ≡ lane
unfolding to_le
lane_of_header len lane = refl

pub parse_header-encode :
    (n lane : ℕ) → n < max_frame_size → parse_header (to_le 4 (n + 1) ++ lane ∷ []) ≡ ok (lane, n)
unfolding parse_header
parse_header-encode n lane h =
    rw (from_le_header (n + 1) lane (omega arith), lane_of_header (n + 1) lane) (ground arith)

read_lane_laid_out :
    (lane : ℕ) (payload rest : List ℕ) (b : Bool)
    → length payload < max_frame_size
    → read_lane (record {
      bytes = (to_le 4 (length payload + 1) ++ lane ∷ []) ++ (payload ++ rest);
      broken = b;
    })
      ≡ ok (some ((lane, payload), record { bytes = rest; broken = b }))
unfolding read_lane
read_lane_laid_out lane payload rest b h = rw (
  read_exact-append (to_le 4 (length payload + 1) ++ lane ∷ []) (payload ++ rest) b 5 (
      omega (
        arith,
        length-append (to_le 4 (length payload + 1)) (lane ∷ []),
        length-to_le 4 (length payload + 1),
      )),
  read_lane,
  parse_header-encode (length payload) lane h,
  read_exact-append payload rest b (length payload) refl,
)

-- A frame that `write_lane` accepted, followed by anything, is read back as it was, and the
-- reader goes on behind it.
pub read_lane-write_lane :
    (out : List ℕ) (lane : ℕ) (payload rest : List ℕ) (b : Bool) {written : List ℕ}
    → write_lane out lane payload ≡ ok written
    → (frame : List ℕ) × (written ≡ out ++ frame)
      × (read_lane (record { bytes = frame ++ rest; broken = b })
          ≡ ok (some ((lane, payload), record { bytes = rest; broken = b })))
unfolding write_lane
read_lane-write_lane out lane payload rest b h =
    elim (Bool-cases (ltb (length payload) max_frame_size)) [
      | inl fits ↦ (
        to_le 4 (length payload + 1) ++ lane ∷ payload,
        ground (arith, encode_lem lane payload),
        rw (append_assoc (to_le 4 (length payload + 1)) (lane ∷ payload) rest) (
            rw (append_assoc (to_le 4 (length payload + 1)) (lane ∷ []) (payload ++ rest)) at
              (read_lane_laid_out lane payload rest b (ltb→lt _ _ fits))),
      )
      | inr big ↦ absurd (ground (arith, encode_lem lane payload))
    ]

pub parse_message_len-to_le :
    (n : ℕ) → 0 < n → n ≤ max_request_bytes → parse_message_len (to_le 4 n) ≡ ok n
unfolding parse_message_len
parse_message_len-to_le n pos fits = rw (from_le-to_le 4 n (omega arith)) (ground arith)

read_message_laid_out :
    (bytes rest : List ℕ) (b : Bool)
    → (ltb 0 (length bytes) && leb (length bytes) max_request_bytes) ≡ true
    → read_message (record { bytes = to_le 4 (length bytes) ++ (bytes ++ rest); broken = b })
      ≡ ok (bytes, record { bytes = rest; broken = b })
unfolding read_message
read_message_laid_out bytes rest b h = rw (
  read_exact-append (to_le 4 (length bytes)) (bytes ++ rest) b 4
      (sym (length-to_le 4 (length bytes))),
  parse_message_len-to_le (length bytes) (ground arith) (ground arith),
  read_exact-append bytes rest b (length bytes) refl,
)

-- A handshake message that `write_message` accepted, followed by anything, is read back as it
-- was, and the reader goes on behind it.
pub read_message-write_message :
    (out bytes rest : List ℕ) (b : Bool) {written : List ℕ}
    → write_message out bytes ≡ ok written
    → (message : List ℕ) × (written ≡ out ++ message)
      × (read_message (record { bytes = message ++ rest; broken = b })
          ≡ ok (bytes, record { bytes = rest; broken = b }))
unfolding write_message
read_message-write_message out bytes rest b h =
    elim (Bool-cases (ltb 0 (length bytes) && leb (length bytes) max_request_bytes)) [
      | inl fits ↦ (
        to_le 4 (length bytes) ++ bytes,
        ground (arith, encode_message_lem bytes),
        rw (append_assoc (to_le 4 (length bytes)) bytes rest)
            (read_message_laid_out bytes rest b fits),
      )
      | inr bad ↦ absurd (ground (arith, encode_message_lem bytes))
    ]
