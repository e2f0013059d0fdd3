-- ===== src/Frame.antt =====
-- crates/mux-proto/src/frame.rs: the two envelopes of the wire. A byte slice is a list of
-- numbers. A reader is the bytes that it still gives and what follows them: the end of the
-- stream, or a failure of the device.
pub mod RoundTrip
pub mod Canonical
pub mod Truncation
mod Examples
use mux.Prelude.{
  ℕ, ◌+◌, ◌-◌, ◌*◌, ◌^◌, Bool, ◌&&◌, ◌||◌, List, ◌∷◌, ◌++◌, Option, none, some, if◌then◌else◌, ltb,
  leb, ◌==◌, length, take, drop, get_or, to_le, from_le, keep_if, and_then,
}

abbrev pub max_frame_size : ℕ
max_frame_size = 64 * 1024 * 1024

abbrev pub max_request_bytes : ℕ
max_request_bytes = 1024 * 1024

-- The lane ids of the two directions.
abbrev pub in_lane_input : ℕ
in_lane_input = 0

abbrev pub in_lane_control : ℕ
in_lane_control = 1

abbrev pub out_lane_opened : ℕ
out_lane_opened = 0

abbrev pub out_lane_output : ℕ
out_lane_output = 1

abbrev pub out_lane_events : ℕ
out_lane_events = 2

abbrev pub header_len : ℕ
header_len = 5

-- `io::ErrorKind`, as far as the module tells errors apart.
pub data IoError : Type 0 where
  invalid_data unexpected_eof device : IoError

pub data Result {ℓ} (A : Type ℓ) : Type ℓ where
  ok : A → Result A
  err : IoError → Result A

infixl 5 ◌>>=◌
abbrev pub ◌>>=◌ {ℓ κ} : {A : Type ℓ} {B : Type κ} → Result A → (A → Result B) → Result B
ok a >>= f = f a
err e >>= f = err e

abbrev pub ok_or_invalid {ℓ} : {A : Type ℓ} → Option A → Result A
ok_or_invalid none = err invalid_data
ok_or_invalid (some a) = ok a

-- `usize` of the 64-bit machines that the daemon and its clients run on.
abbrev pub usize_bound : ℕ
usize_bound = 2 ^ 64

-- `u32::try_from` and `u32::checked_add`.
abbrev try_u32 : ℕ → Option ℕ
try_u32 n = if ltb n (2 ^ 32) then some n else none

abbrev checked_add_u32 : ℕ → ℕ → Option ℕ
checked_add_u32 a b = try_u32 (a + b)

payload_len : ℕ → Result ℕ
payload_len len = if ltb len usize_bound then ok len else err invalid_data

unfoldable pub encode : ℕ → List ℕ → Result (List ℕ)
encode lane payload = do
  len ← ok_or_invalid (
      keep_if (λ n. leb n max_frame_size)
        (and_then (try_u32 (length payload)) (λ n. checked_add_u32 n 1)))
  ok (to_le 4 len ++ lane ∷ payload)

-- The argument is an array of `header_len` bytes.
unfoldable pub parse_header : List ℕ → Result (ℕ × ℕ)
unfolding payload_len
parse_header bytes =
    let len = from_le (take 4 bytes) in
    if len == 0
    then err invalid_data
    else if ltb max_frame_size len
    then err invalid_data
    else do n ← payload_len (len - 1); ok (get_or bytes 4 0, n)

unfoldable pub encode_message : List ℕ → Result (List ℕ)
encode_message bytes = do
  len ← ok_or_invalid (keep_if (λ n. ltb 0 n && leb n max_request_bytes) (try_u32 (length bytes)))
  ok (to_le 4 len ++ bytes)

-- The argument is an array of four bytes.
unfoldable pub parse_message_len : List ℕ → Result ℕ
unfolding payload_len
parse_message_len bytes =
    let len = from_le bytes in
    if len == 0 || ltb max_request_bytes len then err invalid_data else payload_len len

pub record Stream : Type 0 where
  pub bytes : List ℕ
  pub broken : Bool

abbrev ending : Stream → IoError
ending s = if s.broken then device else unexpected_eof

-- `Read::read_exact` into a buffer of `n` bytes.
unfoldable pub read_exact : ℕ → Stream → Result (List ℕ × Stream)
read_exact n s =
    if leb n (length s.bytes)
    then ok (take n s.bytes, record s { bytes = drop n s.bytes })
    else err (ending s)

unfoldable pub write_lane : List ℕ → ℕ → List ℕ → Result (List ℕ)
write_lane out lane payload = do frame ← encode lane payload; ok (out ++ frame)

-- The payload behind a header that was parsed.
abbrev pub read_body : Stream → ℕ × ℕ → Result (Option ((ℕ × List ℕ) × Stream))
read_body s1 (lane, len) = do (payload, s2) ← read_exact len s1; ok (some ((lane, payload), s2))

-- `Ok(None)`: there is no frame, and no stream to read on from.
unfoldable pub read_lane : Stream → Result (Option ((ℕ × List ℕ) × Stream))
read_lane s = elim (read_exact header_len s) [
  | err unexpected_eof ↦ ok none
  | err e ↦ err e
  | ok (header, s1) ↦ parse_header header >>= read_body s1
]

unfoldable pub write_message : List ℕ → List ℕ → Result (List ℕ)
write_message out bytes = do message ← encode_message bytes; ok (out ++ message)

unfoldable pub read_message : Stream → Result (List ℕ × Stream)
read_message s = do (prefix, s1) ← read_exact 4 s; len ← parse_message_len prefix; read_exact len s1

-- A stream that ends in good order.
abbrev pub stream : List ℕ → Stream
stream bytes = record { bytes = bytes; broken = Bool.false }
