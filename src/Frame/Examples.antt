-- ===== src/Frame/Examples.antt =====
-- The envelopes at concrete frames: the layouts of the source's own tests, and the theorems there.
use mux.Prelude.{
  ℕ, ◌+◌, ◌≡◌, refl, false, List, [], ◌∷◌, ◌++◌, some, none, take, arith, if◌then◌else◌, ltb, to_le,
  from_le,
}
use mux.Frame.{
  ok, err, unexpected_eof, invalid_data, stream, header_len, encode, encode_message, parse_header,
  parse_message_len, write_lane, read_lane, write_message, read_exact, max_request_bytes,
}
use mux.Frame.RoundTrip.{read_lane-write_lane}
use mux.Frame.Canonical.{read_lane-canonical}
use mux.Frame.Truncation.{read_lane_truncated}

abbrev hello : List ℕ
hello = b'h' ∷ b'e' ∷ b'l' ∷ b'l' ∷ b'o' ∷ []

wire_layout_is_exact : encode 2 hello ≡ ok (6 ∷ 0 ∷ 0 ∷ 0 ∷ 2 ∷ hello)
unfolding encode to_le
wire_layout_is_exact = refl

message_layout_is_exact : encode_message hello ≡ ok (5 ∷ 0 ∷ 0 ∷ 0 ∷ hello)
unfolding encode_message to_le
message_layout_is_exact = refl

rejects_bad_lengths :
    (parse_header (0 ∷ 0 ∷ 0 ∷ 0 ∷ 0 ∷ []) ≡ err invalid_data)
    × (parse_message_len (to_le 4 (max_request_bytes + 1)) ≡ err invalid_data)
unfolding parse_header parse_message_len to_le from_le
rejects_bad_lengths = (refl, refl)

written_hello : write_lane (9 ∷ []) 2 hello ≡ ok (9 ∷ 6 ∷ 0 ∷ 0 ∷ 0 ∷ 2 ∷ hello)
unfolding write_lane encode to_le
written_hello = refl

read_lane-write_lane_example :
    (frame : List ℕ) × (9 ∷ 6 ∷ 0 ∷ 0 ∷ 0 ∷ 2 ∷ hello ≡ (9 ∷ []) ++ frame)
    × (read_lane (record { bytes = frame ++ (7 ∷ []); broken = false })
        ≡ ok (some ((2, hello), record { bytes = 7 ∷ []; broken = false })))
read_lane-write_lane_example = read_lane-write_lane (9 ∷ []) 2 hello (7 ∷ []) false written_hello

message_written : write_message [] hello ≡ ok (5 ∷ 0 ∷ 0 ∷ 0 ∷ hello)
unfolding write_message encode_message to_le
message_written = refl

hello_read :
    read_lane (stream (6 ∷ 0 ∷ 0 ∷ 0 ∷ 2 ∷ hello ++ (7 ∷ [])))
    ≡ ok (some ((2, hello), stream (7 ∷ [])))
unfolding read_lane read_exact parse_header from_le
hello_read = refl

read_lane-canonical_example :
    (frame : List ℕ) × (encode 2 hello ≡ ok frame)
    × (6 ∷ 0 ∷ 0 ∷ 0 ∷ 2 ∷ hello ++ (7 ∷ []) ≡ frame ++ (7 ∷ []))
    × (false ≡ false)
read_lane-canonical_example =
    read_lane-canonical (stream (6 ∷ 0 ∷ 0 ∷ 0 ∷ 2 ∷ hello ++ (7 ∷ []))) (omega arith) hello_read

read_lane_truncated_example :
    read_lane (stream (take 3 (6 ∷ 0 ∷ 0 ∷ 0 ∷ 2 ∷ hello)))
    ≡ (if ltb 3 header_len then ok none else err unexpected_eof)
read_lane_truncated_example = read_lane_truncated 2 hello 3 wire_layout_is_exact (omega arith)
