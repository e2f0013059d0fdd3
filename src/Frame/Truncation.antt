-- ===== src/Frame/Truncation.antt =====
-- What `read_lane` says of a stream that ends inside a frame.
use mux.Prelude.{
  ℕ, ◌+◌, ◌-◌, ◌≤◌, ◌<◌, ◌≡◌, sym, ap, ◌∙◌, false, inl, inr, List, [], ◌∷◌, ◌++◌, none,
  append_assoc, arith, if◌then◌else◌, ltb, length, take, to_le, length-append, length-to_le,
  Bool-cases, ltb→lt, length-take, take-append,
}
use mux.Frame.{
  ok, err, max_frame_size, header_len, encode, read_exact, read_lane, unexpected_eof, stream,
}
use mux.Frame.RoundTrip.{encode-eq_ok, read_exact-append, parse_header-encode}

-- Too few bytes are the end of the stream, or the failure behind them.
read_exact_short :
    (n : ℕ) (bytes : List ℕ) → length bytes < n → read_exact n (stream bytes) ≡ err unexpected_eof
unfolding read_exact
read_exact_short n bytes h = ground arith

read_lane_short : (bytes : List ℕ) → length bytes < header_len → read_lane (stream bytes) ≡ ok none
unfolding read_lane
read_lane_short bytes h = rw (read_exact_short header_len bytes h, read_lane)

read_lane_cut_payload :
    (lane : ℕ) (payload part : List ℕ)
    → length payload < max_frame_size
    → length part < length payload
    → read_lane (stream ((to_le 4 (length payload + 1) ++ lane ∷ []) ++ part)) ≡ err unexpected_eof
unfolding read_lane
read_lane_cut_payload lane payload part fits cut = rw (
  read_exact-append (to_le 4 (length payload + 1) ++ lane ∷ []) part false 5 (
      omega (
        arith,
        length-append (to_le 4 (length payload + 1)) (lane ∷ []),
        length-to_le 4 (length payload + 1),
      )),
  read_lane,
  parse_header-encode (length payload) lane fits,
  read_exact_short (length payload) part cut,
)

cut_in_payload :
    (lane : ℕ) (payload : List ℕ) (k : ℕ) {frame : List ℕ}
    → frame ≡ to_le 4 (length payload + 1) ++ lane ∷ payload
    → length payload < max_frame_size
    → k < length frame
    → header_len ≤ k
    → read_lane (stream (take k frame)) ≡ err unexpected_eof
cut_in_payload lane payload k {frame} laid_out fits cut late =
    let header = to_le 4 (length payload + 1) ++ lane ∷ [] in
    let whole : length header ≡ 5 = omega (
      arith,
      length-append (to_le 4 (length payload + 1)) (lane ∷ []),
      length-to_le 4 (length payload + 1),
    ) in
    let split : frame ≡ header ++ payload =
      laid_out ∙ sym (append_assoc (to_le 4 (length payload + 1)) (lane ∷ []) payload) in
    let rest = take (k - length header) payload in
    let cut_at : take k frame ≡ header ++ rest =
      ap (take k) split ∙ take-append header payload k (omega arith) in
    rw cut_at (
      read_lane_cut_payload lane payload rest fits (
        omega (
          arith,
          length-take (k - length header) payload,
          length-append header payload,
          ap length split,
        )))

-- A frame of which only the first `k` bytes arrive before the stream ends is an error when the
-- header is complete, and is taken for the end of the stream when it is not, also when some bytes
-- of the header have arrived.
pub read_lane_truncated :
    (lane : ℕ) (payload : List ℕ) (k : ℕ) {frame : List ℕ}
    → encode lane payload ≡ ok frame
    → k < length frame
    → read_lane (stream (take k frame)) ≡ (if ltb k header_len then ok none else err unexpected_eof)
read_lane_truncated lane payload k {frame} h cut =
    let (laid_out, fits) = encode-eq_ok lane payload h in
    elim (Bool-cases (ltb k header_len)) [
      | inl early ↦ rw early (
          read_lane_short (take k frame)
            (omega (arith, length-take k frame, ltb→lt k header_len early)))
      | inr late ↦ rw late (cut_in_payload lane payload k laid_out fits cut (ground arith))
    ]
