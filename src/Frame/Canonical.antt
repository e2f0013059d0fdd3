-- ===== src/Frame/Canonical.antt =====
-- `read_lane` accepts nothing but what `encode` lays out.
use mux.Prelude.{
  ℕ, ◌+◌, ◌<◌, ◌≡◌, refl, ◌∙◌, List, [], ◌∷◌, ◌++◌, some, append_assoc, arith, length, to_le,
  from_le, All, IsByte, to_le-from_le, take-append-drop, length-take, All-left,
}
use mathlib.Core.Path.{subst}
use mux.Frame.{
  Result, ok, err, invalid_data, ◌>>=◌, Stream, max_frame_size, header_len, encode, parse_header,
  read_exact, read_lane, read_body, unexpected_eof, device,
}
use mux.Frame.RoundTrip.{encode_lem}

-- What `read_exact` returned stood at the front of the stream.
pub read_exact-eq_ok :
    (n : ℕ) (s : Stream) {got : List ℕ} {s' : Stream}
    → read_exact n s ≡ ok (got, s')
    → (s.bytes ≡ got ++ s'.bytes) × (length got ≡ n) × (s'.broken ≡ s.broken)
unfolding read_exact
read_exact-eq_ok n s h = ground (arith, take-append-drop n s.bytes, length-take n s.bytes)

parse_header_parts :
    (a b c d l : ℕ) {lane n : ℕ}
    → parse_header (a ∷ b ∷ c ∷ d ∷ l ∷ []) ≡ ok (lane, n)
    → (n + 1 ≡ from_le (a ∷ b ∷ c ∷ d ∷ [])) × (lane ≡ l) × (n < max_frame_size)
unfolding parse_header
parse_header_parts a b c d l h = ground arith

-- The header of an accepted frame is the little-endian length and the lane, in full.
pub parse_header-eq_ok :
    (header : List ℕ) {lane n : ℕ}
    → All IsByte header
    → length header ≡ header_len
    → parse_header header ≡ ok (lane, n)
    → (header ≡ to_le 4 (n + 1) ++ lane ∷ []) × (n < max_frame_size)
parse_header-eq_ok (a ∷ b ∷ c ∷ d ∷ l ∷ []) (ha, (hb, (hc, (hd, _)))) len h =
    let (size, same, small) = parse_header_parts a b c d l h in
    let digits = to_le-from_le (a ∷ b ∷ c ∷ d ∷ []) (ha, (hb, (hc, (hd, tt)))) in
    (rw (size, same, digits), small)
parse_header-eq_ok [] bytes len h = absurd (omega arith)
parse_header-eq_ok (a ∷ []) bytes len h = absurd (omega arith)
parse_header-eq_ok (a ∷ b ∷ []) bytes len h = absurd (omega arith)
parse_header-eq_ok (a ∷ b ∷ c ∷ []) bytes len h = absurd (omega arith)
parse_header-eq_ok (a ∷ b ∷ c ∷ d ∷ []) bytes len h = absurd (omega arith)
parse_header-eq_ok (a ∷ b ∷ c ∷ d ∷ l ∷ e ∷ rest) bytes len h = absurd (omega arith)

pub record LaneParts (s : Stream) (lane : ℕ) (payload : List ℕ) (s' : Stream) : Type 0 where
  pub header : List ℕ
  pub s1 : Stream
  pub read_header : read_exact header_len s ≡ ok (header, s1)
  pub parsed : parse_header header ≡ ok (lane, length payload)
  pub read_payload : read_exact (length payload) s1 ≡ ok (payload, s')

after_payload :
    (s s1 : Stream) (header : List ℕ) (l n : ℕ) (r : Result (List ℕ × Stream)) {lane : ℕ}
    {payload : List ℕ} {s' : Stream}
    → read_exact header_len s ≡ ok (header, s1)
    → parse_header header ≡ ok (l, n)
    → read_exact n s1 ≡ r
    → read_body s1 (l, n) ≡ ok (some ((lane, payload), s'))
    → LaneParts s lane payload s'
after_payload s s1 header l n (err e) hh hp hr h = absurd (cc)
after_payload s s1 header l n (ok (p, s2)) hh hp hr h =
    let size = (read_exact-eq_ok n s1 hr).1 in
    record {
      header = header;
      s1 = s1;
      read_header = hh;
      parsed = ground (arith, size);
      read_payload = ground (arith, size);
    }

after_header :
    (s s1 : Stream) (header : List ℕ) (r : Result (ℕ × ℕ)) {lane : ℕ} {payload : List ℕ}
    {s' : Stream}
    → read_exact header_len s ≡ ok (header, s1)
    → parse_header header ≡ r
    → (r >>= read_body s1) ≡ ok (some ((lane, payload), s'))
    → LaneParts s lane payload s'
after_header s s1 header (err e) hh hp h = absurd (cc)
after_header s s1 header (ok (l, n)) hh hp h =
    after_payload s s1 header l n (read_exact n s1) hh hp refl h

read_lane-parts :
    (s : Stream) (r : Result (List ℕ × Stream)) {lane : ℕ} {payload : List ℕ} {s' : Stream}
    → read_exact header_len s ≡ r
    → read_lane s ≡ ok (some ((lane, payload), s'))
    → LaneParts s lane payload s'
unfolding read_lane
read_lane-parts s (err invalid_data) hr h = absurd (ground arith)
read_lane-parts s (err unexpected_eof) hr h = absurd (ground arith)
read_lane-parts s (err device) hr h = absurd (ground arith)
read_lane-parts s (ok (header, s1)) hr h =
    after_header s s1 header (parse_header header) hr refl (rw (hr, read_lane) at h)

regroup :
    {bytes front back : List ℕ} (xs ys zs rest : List ℕ)
    → bytes ≡ front ++ back
    → front ≡ xs ++ ys
    → back ≡ zs ++ rest
    → bytes ≡ (xs ++ (ys ++ zs)) ++ rest
regroup xs ys zs rest e f g = rw (e, f, g) (simp append_assoc)

-- A frame that `read_lane` returned is exactly the encoding of its lane and payload, which stood
-- at the front of the stream: no other bytes decode to it, and nothing is skipped or left over.
pub read_lane-canonical :
    (s : Stream) {lane : ℕ} {payload : List ℕ} {s' : Stream}
    → All IsByte s.bytes
    → read_lane s ≡ ok (some ((lane, payload), s'))
    → (frame : List ℕ) × (encode lane payload ≡ ok frame)
      × (s.bytes ≡ frame ++ s'.bytes)
      × (s'.broken ≡ s.broken)
read_lane-canonical s {lane} {payload} {s'} bytes h =
    let parts = read_lane-parts s (read_exact header_len s) refl h in
    let (front, size, b1) = read_exact-eq_ok header_len s parts.read_header in
    let (back, _, b2) = read_exact-eq_ok (length payload) parts.s1 parts.read_payload in
    let (header, small) =
      parse_header-eq_ok parts.header
        (All-left IsByte parts.header parts.s1.bytes (subst (All IsByte) front bytes)) size
        parts.parsed in
    (
      to_le 4 (length payload + 1) ++ lane ∷ payload,
      ground (arith, encode_lem lane payload),
      regroup (to_le 4 (length payload + 1)) (lane ∷ []) payload s'.bytes front header back,
      b2 ∙ b1,
    )
