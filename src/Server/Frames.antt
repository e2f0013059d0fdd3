-- ===== src/Server/Frames.antt =====
-- What reading and writing frame by frame does to the bytes of a stream.
use mux.Prelude.{
  ℕ, zero, suc, ◌-◌, ◌≤◌, ◌<◌, ◌≡◌, ◌≢◌, refl, ap, ◌∙◌, inl, inr, List, [], ◌∷◌, none, some, arith,
  length, length-drop, ◌==◌, Option-cases, Bool-cases, if◌then◌else◌, Option, Bool, true, false,
  ◌++◌, take,
}
use mux.Frame.{
  Result, invalid_data, device, ok, err, ◌>>=◌, IoError, unexpected_eof, Stream, read_exact,
  read_lane, read_body, parse_header, header_len, in_lane_input, write_lane, stream,
}
use mux.Server.Forward.{Result-cases, ok_injective, read_frames, Carries, Carries-nil, Carries-cons}
use mux.Server.Outgoing.{write_frame}

read_exact-length :
    (n : ℕ) (s s' : Stream) (xs : List ℕ)
    → read_exact n s ≡ ok (xs, s')
    → (n ≤ length s.bytes) × (length s'.bytes ≡ length s.bytes - n)
unfolding read_exact
read_exact-length n s s' xs h = ground (arith, length-drop n s.bytes)

read_body-length :
    (s s' : Stream) (lane len : ℕ) (f : ℕ × List ℕ)
    → read_body s (lane, len) ≡ ok (some (f, s'))
    → length s'.bytes ≤ length s.bytes
read_body-length s s' lane len f h = elim (Result-cases (read_exact len s)) [
  | inr (e, bad) ↦ absurd (cc (rw bad at h))
  | inl ((payload, s2), good) ↦
      let same : s2 ≡ s' = cc (rw good at h) in
      omega
        (arith, read_exact-length len s s2 payload good, ap (λ (x : Stream). length x.bytes) same)
]

nothing_read :
    (s s' : Stream) (f : ℕ × List ℕ) (e : IoError)
    → read_exact header_len s ≡ err e
    → read_lane s ≢ ok (some (f, s'))
unfolding read_lane
nothing_read s s' f invalid_data bad h = cc (rw (bad, read_lane) at h)
nothing_read s s' f unexpected_eof bad h = cc (ok_injective (rw (bad, read_lane) at h))
nothing_read s s' f device bad h = cc (rw (bad, read_lane) at h)

-- What the pty is given of the frames from the one of that number on: the payloads of the input
-- lane, as far as its writes go.
unfoldable pub given : (ℕ → Option ℕ) → ℕ → List (ℕ × List ℕ) → List (List ℕ)
given stops n [] = []
given stops n ((lane, payload) ∷ fs) =
    let rest = given stops (suc n) fs in
    if lane == in_lane_input
    then elim (stops n) [ none ↦ payload ∷ rest | some k ↦ take k payload ∷ [] ]
    else rest

-- No write of those frames fails.
unfoldable pub all_written : (ℕ → Option ℕ) → ℕ → List (ℕ × List ℕ) → Bool
all_written stops n [] = true
all_written stops n ((lane, payload) ∷ fs) =
    let rest = all_written stops (suc n) fs in
    if lane == in_lane_input then elim (stops n) [ none ↦ rest | some k ↦ false ] else rest

-- The first of those frames, and the others if its write does not fail.
pub given_cons :
    (stops : ℕ → Option ℕ) (n lane : ℕ) (payload : List ℕ) (fs : List (ℕ × List ℕ))
    → all_written (λ k. stops n) 0 ((lane, payload) ∷ []) ≡ true
    → (given stops n ((lane, payload) ∷ fs)
        ≡ given (λ k. stops n) 0 ((lane, payload) ∷ []) ++ given stops (suc n) fs)
      × (all_written stops n ((lane, payload) ∷ fs) ≡ all_written stops (suc n) fs)
unfolding given all_written
given_cons stops n lane payload fs h = elim (Bool-cases (lane == in_lane_input)) [
  | inr other ↦ rw other (refl, refl)
  | inl typed ↦ elim (Option-cases (stops n)) [
    | inl well ↦ rw (typed, well) (refl, refl)
    | inr (k, stop) ↦ absurd (cc (rw (typed, stop) at h))
  ]
]

pub given_stop :
    (stops : ℕ → Option ℕ) (n lane : ℕ) (payload : List ℕ) (fs : List (ℕ × List ℕ))
    → all_written (λ k. stops n) 0 ((lane, payload) ∷ []) ≡ false
    → (given stops n ((lane, payload) ∷ fs) ≡ given (λ k. stops n) 0 ((lane, payload) ∷ []))
      × (all_written stops n ((lane, payload) ∷ fs) ≡ false)
unfolding given all_written
given_stop stops n lane payload fs h = elim (Bool-cases (lane == in_lane_input)) [
  | inr other ↦ absurd (cc (rw other at h))
  | inl typed ↦ elim (Option-cases (stops n)) [
    | inl well ↦ absurd (cc (rw (typed, well) at h))
    | inr (k, stop) ↦ rw (typed, stop) (refl, refl)
  ]
]

-- A frame that ends the loop is one whose write failed.
pub stopped :
    (stop : Option ℕ) (lane : ℕ) (payload : List ℕ)
    → all_written (λ n. stop) 0 ((lane, payload) ∷ []) ≡ false
    → (k : ℕ) × (stop ≡ some k)
unfolding all_written
stopped none lane payload h = absurd (ground (arith, h))
stopped (some k) lane payload h = (k, refl)

-- A frame takes bytes from the stream.
pub read_lane-length :
    (s s' : Stream) (f : ℕ × List ℕ)
    → read_lane s ≡ ok (some (f, s'))
    → length s'.bytes < length s.bytes
unfolding read_lane
read_lane-length s s' f h = elim (Result-cases (read_exact header_len s)) [
  | inr (e, bad) ↦ absurd (nothing_read s s' f e bad h)
  | inl ((header, s1), good) ↦ elim (Result-cases (parse_header header)) [
    | inr (e, bad) ↦ absurd (cc (rw (good, bad, read_lane) at h))
    | inl ((lane, len), parsed) ↦ omega (
      arith,
      read_exact-length header_len s s1 header good,
      read_body-length s1 s' lane len f (rw (good, parsed, read_lane) at h),
    )
  ]
]

-- A client that writes one frame after the other.
unfoldable pub write_frames : List (ℕ × List ℕ) → List ℕ → Result (List ℕ)
write_frames [] out = ok out
write_frames (f ∷ fs) out = do next ← write_frame out f; write_frames fs next

pub write_frames-Carries :
    (fs : List (ℕ × List ℕ)) (out written : List ℕ)
    → write_frames fs out ≡ ok written
    → Carries out written fs
unfolding write_frames
write_frames-Carries [] out written h = rw (← ok_injective h) (Carries-nil out)
write_frames-Carries ((lane, payload) ∷ fs) out written h =
    elim (Result-cases (write_lane out lane payload)) [
      | inr (e, bad) ↦ absurd (cc (rw bad at h))
      | inl (middle, good) ↦
          Carries-cons out middle written lane payload fs good
            (write_frames-Carries fs middle written (rw good at h))
    ]

pub nothing_left : read_lane (stream []) ≡ ok none
unfolding read_lane read_exact
nothing_left = refl

pub read_frames_cons :
    (n : ℕ) (s end : Stream) (f : ℕ × List ℕ) (fs : List (ℕ × List ℕ))
    → read_frames (suc n) s ≡ ok (f ∷ fs, end)
    → (rest : Stream) × (read_lane s ≡ ok (some (f, rest))) × (read_frames n rest ≡ ok (fs, end))
unfolding read_frames
read_frames_cons n s end f fs h = elim (Result-cases (read_lane s)) [
  | inr (e, bad) ↦ absurd (cc (rw (bad, read_frames) at h))
  | inl (r, good) ↦ elim (Option-cases r) [
    | inl gone ↦ absurd (cc (rw (good, gone, read_frames) at h))
    | inr ((g, rest), more) ↦ elim (Result-cases (read_frames n rest)) [
      | inr (e, bad) ↦ absurd (cc (rw (good, more, bad, read_frames) at h))
      | inl ((gs, last), there) ↦
          let same : (g ∷ gs, last) ≡ (f ∷ fs, end) =
            ok_injective (rw (good, more, there, read_frames) at h) in
          let head : g ≡ f = cc same in
          let tail : gs ≡ fs = cc same in
          let stop : last ≡ end = cc same in
          (
            rest,
            good ∙ ap ok more ∙ ap (λ x. ok (some (x, rest))) head,
            there ∙ ap (λ xs. ok (xs, last)) tail ∙ ap (λ x. ok (fs, x)) stop,
          )
    ]
  ]
]

pub length-read_frames :
    (n : ℕ) (s end : Stream) (fs : List (ℕ × List ℕ))
    → n ≡ length fs
    → read_frames n s ≡ ok (fs, end)
    → n ≤ length s.bytes
length-read_frames zero s end fs e h = omega arith
length-read_frames (suc n) s end [] e h = absurd (omega arith)
length-read_frames (suc n) s end (f ∷ fs) e h =
    let (rest, first, others) = read_frames_cons n s end f fs h in
    omega (
      arith,
      read_lane-length s rest f first,
      length-read_frames n rest end fs (omega arith) others,
    )
