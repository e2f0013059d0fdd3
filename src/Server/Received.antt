-- ===== src/Server/Received.antt =====
-- server.rs: the input of a client that attached, from its first frame to its departure.
use mux.Prelude.{
  ℕ, zero, suc, ◌<◌, ◌≡◌, refl, sym, ap, ◌∙◌, inl, inr, Bool, List, [], ◌∷◌, ◌++◌, Option, none,
  some, arith, length, append-nil, append_assoc, ◌==◌, Bool-cases, false, true, ◌⊎◌,
}
use mux.Frame.{ok, IoError, Stream, read_lane, in_lane_input, in_lane_control, stream}
use mux.Peer.{ClientControl, resize}
use mux.Terminal.{Ghostty}
use mux.Server.Forward.{ok_injective, read_frames}
use mux.Server.Incoming.{
  Intake, Ended, Taken, goes_on, breaks_off, detached, write_failed, broke, type_in, take_frame,
  receive, controlled,
}
use mux.Server.Frames.{
  given, all_written, given_cons, given_stop, write_frames, write_frames-Carries, nothing_left,
  read_frames_cons, length-read_frames,
}

module _ {vt : Ghostty} where
  Taken-cases :
      (r : Taken vt) → ((t : Intake vt) × (r ≡ goes_on t)) ⊎ ((t : Intake vt) × (r ≡ breaks_off t))
  Taken-cases (goes_on t) = inl (t, refl)
  Taken-cases (breaks_off t) = inr (t, refl)

  -- Frame by frame, up to a write that fails.
  unfoldable pub take_all :
      (List ℕ → Option ClientControl)
      → (ℕ → Bool)
      → (ℕ → Option ℕ)
      → List (ℕ × List ℕ)
      → Intake vt
      → Taken vt
  take_all decode live stops [] t = goes_on t
  take_all decode live stops (f ∷ fs) t =
      elim (take_frame decode (live t.frames) (stops t.frames) f t) [
        | goes_on t' ↦ take_all decode live stops fs t'
        | breaks_off t' ↦ breaks_off t'
      ]

  -- How a client's visit ends that departs after its frames.
  abbrev pub closing : Taken vt → Ended vt
  closing (goes_on t) = detached t
  closing (breaks_off t) = write_failed t

  abbrev pub intake_of : Taken vt → Intake vt
  intake_of (goes_on t) = t
  intake_of (breaks_off t) = t

  abbrev pub went_on : Taken vt → Bool
  went_on (goes_on t) = true
  went_on (breaks_off t) = false

  receive-read_frames :
      (decode : List ℕ → Option ClientControl) (live : ℕ → Bool) (stops : ℕ → Option ℕ) (fuel : ℕ)
      (fs : List (ℕ × List ℕ)) (t : Intake vt) (s end : Stream)
      → length fs < fuel
      → read_frames (length fs) s ≡ ok (fs, end)
      → read_lane end ≡ ok none
      → receive decode live stops fuel t s ≡ closing (take_all decode live stops fs t)
  unfolding receive take_all read_frames
  receive-read_frames decode live stops zero fs t s end h reads gone = absurd (omega arith)
  receive-read_frames decode live stops (suc fuel) [] t s end h reads gone =
      let same : s ≡ end = cc (ok_injective reads) in rw (same, gone, receive) refl
  receive-read_frames decode live stops (suc fuel) (f ∷ fs) t s end h reads gone =
      let (rest, first, others) = read_frames_cons (length fs) s end f fs reads in
      elim (Taken-cases (take_frame decode (live t.frames) (stops t.frames) f t)) [
        | inl (t', on) ↦
            rw (first, on, receive, take_all)
              (receive-read_frames decode live stops fuel fs t' rest end (omega arith) others gone)
        | inr (t', off) ↦ rw (first, off, receive, take_all) refl
      ]

  -- What a frame adds, and that it is counted.
  record Added (stop : Option ℕ) (f : ℕ × List ℕ) (t : Intake vt) (r : Taken vt) : Type 0 where
    counted : (intake_of r).frames ≡ suc t.frames
    typed : (intake_of r).typed ≡ t.typed ++ given (λ n. stop) 0 (f ∷ [])
    whole : went_on r ≡ all_written (λ n. stop) 0 (f ∷ [])

  controlled-same :
      (o : Option ClientControl) (live : Bool) (t : Intake vt)
      → ((controlled o live t).typed ≡ t.typed) × ((controlled o live t).frames ≡ suc t.frames)
  controlled-same none live t = (refl, refl)
  controlled-same (some (resize cols rows)) live t = (refl, refl)

  type_in-Added :
      (stop : Option ℕ) (lane : ℕ) (payload : List ℕ) (t : Intake vt)
      → (lane == in_lane_input) ≡ true
      → Added stop (lane, payload) t (type_in stop payload t)
  unfolding given all_written
  type_in-Added none lane payload t e = record {
    counted = refl;
    typed = rw e refl;
    whole = rw e refl;
  }
  type_in-Added (some n) lane payload t e = record {
    counted = refl;
    typed = rw e refl;
    whole = rw e refl;
  }

  passed-Added :
      (stop : Option ℕ) (lane : ℕ) (payload : List ℕ) (t t' : Intake vt)
      → (lane == in_lane_input) ≡ false
      → t'.typed ≡ t.typed
      → t'.frames ≡ suc t.frames
      → Added stop (lane, payload) t (goes_on t')
  unfolding given all_written
  passed-Added stop lane payload t t' e typed counted = record {
    counted = counted;
    typed = rw e (typed ∙ sym (append-nil t.typed));
    whole = rw e refl;
  }

  take_frame-Added :
      (decode : List ℕ → Option ClientControl) (live : Bool) (stop : Option ℕ) (lane : ℕ)
      (payload : List ℕ) (t : Intake vt)
      → Added stop (lane, payload) t (take_frame decode live stop (lane, payload) t)
  unfolding take_frame
  take_frame-Added decode live stop lane payload t = elim (Bool-cases (lane == in_lane_input)) [
    | inl typed ↦ rw (typed, take_frame) (type_in-Added stop lane payload t typed)
    | inr other ↦ elim (Bool-cases (lane == in_lane_control)) [
      | inl control ↦
          let (same, counted) = controlled-same (decode payload) live t in
          rw (other, control, take_frame) (passed-Added stop lane payload t _ other same counted)
      | inr unknown ↦
          rw (other, unknown, take_frame) (passed-Added stop lane payload t _ other refl refl)
    ]
  ]

  -- How a visit may end, for writes that fail as `stops` says.
  pub data Reason (stops : ℕ → Option ℕ) : Ended vt → Type 0 where
    departed : {t : Intake vt} → Reason stops (detached t)
    stream_error : {e : IoError} {t : Intake vt} → Reason stops (broke e t)
    failed_write : {t : Intake vt} (n k : ℕ) → stops n ≡ some k → Reason stops (write_failed t)

  take_all-given :
      (decode : List ℕ → Option ClientControl) (live : ℕ → Bool) (stops : ℕ → Option ℕ)
      (fs : List (ℕ × List ℕ)) (t : Intake vt)
      → ((intake_of (take_all decode live stops fs t)).typed ≡ t.typed ++ given stops t.frames fs)
        × (went_on (take_all decode live stops fs t) ≡ all_written stops t.frames fs)
  unfolding take_all given all_written
  take_all-given decode live stops [] t = (sym (append-nil t.typed), refl)
  take_all-given decode live stops ((lane, payload) ∷ fs) t =
      let a = take_frame-Added decode (live t.frames) (stops t.frames) lane payload t in
      elim (Taken-cases (take_frame decode (live t.frames) (stops t.frames) (lane, payload) t)) [
        | inl (t', on) ↦
            let added = rw on at a in
            let (cons, whole) = given_cons stops t.frames lane payload fs (sym added.whole) in
            let (typed, went) = take_all-given decode live stops fs t' in
            rw (on, take_all)
              (
                typed
                    ∙ ap (λ n. t'.typed ++ given stops n fs) added.counted
                    ∙ ap (λ xs. xs ++ given stops (suc t.frames) fs) added.typed
                    ∙ append_assoc t.typed _ _
                    ∙ ap (λ xs. t.typed ++ xs) (sym cons),
                went ∙ ap (λ n. all_written stops n fs) added.counted ∙ sym whole,
              )
        | inr (t', off) ↦
            let added = rw off at a in
            let (one, whole) = given_stop stops t.frames lane payload fs (sym added.whole) in
            rw (off, take_all) (added.typed ∙ ap (λ xs. t.typed ++ xs) (sym one), sym whole)
      ]

  -- A client that writes frames and then departs is taken in frame by frame, with as much fuel as
  -- there are bytes. Its pty is given the payloads of the input lane, in order and none but those,
  -- up to a write that fails, of which it is given the part that was taken; and the loop ends with
  -- that write, else with the client's departure. The session is what the frames make of it one
  -- after the other.
  pub receive-write_frames :
      (decode : List ℕ → Option ClientControl) (live : ℕ → Bool) (stops : ℕ → Option ℕ)
      (fs : List (ℕ × List ℕ)) (t : Intake vt) (written : List ℕ)
      → write_frames fs [] ≡ ok written
      → (receive decode live stops (suc (length written)) t (stream written)
          ≡ closing (take_all decode live stops fs t))
        × ((intake_of (take_all decode live stops fs t)).typed ≡ t.typed ++ given stops t.frames fs)
        × (went_on (take_all decode live stops fs t) ≡ all_written stops t.frames fs)
  receive-write_frames decode live stops fs t written h =
      let c = write_frames-Carries fs [] written h in
      let reads = rw (append-nil c.body, ← c.whole) at (c.reads [] false) in
      let fits = length-read_frames (length fs) (stream written) (stream []) fs refl reads in
      let (typed, went) = take_all-given decode live stops fs t in
      (
        receive-read_frames decode live stops (suc (length written)) fs t (stream written)
            (stream []) (omega (arith, fits)) reads nothing_left,
        typed,
        went,
      )
