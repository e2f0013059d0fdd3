-- ===== src/Server/Forward.antt =====
-- server.rs: what a client reads on the stream is what it was sent, in order.
use mathlib.Core.Path.{subst, ap₂}
use mux.Prelude.{
  ℕ, zero, suc, ◌≡◌, refl, sym, ap, ◌∙◌, Bool, false, List, [], ◌∷◌, ◌++◌, map, none, some, String,
  length, append_assoc, append-nil, ◌⊎◌, inl, inr,
}
use mux.Frame.{
  Result, ok, err, IoError, unexpected_eof, Stream, read_lane, write_lane, out_lane_opened,
  out_lane_output,
}
use mux.Frame.RoundTrip.{read_lane-write_lane}
use mux.Peer.{attached, ServerEvent}
use mux.Peer as peer
use mux.Session.{ClientMsg, output, exit, foreground}
use mux.Server.{Wire, accepts}
use mux.Server.Outgoing.{frame_of, write_frame, forward, handle_open}

-- A client that reads `n` frames.
unfoldable pub read_frames : ℕ → Stream → Result (List (ℕ × List ℕ) × Stream)
read_frames zero s = ok ([], s)
read_frames (suc n) s = elim (read_lane s) [
  | err e ↦ err e
  | ok none ↦ err unexpected_eof
  | ok (some (f, rest)) ↦ elim (read_frames n rest) [
    | err e ↦ err e
    | ok (fs, end) ↦ ok (f ∷ fs, end)
  ]
]

-- `written` is `out` and then the bytes that `fs` are read back from.
pub record Carries (out written : List ℕ) (fs : List (ℕ × List ℕ)) : Type 0 where
  pub body : List ℕ
  pub whole : written ≡ out ++ body
  pub reads :
      (rest : List ℕ) (b : Bool)
      → read_frames (length fs) (record { bytes = body ++ rest; broken = b })
        ≡ ok (fs, record { bytes = rest; broken = b })

pub Result-cases {ℓ} :
    {A : Type ℓ} (r : Result A) → ((a : A) × (r ≡ ok a)) ⊎ ((e : IoError) × (r ≡ err e))
Result-cases (ok a) = inl (a, refl)
Result-cases (err e) = inr (e, refl)

pub ok_injective {ℓ} : {A : Type ℓ} {a b : A} → ok a ≡ ok b → a ≡ b
ok_injective h = cc

pub Carries-nil : (out : List ℕ) → Carries out out []
unfolding read_frames
Carries-nil out = record { body = []; whole = sym (append-nil out); reads = λ rest b. refl }

append_cancel : (xs : List ℕ) {ys zs : List ℕ} → xs ++ ys ≡ xs ++ zs → ys ≡ zs
append_cancel [] h = h
append_cancel (x ∷ xs) h = append_cancel xs (cc)

-- One more frame in front.
pub Carries-cons :
    (out middle written : List ℕ) (lane : ℕ) (payload : List ℕ) (fs : List (ℕ × List ℕ))
    → write_lane out lane payload ≡ ok middle
    → Carries middle written fs
    → Carries out written ((lane, payload) ∷ fs)
unfolding read_frames
Carries-cons out middle written lane payload fs h c =
    let (frame, same, first) = read_lane-write_lane out lane payload [] false h in
    record {
      body = frame ++ c.body;
      whole = c.whole ∙ ap (λ xs. xs ++ c.body) same ∙ append_assoc out frame c.body;
      reads = λ rest b.
          let (frame', same', next) = read_lane-write_lane out lane payload (c.body ++ rest) b h in
          let one : frame ≡ frame' = append_cancel out (sym same ∙ same') in
          rw (one, append_assoc frame' c.body rest, next, c.reads rest b, read_frames) refl;
    }

forward-Carries :
    (w : Wire) (ms : List ClientMsg) (out written : List ℕ)
    → forward w ms out ≡ ok written
    → Carries out written (map (frame_of w) ms)
unfolding forward
forward-Carries w [] out written h = rw (← ok_injective h) (Carries-nil out)
forward-Carries w (m ∷ ms) out written h = elim (Result-cases (write_frame out (frame_of w m))) [
  | inr (e, bad) ↦ absurd (cc (rw bad at h))
  | inl (middle, good) ↦
      Carries-cons out middle written (frame_of w m).0 (frame_of w m).1 (map (frame_of w) ms) good
        (forward-Carries w ms middle written (rw good at h))
]

-- The frames of a client that attached.
abbrev pub session_frames : Wire → String → Bool → List ℕ → List ClientMsg → List (ℕ × List ℕ)
session_frames w name created dump ms =
    (out_lane_opened, w.encode_reply (accepts (attached name created)))
    ∷ (out_lane_output, dump)
    ∷ map (frame_of w) ms

handle_open-Carries :
    (w : Wire) (name : String) (created : Bool) (dump : List ℕ) (ms : List ClientMsg)
    (written : List ℕ)
    → handle_open w name created dump ms ≡ ok written
    → Carries [] written (session_frames w name created dump ms)
unfolding handle_open
handle_open-Carries w name created dump ms written h =
    elim (Result-cases
      (write_lane [] out_lane_opened (w.encode_reply (accepts (attached name created))))) [
        | inr (e, bad) ↦ absurd (cc (rw (bad, handle_open) at h))
        | inl (opening, good) ↦ elim (Result-cases (write_lane opening out_lane_output dump)) [
          | inr (e, bad) ↦ absurd (cc (rw (good, bad, handle_open) at h))
          | inl (replay, sent) ↦ Carries-cons [] opening written _ _ _ good (
              Carries-cons opening replay written _ _ _ sent
                (forward-Carries w ms replay written (rw (good, sent, handle_open) at h)))
        ]
      ]

-- The frames of the protocol: lane 0 has the answer, lane 1 output, and lane 2 events.
abbrev pub sent_as : (ServerEvent → List ℕ) → ClientMsg → ℕ × List ℕ
sent_as encode (output bytes) = (1, bytes)
sent_as encode (exit code) = (2, encode (peer.exit code))
sent_as encode (foreground name) = (2, encode (peer.foreground name))

abbrev pub expected : Wire → String → Bool → List ℕ → List ClientMsg → List (ℕ × List ℕ)
expected w name created dump ms =
    (0, w.encode_reply (accepts (attached name created)))
    ∷ (1, dump)
    ∷ map (sent_as w.encode_event) ms

frame_of-sent_as : (w : Wire) (m : ClientMsg) → frame_of w m ≡ sent_as w.encode_event m
frame_of-sent_as w (output bytes) = refl
frame_of-sent_as w (exit code) = refl
frame_of-sent_as w (foreground name) = refl

frames-sent_as :
    (w : Wire) (ms : List ClientMsg) → map (frame_of w) ms ≡ map (sent_as w.encode_event) ms
frames-sent_as w [] = refl
frames-sent_as w (m ∷ ms) = ap₂ ◌∷◌ (frame_of-sent_as w m) (frames-sent_as w ms)

session_frames-expected :
    (w : Wire) (name : String) (created : Bool) (dump : List ℕ) (ms : List ClientMsg)
    → session_frames w name created dump ms ≡ expected w name created dump ms
session_frames-expected w name created dump ms =
    ap
      (λ fs.
        (out_lane_opened, w.encode_reply (accepts (attached name created)))
        ∷ (out_lane_output, dump)
        ∷ fs)
      (frames-sent_as w ms)

-- What `handle_open` wrote is read as its frames, and then whatever follows on the stream.
pub frames_read :
    (w : Wire) (name : String) (created : Bool) (dump : List ℕ) (ms : List ClientMsg)
    (rest : List ℕ) (b : Bool) (written : List ℕ)
    → handle_open w name created dump ms ≡ ok written
    → read_frames
        (length (session_frames w name created dump ms))
        (record { bytes = written ++ rest; broken = b })
      ≡ ok (session_frames w name created dump ms, record { bytes = rest; broken = b })
frames_read w name created dump ms rest b written h =
    let c = handle_open-Carries w name created dump ms written h in rw (c.whole) (c.reads rest b)

-- A client that attached reads, frame by frame, the answer on lane 0, the dump on lane 1, and every
-- message that its channel took, in order: outputs as they are on lane 1, and exits and foreground
-- programs as events on lane 2. Then it reads whatever follows on the stream.
pub read_frames-handle_open :
    (w : Wire) (name : String) (created : Bool) (dump : List ℕ) (ms : List ClientMsg)
    (rest : List ℕ) (b : Bool) (written : List ℕ)
    → handle_open w name created dump ms ≡ ok written
    → read_frames
        (length (expected w name created dump ms))
        (record { bytes = written ++ rest; broken = b })
      ≡ ok (expected w name created dump ms, record { bytes = rest; broken = b })
read_frames-handle_open w name created dump ms rest b written h =
    subst
      (λ fs.
        read_frames (length fs) (record { bytes = written ++ rest; broken = b })
        ≡ ok (fs, record { bytes = rest; broken = b }))
      (session_frames-expected w name created dump ms)
      (frames_read w name created dump ms rest b written h)
