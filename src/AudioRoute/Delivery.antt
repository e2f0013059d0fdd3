-- ===== src/AudioRoute/Delivery.antt =====
-- audio.rs: every datagram that a route sends is taken by the receiver that it arrives at.
use mux.Prelude.{
  ℕ, ◌/◌, ◌^◌, ◌<◌, ◌≡◌, refl, inl, inr, Bool, true, false, ◌&&◌, List, [], ◌∷◌, Option, none, some,
  length, Option-cases,
}
use mux.Audio.{unpack, Sequence, accept, fresh}
use mux.AudioRoute.{Event, Serving, opened, on_event}
use mux.AudioRoute.Clock.{InStep, opened-InStep, Follows, on_event-Follows}

abbrev add_some : Option (List ℕ) → List (List ℕ) → List (List ℕ)
add_some none ds = ds
add_some (some d) ds = d ∷ ds

-- What a route sends for its events, up to the overflow that would end it.
unfoldable pub send : ℕ → List Event → Serving → List (List ℕ)
send token [] r = []
send token (e ∷ es) r = elim (on_event token e r) [
  | none ↦ []
  | some (r', d) ↦ add_some d (send token es r')
]

-- The receiver accepts every datagram that arrives; the flags say which ones do.
unfoldable pub all_accepted : ℕ → Sequence → List (List ℕ) → List Bool → Bool
all_accepted token s [] arrives = true
all_accepted token s (d ∷ ds) [] = true
all_accepted token s (d ∷ ds) (false ∷ arrives) = all_accepted token s ds arrives
all_accepted token s (d ∷ ds) (true ∷ arrives) = elim (unpack d token) [
  | none ↦ false
  | some p ↦
      let (s', taken) = accept s p.epoch p.position (length p.pcm / 2) in
      taken && all_accepted token s' ds arrives
]

one_more :
    (token : ℕ) (ds : List (List ℕ)) (r' : Serving) (s : Sequence) (d : Option (List ℕ))
    (arrives : List Bool)
    → Follows token r' s d
    → ((s' : Sequence) (later : List Bool) → InStep r' s' → all_accepted token s' ds later ≡ true)
    → all_accepted token s (add_some d ds) arrives ≡ true
unfolding Follows all_accepted
one_more token ds r' s none arrives i rest = rest s arrives i
one_more token ds r' s (some d) [] sent rest = refl
one_more token ds r' s (some d) (false ∷ arrives) sent rest = rest s arrives sent.gets_lost
one_more token ds r' s (some d) (true ∷ arrives) sent rest =
    rw (sent.reads, sent.taken, all_accepted) (rest sent.after arrives sent.arrives)

sent-all_accepted :
    (token : ℕ) (es : List Event) (r : Serving) (s : Sequence) (arrives : List Bool)
    → token < 2 ^ 64
    → InStep r s
    → all_accepted token s (send token es r) arrives ≡ true
unfolding send all_accepted
sent-all_accepted token [] r s arrives small i = refl
sent-all_accepted token (e ∷ es) r s arrives small i = elim (Option-cases (on_event token e r)) [
  | inl over ↦ rw (over, send) refl
  | inr ((r', d), went) ↦
      rw (went, send)
        (one_more token (send token es r') r' s d arrives
          (on_event-Follows token e r r' s d small went i)
          (λ s' later i'. sent-all_accepted token es r' s' later small i'))
]

-- Whatever the devices of a route do, from its opening on, and whichever of its datagrams get lost
-- on the way: the filter at the other end accepts every datagram that arrives in order.
pub all_accepted-send :
    (token : ℕ) (es : List Event) (arrives : List Bool)
    → token < 2 ^ 64
    → all_accepted token fresh (send token es opened) arrives ≡ true
all_accepted-send token es arrives small =
    sent-all_accepted token es opened fresh arrives small opened-InStep
