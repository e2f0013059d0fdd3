-- ===== src/Audio/Order.antt =====
-- `Sequence::accept`: when a packet is accepted, and that accepted audio never goes back.
use mux.Prelude.{
  ℕ, ◌+◌, ◌^◌, ◌≤◌, ◌<◌, ◌≡◌, Bool, true, false, ◌⊎◌, inl, inr, List, [], ◌∷◌, some, arith,
  if◌then◌else◌, ltb, leb, ◌==◌, Bool-cases, All, All-imp, map_or, ◌&&◌, ◌||◌,
}
use mux.Audio.{Sequence, accept}

-- The samples of a packet: `count` of them from `position` on.
pub record Media : Type 0 where
  pub epoch : ℕ
  pub position : ℕ
  pub count : ℕ

abbrev pub offer : Sequence → Media → Sequence × Bool
offer s m = accept s m.epoch m.position m.count

-- The position from which packets of the epoch are still news.
abbrev pub horizon : Sequence → ℕ
horizon s = map_or 0 (λ end. end) s.end

-- A packet is accepted exactly when its end is a `u64` and it opens a later epoch, or continues
-- the current one at or behind the end of what was accepted. Only then does the state change: to
-- the packet's epoch and end.
pub accept_lem :
    (s : Sequence) (m : Media)
    → offer s m ≡ (
        if ltb (m.position + m.count) (2 ^ 64)
          && (ltb s.epoch m.epoch || (s.epoch == m.epoch && leb (horizon s) m.position))
        then (record { epoch = m.epoch; end = some (m.position + m.count) }, true)
        else (s, false))
unfolding accept
accept_lem s m = ground arith

-- What a receiver plays: the accepted packets of a stream, in order.
unfoldable pub played : Sequence → List Media → List Media
played s [] = []
played s (m ∷ ms) =
    let (s', good) = offer s m in let rest = played s' ms in if good then m ∷ rest else rest

-- `m` lies behind what `s` has accepted.
abbrev pub Behind : Sequence → Media → Type 0
Behind s m = (s.epoch < m.epoch) ⊎ ((s.epoch ≡ m.epoch) × (horizon s ≤ m.position))

-- `b` comes after `a`: in a later epoch, or in the same one behind the last sample of `a`.
abbrev pub Later : Media → Media → Type 0
Later a b = (a.epoch < b.epoch) ⊎ ((a.epoch ≡ b.epoch) × (a.position + a.count ≤ b.position))

abbrev pub InOrder : List Media → Type 0
InOrder [] = Unit
InOrder (m ∷ ms) = All (Later m) ms × InOrder ms

accept_cases :
    (s : Sequence) (m : Media)
    → (offer s m ≡ (s, false))
      ⊎ ((offer s m ≡ (record { epoch = m.epoch; end = some (m.position + m.count) }, true))
          × Behind s m)
accept_cases s m = elim (Bool-cases (offer s m).1) [
  | inl good ↦ inr (ground (arith, accept_lem s m), ground (arith, accept_lem s m))
  | inr bad ↦ inl (ground (arith, accept_lem s m))
]

-- What comes after an accepted packet is behind what was accepted before it.
Behind-trans :
    (s : Sequence) (m x : Media)
    → Behind s m
    → Behind (record { epoch = m.epoch; end = some (m.position + m.count) }) x
    → Behind s x
Behind-trans s m x h k = grind arith

played-Behind : (ms : List Media) (s : Sequence) → All (Behind s) (played s ms)
unfolding played
played-Behind [] s = tt
played-Behind (m ∷ ms) s = elim (accept_cases s m) [
  | inl bad ↦ rw bad (played-Behind ms s)
  | inr (good, behind) ↦ rw good (
    behind,
    All-imp _ (Behind s) (λ x. Behind-trans s m x behind) (played _ ms) (played-Behind ms _),
  )
]

-- Whatever packets arrive, and in whatever order, each one that is played lies in a later epoch
-- than all before it, or behind their last samples: no sample is played twice, and none late.
pub played-InOrder : (ms : List Media) (s : Sequence) → InOrder (played s ms)
unfolding played
played-InOrder [] s = tt
played-InOrder (m ∷ ms) s = elim (accept_cases s m) [
  | inl bad ↦ rw bad (played-InOrder ms s)
  | inr (good, behind) ↦ rw good (played-Behind ms _, played-InOrder ms _)
]
