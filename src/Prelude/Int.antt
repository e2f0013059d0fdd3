-- ===== src/Prelude/Int.antt =====
-- Signed numbers: Rust's `i32` as it is used for process ids and exit codes.
use Prim.Native.Nat.{ℕ, zero, suc}
use mathlib.Core.Path.{◌≡◌, refl}
use mathlib.Core.Bool.{Bool, true, false}
use native.Mathlib.Omega.{arith}
use mux.Prelude.Tests.{ltb}

-- `negsuc n` is -(n + 1).
pub data ℤ : Type 0 where
  pos : ℕ → ℤ
  negsuc : ℕ → ℤ

abbrev pub is_positive : ℤ → Bool
is_positive (pos zero) = false
is_positive (pos (suc n)) = true
is_positive (negsuc n) = false

-- `<` on `i32`
unfoldable pub less : ℤ → ℤ → Bool
less (pos m) (pos n) = ltb m n
less (pos m) (negsuc n) = false
less (negsuc m) (pos n) = true
less (negsuc m) (negsuc n) = ltb n m

pub less_trans : (a b c : ℤ) → less a b ≡ true → less b c ≡ true → less a c ≡ true
unfolding less
less_trans (pos m) (pos n) (pos k) p q = ground arith
less_trans (negsuc m) (negsuc n) (negsuc k) p q = ground arith
less_trans (negsuc m) _ (pos k) p q = refl
less_trans (pos m) (negsuc n) c p q = absurd (cc)
less_trans a (pos n) (negsuc k) p q = absurd (cc)

-- What is no more than a lesser number is less.
pub less_of_not_less : (a b c : ℤ) → less b a ≡ false → less b c ≡ true → less a c ≡ true
unfolding less
less_of_not_less (pos m) (pos n) (pos k) p q = ground arith
less_of_not_less (negsuc m) (negsuc n) (negsuc k) p q = ground arith
less_of_not_less (negsuc m) b (pos k) p q = refl
less_of_not_less (pos m) (negsuc n) c p q = absurd (cc)
less_of_not_less a (pos n) (negsuc k) p q = absurd (cc)
