-- ===== src/Manager/Listing/Sorted.antt =====
-- What sorting by a name gives: the same elements, with their names in order.
use Prim.Native.Nat.{Ordering, compare as compare_ℕ}
use Prim.Native.Nat.compare as compare_ℕ
use Prim.Native.Char.{code}
use Prim.Native.String.{compare, then, [] as empty, ◌∷◌ as ◌∷ᶜ◌}
use Prim.Native.String.compare
use text.Mathlib.Text.{is_le}
use mathlib.Core.List.{Perm}
use mathlib.Core.List.Perm
use mux.Prelude.{
  ℕ, zero, suc, ◌≡◌, refl, sym, ap, ◌∙◌, inl, inr, true, false, List, [], ◌∷◌, String, Bool-cases,
}
use mux.Manager.Listing.{insert_by, sort_by}

-- The answer with the two sides exchanged.
abbrev flip : Ordering → Ordering
flip Ordering.lt = Ordering.gt
flip Ordering.eq = Ordering.eq
flip Ordering.gt = Ordering.lt

then-flip : (o r : Ordering) → flip (then o r) ≡ then (flip o) (flip r)
then-flip Ordering.lt r = refl
then-flip Ordering.eq r = refl
then-flip Ordering.gt r = refl

numbers-flip : (m n : ℕ) → compare_ℕ n m ≡ flip (compare_ℕ m n)
numbers-flip zero zero = compare_ℕ.zero-zero ∙ ap flip (sym compare_ℕ.zero-zero)
numbers-flip zero (suc n) = compare_ℕ.suc-zero n ∙ ap flip (sym (compare_ℕ.zero-suc n))
numbers-flip (suc m) zero = compare_ℕ.zero-suc m ∙ ap flip (sym (compare_ℕ.suc-zero m))
numbers-flip (suc m) (suc n) =
    compare_ℕ.suc-suc n m ∙ numbers-flip m n ∙ ap flip (sym (compare_ℕ.suc-suc m n))

names-flip : (s t : String) → compare t s ≡ flip (compare s t)
names-flip empty empty = compare.nil-nil ∙ ap flip (sym compare.nil-nil)
names-flip empty (d ∷ᶜ t) = compare.cons-nil d t ∙ ap flip (sym (compare.nil-cons d t))
names-flip (c ∷ᶜ s) empty = compare.nil-cons c s ∙ ap flip (sym (compare.cons-nil c s))
names-flip (c ∷ᶜ s) (d ∷ᶜ t) =
    compare.cons-cons d c t s
    ∙ ap (λ o. then o (compare t s)) (numbers-flip (code c) (code d))
    ∙ ap (then (flip (compare_ℕ (code c) (code d)))) (names-flip s t)
    ∙ sym (then-flip (compare_ℕ (code c) (code d)) (compare s t))
    ∙ ap flip (sym (compare.cons-cons c d s t))

flip-le : (o : Ordering) → is_le o ≡ false → is_le (flip o) ≡ true
flip-le Ordering.lt h = absurd (cc h)
flip-le Ordering.eq h = absurd (cc h)
flip-le Ordering.gt h = refl

-- Of two names one is not behind the other.
other_way : (s t : String) → is_le (compare s t) ≡ false → is_le (compare t s) ≡ true
other_way s t h = ap is_le (names-flip s t) ∙ flip-le (compare s t) h

module _ {ℓ} {A : Type ℓ} (name : A → String) where
  -- Each name is not behind the next.
  abbrev pub InOrder : List A → Type 0
  InOrder [] = Unit
  InOrder (x ∷ []) = Unit
  InOrder (x ∷ y ∷ xs) = (is_le (compare (name x) (name y)) ≡ true) × InOrder (y ∷ xs)

  insert_by-InOrder_behind :
      (y x : A) (ys : List A)
      → is_le (compare (name y) (name x)) ≡ true
      → InOrder (y ∷ ys)
      → InOrder (y ∷ insert_by name x ys)
  unfolding insert_by
  insert_by-InOrder_behind y x [] h sorted = (h, tt)
  insert_by-InOrder_behind y x (z ∷ zs) h sorted =
      elim (Bool-cases (is_le (compare (name x) (name z)))) [
        | inl before ↦ rw (before, insert_by) (h, (before, sorted.1))
        | inr behind ↦
            rw (behind, insert_by)
              (
                sorted.0,
                insert_by-InOrder_behind z x zs (other_way (name x) (name z) behind) sorted.1,
              )
      ]

  insert_by-InOrder : (x : A) (ys : List A) → InOrder ys → InOrder (insert_by name x ys)
  unfolding insert_by
  insert_by-InOrder x [] sorted = tt
  insert_by-InOrder x (y ∷ ys) sorted = elim (Bool-cases (is_le (compare (name x) (name y)))) [
    | inl before ↦ rw (before, insert_by) (before, sorted)
    | inr behind ↦
        rw (behind, insert_by)
          (insert_by-InOrder_behind y x ys (other_way (name x) (name y) behind) sorted)
  ]

  pub sort_by-InOrder : (xs : List A) → InOrder (sort_by name xs)
  unfolding sort_by
  sort_by-InOrder [] = tt
  sort_by-InOrder (x ∷ xs) = insert_by-InOrder x (sort_by name xs) (sort_by-InOrder xs)

  insert_by-perm : (x : A) (ys : List A) → Perm (insert_by name x ys) (x ∷ ys)
  unfolding insert_by
  insert_by-perm x [] = Perm.refl (x ∷ [])
  insert_by-perm x (y ∷ ys) = elim (Bool-cases (is_le (compare (name x) (name y)))) [
    | inl before ↦ rw (before, insert_by) (Perm.refl (x ∷ y ∷ ys))
    | inr behind ↦
        rw (behind, insert_by) (Perm.trans (Perm.cons y (insert_by-perm x ys)) (Perm.swap x y ys))
  ]

  pub sort_by-perm : (xs : List A) → Perm (sort_by name xs) xs
  unfolding sort_by
  sort_by-perm [] = Perm.refl []
  sort_by-perm (x ∷ xs) =
      Perm.trans (insert_by-perm x (sort_by name xs)) (Perm.cons x (sort_by-perm xs))
