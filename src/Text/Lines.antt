-- ===== src/Text/Lines.antt =====
-- Where a line starts: the byte offset that is counted from the lines, against the text itself.
use mux.Prelude.{
  ℕ, zero, suc, ◌+◌, ◌-◌, ◌≤◌, true, false, List, [], ◌∷◌, some, if◌then◌else◌, ◌==◌, take, ◌≡◌,
  refl, arith, ap, ◌∙◌, sym, ◌≢◌, min, le→leb, inl, inr, Bool-cases,
}
use mux.Text.{Text, width, len, newline, slice_from, slice_to, slice, lines, has_crlf, push_first}

-- Independent of `lines`: what follows the n-th line end, and what stands up to it.
unfoldable pub after_lines : ℕ → Text → Text
after_lines zero s = s
after_lines (suc n) [] = []
after_lines (suc n) (c ∷ s) =
    let rest = after_lines n s in
    let same = after_lines (suc n) s in if c == newline then rest else same

unfoldable pub before_lines : ℕ → Text → Text
before_lines zero s = []
before_lines (suc n) [] = []
before_lines (suc n) (c ∷ s) =
    let rest = before_lines n s in
    let same = before_lines (suc n) s in if c == newline then c ∷ rest else c ∷ same

-- The bytes that lines take, each with one more for its end.
unfoldable pub total : List Text → ℕ
total [] = 0
total (l ∷ ls) = len l + 1 + total ls

abbrev pub offset : ℕ → Text → ℕ
offset n s = min (total (take n (lines s))) (len s)

lines_cons :
    (c : ℕ) (s : Text)
    → has_crlf (c ∷ s) ≡ false
    → (c == newline) ≡ false
    → lines (c ∷ s) ≡ push_first c (lines s)
unfolding lines has_crlf
lines_cons c s h e = ground arith

push_first-nonempty : (c : ℕ) (ls : List Text) → push_first c ls ≢ []
push_first-nonempty c [] h = cc
push_first-nonempty c (l ∷ ls) h = cc

lines-newline-nonempty : (c : ℕ) (s : Text) → (c == newline) ≡ true → lines (c ∷ s) ≢ []
unfolding lines
lines-newline-nonempty c s p e = ground arith

lines-nil : (s : Text) → has_crlf s ≡ false → lines s ≡ [] → s ≡ []
lines-nil [] h e = refl
lines-nil (c ∷ s) h e = elim (Bool-cases (c == newline)) [
  | inl p ↦ absurd (lines-newline-nonempty c s p e)
  | inr p ↦ absurd (push_first-nonempty c (lines s) (sym (lines_cons c s h p) ∙ e))
]

has_crlf_tail : (c : ℕ) (s : Text) → has_crlf (c ∷ s) ≡ false → has_crlf s ≡ false
unfolding has_crlf
has_crlf_tail c s h = ground arith

width-positive : (c : ℕ) → 1 ≤ width c
unfolding width
width-positive c = ground arith

gt_ne : (n : ℕ) → 1 ≤ n → (n == 0) ≡ false
gt_ne n h = ground arith

add_sub : (m n : ℕ) → m + n - m ≡ n
add_sub m n = omega arith

slice_from-width : (c k : ℕ) (s : Text) → slice_from (width c + k) (c ∷ s) ≡ slice_from k s
unfolding slice_from
slice_from-width c k s =
    rw
      (
        gt_ne (width c + k) (omega (arith, width-positive c)),
        le→leb (width c) (width c + k) (omega arith),
        add_sub (width c) k,
      )
      refl

width-newline : (c : ℕ) → (c == newline) ≡ true → width c ≡ 1
unfolding width
width-newline c e = ground arith

offset-newline :
    (n c : ℕ) (s : Text) → (c == newline) ≡ true → offset (suc n) (c ∷ s) ≡ width c + offset n s
unfolding lines len total
offset-newline n c s e = rw (e, width-newline c e) (omega arith)

total-push_first :
    (n c : ℕ) (ls : List Text)
    → ls ≢ []
    → total (take (suc n) (push_first c ls)) ≡ width c + total (take (suc n) ls)
unfolding total len
total-push_first n c [] h = absurd (h refl)
total-push_first n c (l ∷ ls) h = omega arith

cons-nonempty : (c : ℕ) (s : Text) → c ∷ s ≢ []
cons-nonempty c s h = cc

offset_cons :
    (n c : ℕ) (s : Text)
    → has_crlf (c ∷ s) ≡ false
    → (c == newline) ≡ false
    → offset (suc n) (c ∷ s) ≡ width c + offset (suc n) s
unfolding len total lines
offset_cons n c [] h e = rw (lines_cons c [] h e) (omega arith)
offset_cons n c (d ∷ s) h e =
    let nonempty = λ (p : lines (d ∷ s) ≡ []).
      cons-nonempty d s (lines-nil (d ∷ s) (has_crlf_tail c (d ∷ s) h) p) in
    rw (lines_cons c (d ∷ s) h e, total-push_first n c (lines (d ∷ s)) nonempty) (omega arith)

zero_min : (n : ℕ) → min 0 n ≡ 0
zero_min n = omega arith

slice_from_all : (s : Text) → slice_from 0 s ≡ some s
unfolding slice_from
slice_from_all [] = refl
slice_from_all (c ∷ s) = refl

slice_from-zero : (s : Text) → slice_from (offset 0 s) s ≡ some s
unfolding slice_from total len
slice_from-zero [] = refl
slice_from-zero (c ∷ s) = rw (zero_min (len (c ∷ s))) refl

slice_from-offset_nil : (n : ℕ) → slice_from (offset (suc n) []) [] ≡ some []
unfolding slice_from total len lines
slice_from-offset_nil n = refl

pub slice_from-offset :
    (n : ℕ) (s : Text) → has_crlf s ≡ false → slice_from (offset n s) s ≡ some (after_lines n s)
unfolding after_lines
slice_from-offset zero s h = slice_from-zero s
slice_from-offset (suc n) [] h = slice_from-offset_nil n
slice_from-offset (suc n) (c ∷ s) h = elim (Bool-cases (c == newline)) [
  | inl p ↦
      rw (offset-newline n c s p, p)
        (slice_from-width c (offset n s) s ∙ slice_from-offset n s (has_crlf_tail c s h))
  | inr p ↦
      rw (offset_cons n c s h p, p)
        (slice_from-width c (offset (suc n) s) s
          ∙ slice_from-offset (suc n) s (has_crlf_tail c s h))
]

slice_to-width :
    (c k : ℕ) (s t : Text) → slice_to k s ≡ some t → slice_to (width c + k) (c ∷ s) ≡ some (c ∷ t)
unfolding slice_to
slice_to-width c k s t h =
    rw
      (
        gt_ne (width c + k) (omega (arith, width-positive c)),
        le→leb (width c) (width c + k) (omega arith),
        add_sub (width c) k,
        h,
      )
      refl

slice_to-zero : (s : Text) → slice_to (offset 0 s) s ≡ some []
unfolding slice_to total len
slice_to-zero [] = refl
slice_to-zero (c ∷ s) = rw (zero_min (len (c ∷ s))) refl

slice_to-offset_nil : (n : ℕ) → slice_to (offset (suc n) []) [] ≡ some []
unfolding slice_to total len lines
slice_to-offset_nil n = refl

pub slice_to-offset :
    (n : ℕ) (s : Text) → has_crlf s ≡ false → slice_to (offset n s) s ≡ some (before_lines n s)
unfolding before_lines
slice_to-offset zero s h = slice_to-zero s
slice_to-offset (suc n) [] h = slice_to-offset_nil n
slice_to-offset (suc n) (c ∷ s) h = elim (Bool-cases (c == newline)) [
  | inl p ↦
      rw (offset-newline n c s p, p)
        (slice_to-width c (offset n s) s _ (slice_to-offset n s (has_crlf_tail c s h)))
  | inr p ↦
      rw (offset_cons n c s h p, p)
        (slice_to-width c (offset (suc n) s) s _ (slice_to-offset (suc n) s (has_crlf_tail c s h)))
]

slice_from-none :
    (n : ℕ) (s : Text) → slice_from (offset 0 s) (before_lines n s) ≡ some (before_lines n s)
unfolding total len
slice_from-none n s =
    ap (λ k. slice_from k (before_lines n s)) (zero_min (len s)) ∙ slice_from_all (before_lines n s)

slice_from-before_lines :
    (m n : ℕ) (s : Text)
    → m ≤ n
    → has_crlf s ≡ false
    → slice_from (offset m s) (before_lines n s) ≡ some (after_lines m (before_lines n s))
unfolding before_lines after_lines
slice_from-before_lines zero n s le h = slice_from-none n s
slice_from-before_lines (suc m) zero s le h = absurd (omega arith)
slice_from-before_lines (suc m) (suc n) [] le h = slice_from-offset_nil m
slice_from-before_lines (suc m) (suc n) (c ∷ s) le h = elim (Bool-cases (c == newline)) [
  | inl p ↦
      rw (offset-newline m c s p, p, p)
        (slice_from-width c (offset m s) (before_lines n s)
          ∙ slice_from-before_lines m n s (omega arith) (has_crlf_tail c s h))
  | inr p ↦
      rw (offset_cons m c s h p, p, p)
        (slice_from-width c (offset (suc m) s) (before_lines (suc n) s)
          ∙ slice_from-before_lines (suc m) (suc n) s le (has_crlf_tail c s h))
]

-- The lines from the m-th up to the n-th.
pub slice-offset :
    (m n : ℕ) (s : Text)
    → m ≤ n
    → has_crlf s ≡ false
    → slice (offset m s) (offset n s) s ≡ some (after_lines m (before_lines n s))
unfolding slice
slice-offset m n s le h = rw (slice_to-offset n s h, slice) (slice_from-before_lines m n s le h)
