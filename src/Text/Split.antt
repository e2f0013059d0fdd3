-- ===== src/Text/Split.antt =====
-- Lines of a text that was added to, and fields of a line that was put together.
use mux.Prelude.{
  ℕ, ◌≡◌, ◌≢◌, refl, sym, ap, ◌∙◌, inl, inr, Bool, true, false, not, ◌&&◌, List, [], ◌∷◌, ◌++◌,
  ◌==◌, all, arith, Bool-cases,
}
use mux.Text.{
  Text, newline, carriage_return, lines, push_first, ends_line, is_whitespace, split_whitespace,
  starts_field, join_field,
}

-- Nothing but whole lines.
abbrev pub is_ended : Text → Bool
is_ended [] = true
is_ended (c ∷ []) = c == newline
is_ended (c ∷ d ∷ s) = is_ended (d ∷ s)

-- A field: one or more characters without a blank.
unfoldable pub is_field : Text → Bool
unfolding is_whitespace
is_field [] = false
is_field (c ∷ []) = not (is_whitespace c)
is_field (c ∷ d ∷ s) = not (is_whitespace c) && is_field (d ∷ s)

lines_at_newline : (c : ℕ) (s : Text) → (c == newline) ≡ true → lines (c ∷ s) ≡ [] ∷ lines s
unfolding lines
lines_at_newline c s e = rw (e, lines) refl

lines_at_crlf :
    (c : ℕ) (s : Text)
    → (c == newline) ≡ false
    → ((c == carriage_return) && ends_line s) ≡ true
    → lines (c ∷ s) ≡ lines s
unfolding lines
lines_at_crlf c s e h = rw (e, h, lines) refl

lines_at_char :
    (c : ℕ) (s : Text)
    → (c == newline) ≡ false
    → ((c == carriage_return) && ends_line s) ≡ false
    → lines (c ∷ s) ≡ push_first c (lines s)
unfolding lines
lines_at_char c s e h = rw (e, h, lines) refl

push_first-nonempty : (c : ℕ) (ls : List Text) → push_first c ls ≢ []
push_first-nonempty c [] h = cc
push_first-nonempty c (l ∷ ls) h = cc

cons-nonempty : (l : Text) (ls : List Text) → l ∷ ls ≢ []
cons-nonempty l ls h = cc

lines-nonempty : (c : ℕ) (s : Text) → lines (c ∷ s) ≢ []
lines-nonempty c s h = elim (Bool-cases (c == newline)) [
  | inl e ↦ cons-nonempty [] (lines s) (sym (lines_at_newline c s e) ∙ h)
  | inr e ↦ elim (Bool-cases ((c == carriage_return) && ends_line s)) [
    | inr k ↦ push_first-nonempty c (lines s) (sym (lines_at_char c s e k) ∙ h)
    | inl k ↦ crlf_nonempty s (and_right _ _ k) (sym (lines_at_crlf c s e k) ∙ h)
  ]
]
  where
    and_right : (a b : Bool) → (a && b) ≡ true → b ≡ true
    and_right true b h = h
    and_right false b h = absurd (cc)

    crlf_nonempty : (s : Text) → ends_line s ≡ true → lines s ≢ []
    crlf_nonempty [] k h = absurd (cc)
    crlf_nonempty (d ∷ s) k h = cons-nonempty [] (lines s) (sym (lines_at_newline d s k) ∙ h)

push_first-append :
    (c : ℕ) (ls ks : List Text) → ls ≢ [] → push_first c (ls ++ ks) ≡ push_first c ls ++ ks
push_first-append c [] ks h = absurd (h refl)
push_first-append c (l ∷ ls) ks h = refl

lines-nil_append : (t : Text) → lines t ≡ lines [] ++ lines t
unfolding lines
lines-nil_append t = refl

lines_one : (c : ℕ) → (c == newline) ≡ true → lines (c ∷ []) ≡ [] ∷ []
unfolding lines
lines_one c e = rw (e, lines) refl

pub lines-append : (s t : Text) → is_ended s ≡ true → lines (s ++ t) ≡ lines s ++ lines t
lines-append [] t h = lines-nil_append t
lines-append (c ∷ []) t h = lines_at_newline c t h ∙ ap (λ ls. ls ++ lines t) (sym (lines_one c h))
lines-append (c ∷ d ∷ s) t h =
    let rest = lines-append (d ∷ s) t h in
    elim (Bool-cases (c == newline)) [
      | inl e ↦
          lines_at_newline c (d ∷ s ++ t) e
          ∙ ap (◌∷◌ []) rest
          ∙ ap (λ ls. ls ++ lines t) (sym (lines_at_newline c (d ∷ s) e))
      | inr e ↦ elim (Bool-cases ((c == carriage_return) && ends_line (d ∷ s))) [
        | inl k ↦
            lines_at_crlf c (d ∷ s ++ t) e k
            ∙ rest
            ∙ ap (λ ls. ls ++ lines t) (sym (lines_at_crlf c (d ∷ s) e k))
        | inr k ↦
            lines_at_char c (d ∷ s ++ t) e k
            ∙ ap (push_first c) rest
            ∙ push_first-append c (lines (d ∷ s)) (lines t) (lines-nonempty d s)
            ∙ ap (λ ls. ls ++ lines t) (sym (lines_at_char c (d ∷ s) e k))
      ]
    ]

head_field : (c : ℕ) (s : Text) → is_field (c ∷ s) ≡ true → is_whitespace c ≡ false
unfolding is_field
head_field c [] h = ground arith
head_field c (d ∷ s) h = ground arith

tail_field : (c d : ℕ) (s : Text) → is_field (c ∷ d ∷ s) ≡ true → is_field (d ∷ s) ≡ true
unfolding is_field
tail_field c d s h = ground arith

split_next :
    (c d : ℕ) (s : Text)
    → is_whitespace c ≡ false
    → is_whitespace d ≡ false
    → split_whitespace (c ∷ d ∷ s) ≡ join_field true c (split_whitespace (d ∷ s))
unfolding split_whitespace starts_field
split_next c d s h k = rw (h, k, split_whitespace, starts_field) refl

split_last :
    (c : ℕ) (b : Text)
    → is_whitespace c ≡ false
    → split_whitespace (c ∷ 32 ∷ b) ≡ (c ∷ []) ∷ split_whitespace b
unfolding split_whitespace starts_field is_whitespace
split_last c b h = rw (h, split_whitespace) refl

split_single : (c : ℕ) → is_whitespace c ≡ false → split_whitespace (c ∷ []) ≡ (c ∷ []) ∷ []
unfolding split_whitespace starts_field
split_single c h = rw (h, split_whitespace) refl

split-field : (s : Text) → is_field s ≡ true → split_whitespace s ≡ s ∷ []
unfolding is_field
split-field [] h = absurd (cc)
split-field (c ∷ []) h = split_single c (head_field c [] h)
split-field (c ∷ d ∷ s) h =
    let rest = tail_field c d s h in
    split_next c d s (head_field c (d ∷ s) h) (head_field d s rest)
    ∙ ap (join_field true c) (split-field (d ∷ s) rest)

pub split-fields :
    (a b : Text)
    → is_field a ≡ true
    → is_field b ≡ true
    → split_whitespace (a ++ 32 ∷ b) ≡ a ∷ b ∷ []
unfolding is_field
split-fields [] b h k = absurd (cc)
split-fields (c ∷ []) b h k =
    split_last c b (head_field c [] h) ∙ ap (◌∷◌ (c ∷ [])) (split-field b k)
split-fields (c ∷ d ∷ s) b h k =
    let rest = tail_field c d s h in
    split_next c d (s ++ 32 ∷ b) (head_field c (d ∷ s) h) (head_field d s rest)
    ∙ ap (join_field true c) (split-fields (d ∷ s) b rest k)

-- A character that no line ends with.
abbrev is_inner : ℕ → Bool
is_inner c = not (c == newline) && not (c == carriage_return)

inner_char : (c : ℕ) → is_whitespace c ≡ false → is_inner c ≡ true
unfolding is_whitespace
inner_char c h = ground arith

inner_field : (s : Text) → is_field s ≡ true → all is_inner s ≡ true
unfolding is_field
inner_field [] h = absurd (cc)
inner_field (c ∷ []) h = rw (inner_char c (head_field c [] h)) refl
inner_field (c ∷ d ∷ s) h =
    rw (inner_char c (head_field c (d ∷ s) h)) (inner_field (d ∷ s) (tail_field c d s h))

inner-append :
    (s t : Text) → all is_inner s ≡ true → all is_inner t ≡ true → all is_inner (s ++ t) ≡ true
inner-append [] t h k = k
inner-append (c ∷ s) t h k = ground (arith, inner-append s t)

lines-inner : (s : Text) → all is_inner s ≡ true → lines (s ++ newline ∷ []) ≡ s ∷ []
lines-inner [] h = lines_one newline refl
lines-inner (c ∷ s) h =
    lines_at_char c (s ++ newline ∷ []) (ground arith) (ground arith)
    ∙ ap (push_first c) (lines-inner s (ground arith))

-- Of two fields, and the newline behind them, one line is made.
pub lines-fields :
    (a b : Text)
    → is_field a ≡ true
    → is_field b ≡ true
    → lines ((a ++ 32 ∷ b) ++ newline ∷ []) ≡ (a ++ 32 ∷ b) ∷ []
lines-fields a b h k =
    lines-inner (a ++ 32 ∷ b) (inner-append a (32 ∷ b) (inner_field a h) (inner_field b k))
