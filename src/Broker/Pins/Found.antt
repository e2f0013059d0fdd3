-- ===== src/Broker/Pins/Found.antt =====
-- crates/muxd/src/broker.rs: the pins that a file has, and the line that `append_pin` adds to it.
use mathlib.Core.Path.{subst}
use mux.Prelude.{
  ℕ, ◌≡◌, ◌≢◌, refl, sym, ap, ◌∙◌, inl, inr, Bool, true, false, ◌&&◌, List, [], ◌∷◌, ◌++◌, Option,
  none, some, all, All, All-append, append_assoc, arith, map_or, Bool-cases,
}
use mux.Text.{Text, same_refl, newline, lines, split_whitespace, is_whitespace}
use mux.Text.Split.{is_ended, is_field, lines-append, lines-fields, split-fields}
use mux.Broker.Pins.{
  is_alphanumeric, is_alias_char, check_alias, KnownHosts, is_line_of, second, find_pin, pin_line,
}

-- The pin that the file has for an alias.
unfoldable pub pin_of : KnownHosts → Text → Option Text
unfolding find_pin lines
pin_of none alias = none
pin_of (some text) alias = find_pin alias (lines text)

-- A line is blank or has two fields.
abbrev pub is_complete : List Text → Bool
is_complete [] = true
is_complete (f ∷ []) = false
is_complete (f ∷ g ∷ fs) = true

abbrev pub IsComplete : Text → Type 0
IsComplete line = is_complete (split_whitespace line) ≡ true

-- Whole lines, each with an alias and a fingerprint.
unfoldable pub IsSound : KnownHosts → Type 0
unfolding lines split_whitespace
IsSound none = Unit
IsSound (some text) = (is_ended text ≡ true) × All IsComplete (lines text)

-- The file with one more line.
unfoldable pub with_pin : Text → Text → KnownHosts → KnownHosts
with_pin alias fingerprint known_hosts =
    some (map_or [] (λ text. text) known_hosts ++ (pin_line alias fingerprint ++ newline ∷ []))

and_left : (a b : Bool) → (a && b) ≡ true → a ≡ true
and_left true b h = refl
and_left false b h = absurd (cc)

and_right : (a b : Bool) → (a && b) ≡ true → b ≡ true
and_right true b h = h
and_right false b h = absurd (cc)

alias_char : (c : ℕ) → is_alias_char c ≡ true → is_whitespace c ≡ false
unfolding is_whitespace
alias_char c h = ground arith

alias_chars : (c : ℕ) (s : Text) → all is_alias_char (c ∷ s) ≡ true → is_field (c ∷ s) ≡ true
unfolding is_field
alias_chars c [] h = rw (alias_char c (and_left _ _ h)) refl
alias_chars c (d ∷ s) h = rw (alias_char c (and_left _ _ h)) (alias_chars d s (and_right _ _ h))

pub check_alias-field : (alias : Text) → check_alias alias ≡ true → is_field alias ≡ true
unfolding check_alias
check_alias-field [] h = absurd (cc)
check_alias-field (c ∷ s) h = alias_chars c s (and_right (is_alphanumeric c) _ h)

find_pin-left :
    (alias : Text) (ls ks : List Text) {p : Text}
    → find_pin alias ls ≡ some p
    → find_pin alias (ls ++ ks) ≡ some p
unfolding find_pin
find_pin-left alias [] ks h = absurd (cc)
find_pin-left alias (l ∷ ls) ks h = elim (Bool-cases (is_line_of alias (split_whitespace l))) [
  | inl e ↦ rw (e, find_pin) (rw (e, find_pin) at h)
  | inr e ↦ rw (e, find_pin) (find_pin-left alias ls ks (rw (e, find_pin) at h))
]

second-none :
    (alias : Text) (fields : List Text)
    → is_complete fields ≡ true
    → is_line_of alias fields ≡ true
    → second fields ≢ none
unfolding is_line_of
second-none alias [] h e k = absurd (cc)
second-none alias (f ∷ []) h e k = absurd (cc)
second-none alias (f ∷ g ∷ fs) h e k = cc

find_pin-right :
    (alias : Text) (ls ks : List Text)
    → All IsComplete ls
    → find_pin alias ls ≡ none
    → find_pin alias (ls ++ ks) ≡ find_pin alias ks
unfolding find_pin
find_pin-right alias [] ks c h = refl
find_pin-right alias (l ∷ ls) ks (cl, c) h =
    elim (Bool-cases (is_line_of alias (split_whitespace l))) [
      | inl e ↦ absurd (second-none alias (split_whitespace l) cl e (rw (e, find_pin) at h))
      | inr e ↦ rw (e, find_pin) (find_pin-right alias ls ks c (rw (e, find_pin) at h))
    ]

new_line :
    (alias fingerprint : Text)
    → is_field alias ≡ true
    → is_field fingerprint ≡ true
    → (text : Text) → is_ended text ≡ true
    → lines (text ++ (pin_line alias fingerprint ++ newline ∷ []))
      ≡ lines text ++ pin_line alias fingerprint ∷ []
new_line alias fingerprint a f text e =
    lines-append text _ e ∙ ap (λ ls. lines text ++ ls) (lines-fields alias fingerprint a f)

ended : (s : Text) → is_ended (s ++ newline ∷ []) ≡ true
ended [] = refl
ended (c ∷ []) = refl
ended (c ∷ d ∷ s) = ended (d ∷ s)

new_pin :
    (alias fingerprint : Text)
    → is_field alias ≡ true
    → is_field fingerprint ≡ true
    → find_pin alias (pin_line alias fingerprint ∷ []) ≡ some fingerprint
unfolding find_pin is_line_of
new_pin alias fingerprint a f =
    rw (split-fields alias fingerprint a f, same_refl alias, find_pin, is_line_of) refl

lines-none : lines [] ≡ []
unfolding lines
lines-none = refl

module _ (alias fingerprint : Text) (a : is_field alias ≡ true)
    (f : is_field fingerprint ≡ true) where
  IsComplete-line : IsComplete (pin_line alias fingerprint)
  IsComplete-line = rw (split-fields alias fingerprint a f) refl

  pub with_pin-IsSound : (k : KnownHosts) → IsSound k → IsSound (with_pin alias fingerprint k)
  unfolding IsSound with_pin
  with_pin-IsSound none h = (
    ended (pin_line alias fingerprint),
    subst (All IsComplete) (sym (lines-fields alias fingerprint a f)) (IsComplete-line, tt),
  )
  with_pin-IsSound (some text) (e, c) = (
    ap is_ended (sym (append_assoc text (pin_line alias fingerprint) (newline ∷ [])))
        ∙ ended (text ++ pin_line alias fingerprint),
    subst (All IsComplete) (sym (new_line alias fingerprint a f text e)) (
        All-append IsComplete (lines text) (pin_line alias fingerprint ∷ []) c
          (IsComplete-line, tt)),
  )

  pub with_pin-new :
      (k : KnownHosts)
      → IsSound k
      → pin_of k alias ≡ none
      → pin_of (with_pin alias fingerprint k) alias ≡ some fingerprint
  unfolding IsSound with_pin pin_of
  with_pin-new none h e =
      ap (find_pin alias) (lines-fields alias fingerprint a f) ∙ new_pin alias fingerprint a f
  with_pin-new (some text) (e, c) h =
      rw (new_line alias fingerprint a f text e)
        (find_pin-right alias (lines text) _ c h ∙ new_pin alias fingerprint a f)

-- Who is pinned by a file of whole lines stays pinned, whatever is written behind them.
pub pin_of_append :
    (text suffix other : Text) {p : Text}
    → is_ended text ≡ true
    → pin_of (some text) other ≡ some p
    → pin_of (some (text ++ suffix)) other ≡ some p
unfolding pin_of
pin_of_append text suffix other e h =
    ap (find_pin other) (lines-append text suffix e) ∙ find_pin-left other (lines text) _ h
