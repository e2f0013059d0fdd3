-- ===== src/Text.antt =====
-- Rust's `str` as the code uses it: a text is its characters, each a Unicode scalar value, and its
-- lengths and offsets count the bytes of its UTF-8 form.
pub mod Lines
pub mod Numbers
pub mod Split
pub mod Strings
use text.Mathlib.Text.{◌==◌ as string_eq}
use Prim.Native.Char.{code}
use Prim.Native.Nat.{Ordering, compare}
use mux.Prelude.{
  ℕ, suc, ◌+◌, ◌-◌, ◌≤◌, Bool, true, false, not, ◌&&◌, ◌||◌, List, [], ◌∷◌, ◌++◌, Option, none,
  some, String, if◌then◌else◌, ltb, leb, ◌==◌, any, all, ◌≡◌, refl, arith, ap, ==_iff,
}

abbrev pub Text : Type 0
Text = List ℕ

-- A literal of the source.
abbrev pub codes : String → Text
codes String.[] = []
codes (String.◌∷◌ c s) = code c ∷ codes s

abbrev pub newline : ℕ
newline = 10

abbrev pub carriage_return : ℕ
carriage_return = 13

-- `char::len_utf8`
unfoldable pub width : ℕ → ℕ
width c = if ltb c 0x80 then 1 else if ltb c 0x800 then 2 else if ltb c 0x10000 then 3 else 4

-- `str::len`
unfoldable pub len : Text → ℕ
unfolding width
len [] = 0
len (c ∷ s) = width c + len s

-- `==` on texts
unfoldable pub same : Text → Text → Bool
same [] [] = true
same [] (d ∷ t) = false
same (c ∷ s) [] = false
same (c ∷ s) (d ∷ t) = (c == d) && same s t

abbrev pub is_empty {ℓ} : {A : Type ℓ} → List A → Bool
is_empty [] = true
is_empty (c ∷ s) = false

-- `char::is_whitespace`: the property White_Space.
unfoldable pub is_whitespace : ℕ → Bool
is_whitespace c =
    (leb 9 c && leb c 13)
    || (c == 32)
    || (c == 0x85)
    || (c == 0xa0)
    || (c == 0x1680)
    || (leb 0x2000 c && leb c 0x200a)
    || (c == 0x2028)
    || (c == 0x2029)
    || (c == 0x202f)
    || (c == 0x205f)
    || (c == 0x3000)

unfoldable pub trim_start : Text → Text
unfolding is_whitespace
trim_start [] = []
trim_start (c ∷ s) = let rest = trim_start s in if is_whitespace c then rest else c ∷ s

-- A character is kept where anything but whitespace follows, or where it is none itself.
unfoldable pub trim_end : Text → Text
unfolding is_whitespace
trim_end [] = []
trim_end (c ∷ s) =
    let rest = trim_end s in if is_empty rest && is_whitespace c then [] else c ∷ rest

unfoldable pub trim : Text → Text
unfolding trim_start trim_end
trim s = trim_end (trim_start s)

unfoldable pub strip_prefix : Text → Text → Option Text
strip_prefix [] s = some s
strip_prefix (p ∷ ps) [] = none
strip_prefix (p ∷ ps) (c ∷ s) = if p == c then strip_prefix ps s else none

unfoldable pub starts_with : Text → Text → Bool
starts_with [] s = true
starts_with (p ∷ ps) [] = false
starts_with (p ∷ ps) (c ∷ s) = (p == c) && starts_with ps s

-- `str::strip_suffix`
unfoldable pub strip_suffix : Text → Text → Option Text
unfolding same
strip_suffix suffix [] = if same suffix [] then some [] else none
strip_suffix suffix (c ∷ s) =
    let rest = strip_suffix suffix s in
    if same suffix (c ∷ s) then some [] else elim rest [ none ↦ none | some kept ↦ some (c ∷ kept) ]

-- `str::contains`
unfoldable pub contains : Text → Text → Bool
unfolding starts_with
contains needle [] = starts_with needle []
contains needle (c ∷ s) = starts_with needle (c ∷ s) || contains needle s

-- `&s[n..]`: `none` where the offset is past the end or inside a character, and the code panics.
unfoldable pub slice_from : ℕ → Text → Option Text
unfolding width
slice_from n [] = if n == 0 then some [] else none
slice_from n (c ∷ s) =
    let rest = slice_from (n - width c) s in
    if n == 0 then some (c ∷ s) else if leb (width c) n then rest else none

abbrev push : ℕ → Option Text → Option Text
push c none = none
push c (some s) = some (c ∷ s)

-- `&s[..n]`
unfoldable pub slice_to : ℕ → Text → Option Text
unfolding width
slice_to n [] = if n == 0 then some [] else none
slice_to n (c ∷ s) =
    let rest = slice_to (n - width c) s in
    if n == 0 then some [] else if leb (width c) n then push c rest else none

-- `&s[start..end]`
unfoldable pub slice : ℕ → ℕ → Text → Option Text
unfolding slice_to slice_from
slice start end s = elim (slice_to end s) [ none ↦ none | some head ↦ slice_from start head ]

abbrev pub ends_line : Text → Bool
ends_line [] = false
ends_line (c ∷ s) = c == newline

abbrev pub push_first : ℕ → List Text → List Text
push_first c [] = (c ∷ []) ∷ []
push_first c (l ∷ ls) = (c ∷ l) ∷ ls

-- `str::lines`: a line ends at "\n" or "\r\n", and neither is part of it.
unfoldable pub lines : Text → List Text
lines [] = []
lines (c ∷ s) =
    let rest = lines s in
    if c == newline
    then [] ∷ rest
    else if (c == carriage_return) && ends_line s
    then rest
    else push_first c rest

-- Some line of the text ends at "\r\n".
unfoldable pub has_crlf : Text → Bool
has_crlf [] = false
has_crlf (c ∷ s) = ((c == carriage_return) && ends_line s) || has_crlf s

-- A field up to the next whitespace is put in front of the others.
abbrev pub join_field : Bool → ℕ → List Text → List Text
join_field true c (f ∷ fs) = (c ∷ f) ∷ fs
join_field _ c fs = (c ∷ []) ∷ fs

unfoldable pub starts_field : Text → Bool
unfolding is_whitespace
starts_field [] = false
starts_field (c ∷ s) = not (is_whitespace c)

-- `str::split_whitespace`
unfoldable pub split_whitespace : Text → List Text
unfolding is_whitespace starts_field
split_whitespace [] = []
split_whitespace (c ∷ s) =
    let rest = split_whitespace s in
    if is_whitespace c then rest else join_field (starts_field s) c rest

pub same_iff : (s t : Text) → same s t ≡ true → s ≡ t
unfolding same
same_iff [] [] h = refl
same_iff [] (d ∷ t) h = absurd (cc)
same_iff (c ∷ s) [] h = absurd (cc)
same_iff (c ∷ s) (d ∷ t) h = ground (arith, same_iff s t)

pub same_refl : (s : Text) → same s s ≡ true
unfolding same
same_refl [] = refl
same_refl (c ∷ s) = ground (arith, same_refl s)
