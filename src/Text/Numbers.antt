-- ===== src/Text/Numbers.antt =====
-- `str::parse` for `usize`.
use mux.Prelude.{
  ℕ, ◌+◌, ◌-◌, ◌*◌, ◌^◌, Bool, ◌&&◌, [], ◌∷◌, Option, none, some, if◌then◌else◌, ltb, leb, ◌==◌,
}
use mux.Text.{Text}

-- `u8::is_ascii_digit`
abbrev pub is_digit : ℕ → Bool
is_digit c = leb 48 c && leb c 57

-- Each digit is one `checked_mul` and one `checked_add` at 64 bits.
unfoldable pub parse_digits : ℕ → Text → Option ℕ
parse_digits n [] = some n
parse_digits n (c ∷ s) =
    let rest = parse_digits (n * 10 + (c - 48)) s in
    if is_digit c && ltb (n * 10 + (c - 48)) (2 ^ 64) then rest else none

-- A leading "+" is read over, and at least one digit follows.
unfoldable pub parse_usize : Text → Option ℕ
unfolding parse_digits
parse_usize [] = none
parse_usize (c ∷ []) = if c == 43 then none else parse_digits 0 (c ∷ [])
parse_usize (c ∷ d ∷ s) = if c == 43 then parse_digits 0 (d ∷ s) else parse_digits 0 (c ∷ d ∷ s)
