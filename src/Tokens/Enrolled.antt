-- ===== src/Tokens/Enrolled.antt =====
-- tls.rs: a file of tokens that was put together by a user is read as it is meant.
use mux.Prelude.{
  ℕ, suc, ◌≡◌, refl, ap, ◌∙◌, inl, inr, Bool, true, false, not, ◌&&◌, List, [], ◌∷◌, ◌++◌, some,
  ◌==◌, all, All, length, arith, Bool-cases,
}
use mux.Prelude.Results.{ok}
use mux.Text.{
  Text, newline, carriage_return, lines, trim, trim_start, trim_end, is_whitespace, strip_prefix,
  starts_with,
}
use mux.Broker.Stream.{content}
use mux.Tokens.{
  Hex, digest_prefix, digest_line, is_lower_hex, parse_digest, parse_lines, parse_digests,
  load_admitted,
}

-- A line of the file: empty, a comment behind its "#", or a digest as `client-digest` prints it.
pub data Entry : Type 0 where
  blank : Entry
  comment : Text → Entry
  enrolled : List ℕ → Entry

unfoldable pub entry_line : Hex → Entry → Text
unfolding digest_line
entry_line h blank = []
entry_line h (comment s) = 35 ∷ s
entry_line h (enrolled digest) = digest_line h digest

unfoldable pub file_of : Hex → List Entry → Text
unfolding entry_line
file_of h [] = []
file_of h (e ∷ es) = entry_line h e ++ newline ∷ file_of h es

unfoldable pub digests_of : List Entry → List (List ℕ)
digests_of [] = []
digests_of (enrolled digest ∷ es) = digest ∷ digests_of es
digests_of (_ ∷ es) = digests_of es

abbrev pub is_plain : ℕ → Bool
is_plain c = not (c == newline) && not (c == carriage_return)

-- A comment is one line, and a digest has 32 bytes, whose hex form is lower case and is read back.
abbrev pub IsEntry : Hex → Entry → Type 0
IsEntry h blank = Unit
IsEntry h (comment s) = all is_plain s ≡ true
IsEntry h (enrolled digest) =
    (length digest ≡ 32)
    × (all is_lower_hex (h.encode digest) ≡ true)
    × (h.decode (h.encode digest) ≡ some digest)

and_false : (b : Bool) → (b && false) ≡ false
and_false true = refl
and_false false = refl

all-imp :
    (p q : ℕ → Bool)
    → ((c : ℕ) → p c ≡ true → q c ≡ true)
    → (s : Text) → all p s ≡ true
    → all q s ≡ true
all-imp p q f [] h = refl
all-imp p q f (c ∷ s) h = elim (Bool-cases (p c)) [
  | inl e ↦ rw (f c e) (all-imp p q f s (rw e at h))
  | inr e ↦ absurd (cc (rw e at h))
]

lines-plain : (s t : Text) → all is_plain s ≡ true → lines (s ++ newline ∷ t) ≡ s ∷ lines t
unfolding lines
lines-plain [] t h = refl
lines-plain (c ∷ s) t h = elim (Bool-cases (c == newline)) [
  | inl e ↦ absurd (cc (rw e at h))
  | inr e ↦ elim (Bool-cases (c == carriage_return)) [
    | inl r ↦ absurd (cc (rw (e, r) at h))
    | inr r ↦ rw (e, r, lines-plain s t (rw (e, r) at h)) refl
  ]
]

abbrev is_black : ℕ → Bool
is_black c = not (is_whitespace c)

trim_end-black : (s : Text) → all is_black s ≡ true → trim_end s ≡ s
unfolding trim_end
trim_end-black [] h = refl
trim_end-black (c ∷ s) h = elim (Bool-cases (is_whitespace c)) [
  | inl e ↦ absurd (cc (rw e at h))
  | inr e ↦ rw (e, and_false) (ap (◌∷◌ c) (trim_end-black s (rw e at h)))
]

trim-black : (s : Text) → all is_black s ≡ true → trim s ≡ s
unfolding trim trim_start
trim-black [] h = trim_end-black [] refl
trim-black (c ∷ s) h = elim (Bool-cases (is_whitespace c)) [
  | inl e ↦ absurd (cc (rw e at h))
  | inr e ↦ rw e (trim_end-black (c ∷ s) h)
]

trim-comment : (s : Text) → trim (35 ∷ s) ≡ 35 ∷ trim_end s
unfolding trim trim_start trim_end is_whitespace
trim-comment s = rw and_false refl

hex_is_plain : (c : ℕ) → is_lower_hex c ≡ true → is_plain c ≡ true
hex_is_plain c h = ground arith

hex_is_black : (c : ℕ) → is_lower_hex c ≡ true → is_black c ≡ true
unfolding is_whitespace
hex_is_black c h = ground arith

entry_line-plain : (h : Hex) (e : Entry) → IsEntry h e → all is_plain (entry_line h e) ≡ true
unfolding entry_line digest_line
entry_line-plain h blank fine = refl
entry_line-plain h (comment s) fine = fine
entry_line-plain h (enrolled digest) (size, lower, back) =
    all-imp is_lower_hex is_plain hex_is_plain (h.encode digest) lower

digest_line-trim :
    (h : Hex) (digest : List ℕ)
    → all is_lower_hex (h.encode digest) ≡ true
    → trim (digest_line h digest) ≡ digest_line h digest
unfolding digest_line is_whitespace
digest_line-trim h digest lower =
    trim-black (digest_prefix ++ h.encode digest)
      (all-imp is_lower_hex is_black hex_is_black (h.encode digest) lower)

digest_line-parse :
    (h : Hex) (n : ℕ) (digest : List ℕ)
    → IsEntry h (enrolled digest)
    → parse_digest h n (digest_line h digest) ≡ ok digest
unfolding digest_line parse_digest strip_prefix
digest_line-parse h n digest (size, lower, back) = rw (lower, back, size, parse_digest) refl

parse_entry :
    (h : Hex) (n : ℕ) (e : Entry) (es : List Entry) (ls : List Text)
    → IsEntry h e
    → parse_lines h (suc n) ls ≡ ok (digests_of es)
    → parse_lines h n (entry_line h e ∷ ls) ≡ ok (digests_of (e ∷ es))
unfolding entry_line digests_of parse_lines trim trim_start trim_end starts_with
parse_entry h n blank es ls fine rest = rest
parse_entry h n (comment s) es ls fine rest = rw (trim-comment s) rest
parse_entry h n (enrolled digest) es ls fine rest =
    rw (digest_line-trim h digest fine.1, digest_line-parse h n digest fine, rest) refl

parse_entries :
    (h : Hex) (n : ℕ) (es : List Entry)
    → All (IsEntry h) es
    → parse_lines h n (lines (file_of h es)) ≡ ok (digests_of es)
unfolding file_of digests_of parse_lines lines
parse_entries h n [] fine = refl
parse_entries h n (e ∷ es) (first, others) =
    ap (parse_lines h n) (lines-plain (entry_line h e) (file_of h es) (entry_line-plain h e first))
    ∙ parse_entry h n e es (lines (file_of h es)) first (parse_entries h (suc n) es others)

-- A file of empty lines, comments and the digests of clients, in any order, admits the daemon's own
-- token and exactly those of the digests, in their order.
pub load_admitted-file_of :
    (h : Hex) (own : List ℕ) (es : List Entry)
    → All (IsEntry h) es
    → load_admitted h own (some (content (file_of h es))) ≡ ok (own ∷ digests_of es)
unfolding load_admitted parse_digests
load_admitted-file_of h own es fine = rw (parse_entries h 1 es fine) refl
