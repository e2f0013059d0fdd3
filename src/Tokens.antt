-- ===== src/Tokens.antt =====
-- crates/muxd/src/tls.rs: the tokens that a listener admits. SHA-256 and the hex crate are arguments;
-- a digest is its bytes.
pub mod Enrolled
mod Examples
use mux.Prelude.{
  ℕ, suc, Bool, true, false, not, ◌&&◌, ◌||◌, List, [], ◌∷◌, ◌++◌, Option, none, some, String,
  if◌then◌else◌, ◌==◌, leb, all, length,
}
use mux.Prelude.Results.{Result, ok, err, ◌>>=◌}
use mux.Text.{Text, codes, lines, trim, strip_prefix, starts_with, is_empty}
use mux.Broker.Stream.{File, missing, unreadable, content}

-- The calls of the hex crate.
pub record Hex : Type 0 where
  pub encode : List ℕ → Text
  pub decode : Text → Option (List ℕ)

-- What is wrong with a line, which is counted from 1.
pub data DigestError : Type 0 where
  no_prefix not_lowercase not_hex wrong_length : ℕ → DigestError

abbrev pub digest_prefix : Text
digest_prefix = codes "sha256:"

-- The line of a token with this digest.
unfoldable pub digest_line : Hex → List ℕ → Text
digest_line h digest = digest_prefix ++ h.encode digest

-- `is_ascii_hexdigit` and not `is_ascii_uppercase`.
abbrev pub is_lower_hex : ℕ → Bool
is_lower_hex b = (leb 48 b && leb b 57) || (leb 97 b && leb b 102)

abbrev pub of_length : ℕ → Option (List ℕ) → Result DigestError (List ℕ)
of_length n none = err (not_hex n)
of_length n (some bytes) = if length bytes == 32 then ok bytes else err (wrong_length n)

-- A line that is neither blank nor a comment.
unfoldable pub parse_digest : Hex → ℕ → Text → Result DigestError (List ℕ)
unfolding strip_prefix
parse_digest h n line = elim (strip_prefix digest_prefix line) [
  | none ↦ err (no_prefix n)
  | some digits ↦
      if not (all is_lower_hex digits) then err (not_lowercase n) else of_length n (h.decode digits)
]

-- The loop of `parse_digests`, from the line with this number on.
unfoldable pub parse_lines : Hex → ℕ → List Text → Result DigestError (List (List ℕ))
unfolding trim starts_with parse_digest
parse_lines h n [] = ok []
parse_lines h n (l ∷ ls) =
    let line = trim l in
    let rest = parse_lines h (suc n) ls in
    if is_empty line || starts_with (codes "#") line
    then rest
    else do digest ← parse_digest h n line; digests ← rest; ok (digest ∷ digests)

unfoldable pub parse_digests : Hex → Text → Result DigestError (List (List ℕ))
unfolding parse_lines lines
parse_digests h text = parse_lines h 1 (lines text)

pub data LoadError : Type 0 where
  no_file : LoadError
  malformed : DigestError → LoadError

abbrev pub enrolled_by :
    List ℕ → Result DigestError (List (List ℕ)) → Result LoadError (List (List ℕ))
enrolled_by own (ok digests) = ok (own ∷ digests)
enrolled_by own (err e) = err (malformed e)

-- The set of digests as a list. The file is the one of `--authorized-tokens`.
unfoldable pub load_admitted : Hex → List ℕ → Option (File Text) → Result LoadError (List (List ℕ))
unfolding parse_digests
load_admitted h own none = ok (own ∷ [])
load_admitted h own (some missing) = err no_file
load_admitted h own (some unreadable) = err no_file
load_admitted h own (some (content text)) = enrolled_by own (parse_digests h text)
