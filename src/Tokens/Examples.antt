-- ===== src/Tokens/Examples.antt =====
-- Files of tokens, with a hex form of bytes.
use mux.Prelude.{
  ℕ, ◌+◌, ◌-◌, ◌*◌, ◌/◌, ◌%◌, ◌≡◌, refl, List, [], ◌∷◌, Option, none, some, if◌then◌else◌, leb, ltb,
}
use mux.Prelude.Results.{ok, err}
use mux.Text.{
  Text, codes, lines, trim, trim_start, trim_end, is_whitespace, strip_prefix, starts_with,
}
use mux.Broker.Stream.{content, missing}
use mux.Tokens.{
  Hex, parse_digest, parse_lines, parse_digests, load_admitted, not_lowercase, no_file,
  wrong_length,
}
use mux.Tokens.Enrolled.{
  Entry, blank, comment, enrolled, file_of, digests_of, load_admitted-file_of,
}

abbrev digit : ℕ → ℕ
digit n = if ltb n 10 then 48 + n else 87 + n

abbrev value : ℕ → ℕ
value c = if leb 97 c then c - 87 else c - 48

abbrev hex_encode : List ℕ → Text
hex_encode [] = []
hex_encode (b ∷ bs) = digit (b / 16) ∷ digit (b % 16) ∷ hex_encode bs

abbrev hex_decode : Text → Option (List ℕ)
hex_decode [] = some []
hex_decode (c ∷ []) = none
hex_decode (c ∷ d ∷ s) = elim (hex_decode s) [
  | none ↦ none
  | some bs ↦ some ((value c * 16 + value d) ∷ bs)
]

abbrev hex : Hex
hex = record { encode = hex_encode; decode = hex_decode }

abbrev eight : ℕ → List ℕ → List ℕ
eight b rest = b ∷ b ∷ b ∷ b ∷ b ∷ b ∷ b ∷ b ∷ rest

abbrev laptop : List ℕ
laptop = eight 171 (eight 205 (eight 0 (eight 255 [])))

abbrev desktop : List ℕ
desktop = eight 1 (eight 2 (eight 3 (eight 4 [])))

abbrev entries : List Entry
entries = comment (codes " the laptop") ∷ enrolled laptop ∷ blank ∷ enrolled desktop ∷ []

load_admitted-file_of_example :
    load_admitted hex (eight 9 []) (some (content (file_of hex entries)))
    ≡ ok (eight 9 [] ∷ laptop ∷ desktop ∷ [])
unfolding digests_of
load_admitted-file_of_example =
    load_admitted-file_of hex (eight 9 []) entries
      (refl, ((refl, refl, refl), (tt, ((refl, refl, refl), tt))))

-- Capital letters, a digest that is too short, and a file that is not there.
refused :
    (parse_digests hex (codes "sha256:AB") ≡ err (not_lowercase 1))
    × (parse_digests hex (codes "sha256:ab") ≡ err (wrong_length 1))
    × (load_admitted hex laptop (some missing) ≡ err no_file)
    × (load_admitted hex laptop none ≡ ok (laptop ∷ []))
unfolding parse_digests parse_lines lines trim trim_start trim_end is_whitespace starts_with
    parse_digest strip_prefix load_admitted
refused = (refl, refl, refl, refl)
