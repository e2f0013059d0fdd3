-- ===== src/Text/Strings.antt =====
-- Between a text as a list of characters and the native `String` of the wire types.
use Prim.Native.Char.{char, IsLt}
use Prim.Native.Nat.{compare, Ordering}
use mux.Prelude.{List, [], ◌∷◌, Option, none, some, String, ◌++◌, ◌≡◌, refl}
use mux.Text.{Text, newline, codes}

-- The clauses of `IsScalar`, over the answers of its three comparisons.
abbrev Both : Ordering → Ordering → Type 0
Both Ordering.lt o = IsLt o
Both Ordering.eq _ = ⊥
Both Ordering.gt _ = ⊥

abbrev Scalar : Ordering → Ordering → Ordering → Type 0
Scalar Ordering.lt _ _ = Unit
Scalar Ordering.eq o p = Both o p
Scalar Ordering.gt o p = Both o p

abbrev decide_lt : (o : Ordering) → Option (IsLt o)
decide_lt Ordering.lt = some tt
decide_lt Ordering.eq = none
decide_lt Ordering.gt = none

abbrev decide_both : (o p : Ordering) → Option (Both o p)
decide_both Ordering.lt o = decide_lt o
decide_both Ordering.eq _ = none
decide_both Ordering.gt _ = none

abbrev decide_scalar : (o p q : Ordering) → Option (Scalar o p q)
decide_scalar Ordering.lt _ _ = some tt
decide_scalar Ordering.eq o p = decide_both o p
decide_scalar Ordering.gt o p = decide_both o p

-- A text has scalar values alone; any other number has no character.
unfoldable pub to_string : Text → String
to_string [] = String.[]
to_string (c ∷ s) = elim (decide_scalar (compare c 55296) (compare 57343 c) (compare c 1114112)) [
  | none ↦ to_string s
  | some h ↦ String.◌∷◌ (char c h) (to_string s)
]

-- `join("\n")`
unfoldable pub join_lines : List Text → Text
join_lines [] = []
join_lines (l ∷ []) = l
join_lines (l ∷ k ∷ ls) = l ++ newline ∷ join_lines (k ∷ ls)

read_back : to_string (codes "é › ok") ≡ "é › ok"
unfolding to_string
read_back = refl
