-- ===== src/Prelude/Dict.antt =====
-- `HashMap<String, V>` as an association list with the key's last entry in front. The code never
-- rests on the order of a map's entries.
use Prim.Native.Nat.{suc, ◌≤◌}
use Prim.Native.String.{String}
use mathlib.Core.Path.{◌≡◌}
use mathlib.Core.Option.{Option, none, some}
use mathlib.Core.List.{List, [], ◌∷◌}
use native.Mathlib.Omega.{arith}
use text.Mathlib.Text.{◌==◌ as str_eq}
use text.Mathlib.TextEquality.{eq_iff}
use mux.Prelude.Tests.{if◌then◌else◌}
use mux.Prelude.Lists.{length}

abbrev pub Table {ℓ} : Type ℓ → Type ℓ
Table V = List (String × V)

module _ {ℓ} {V : Type ℓ} where
  unfoldable pub lookup : String → Table V → Option V
  lookup k [] = none
  lookup k ((j, v) ∷ m) = if str_eq j k then some v else lookup k m

  unfoldable pub remove : String → Table V → Table V
  remove k [] = []
  remove k ((j, v) ∷ m) = let rest = remove k m in if str_eq j k then rest else (j, v) ∷ rest

  unfoldable pub insert : String → V → Table V → Table V
  unfolding remove
  insert k v m = (k, v) ∷ remove k m

  pub lookup-remove :
      (k j : String) (m : Table V)
      → lookup j (remove k m) ≡ (if str_eq k j then none else lookup j m)
  unfolding lookup remove
  lookup-remove k j [] = ground arith
  lookup-remove k j ((i, v) ∷ m) =
      ground (arith, lookup-remove k j m, eq_iff i k, eq_iff i j, eq_iff k j)

  pub lookup-insert :
      (k j : String) (v : V) (m : Table V)
      → lookup j (insert k v m) ≡ (if str_eq k j then some v else lookup j m)
  unfolding lookup insert
  lookup-insert k j v m = ground (arith, lookup-remove k j m)

  pub length-remove : (k : String) (m : Table V) → length (remove k m) ≤ length m
  unfolding remove
  length-remove k [] = omega arith
  length-remove k ((j, v) ∷ m) = ground (arith, length-remove k m)

  pub length-insert : (k : String) (v : V) (m : Table V) → length (insert k v m) ≤ suc (length m)
  unfolding insert
  length-insert k v m = omega (arith, length-remove k m)

  -- The keys are distinct: what the length counts is the keys.
  unfoldable pub IsDistinct : Table V → Type ℓ
  IsDistinct [] = Unit
  IsDistinct ((k, v) ∷ m) = (lookup k m ≡ none) × IsDistinct m

  pub remove-IsDistinct : (k : String) (m : Table V) → IsDistinct m → IsDistinct (remove k m)
  unfolding IsDistinct remove
  remove-IsDistinct k [] h = tt
  remove-IsDistinct k ((j, v) ∷ m) (new, h) =
      ground (arith, lookup-remove k j m, remove-IsDistinct k m h)

  pub insert-IsDistinct :
      (k : String) (v : V) (m : Table V) → IsDistinct m → IsDistinct (insert k v m)
  unfolding IsDistinct insert
  insert-IsDistinct k v m h =
      ground (arith, lookup-remove k k m, eq_iff k k, remove-IsDistinct k m h)
