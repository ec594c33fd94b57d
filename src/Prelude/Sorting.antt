-- ===== src/Prelude/Sorting.antt =====
-- `Array.prototype.sort`, which is stable, as insertion sort by a strict order.
use Prim.Native.Nat.{◌+◌}
use mathlib.Core.Path.{◌≡◌, refl}
use mathlib.Core.Logic.{◌↔◌, ◌⊎◌}
use mathlib.Core.Bool.{Bool}
use mathlib.Core.List.{List, [], ◌∷◌}
use native.Mathlib.Omega.{arith}
use record_node.Prelude.Tests.{if◌then◌else◌}
use record_node.Prelude.Lists.{length, In}

module _ {ℓ} {A : Type ℓ} (before : A → A → Bool) where
  unfoldable pub insert_sorted : A → List A → List A
  insert_sorted x [] = x ∷ []
  insert_sorted x (y ∷ ys) =
      let later = insert_sorted x ys in if before y x then y ∷ later else x ∷ y ∷ ys

  unfoldable pub sort_by : List A → List A
  unfolding insert_sorted
  sort_by [] = []
  sort_by (x ∷ xs) = insert_sorted x (sort_by xs)

  length-insert_sorted : (x : A) (xs : List A) → length (insert_sorted x xs) ≡ length xs + 1
  unfolding insert_sorted
  length-insert_sorted x [] = omega arith
  length-insert_sorted x (y ∷ ys) = ground (arith, length-insert_sorted x ys)

  pub length-sort_by : (xs : List A) → length (sort_by xs) ≡ length xs
  unfolding sort_by
  length-sort_by [] = refl
  length-sort_by (x ∷ xs) = omega (arith, length-insert_sorted x (sort_by xs), length-sort_by xs)

module _ {A : Type 0} (before : A → A → Bool) where
  In-insert_sorted :
      (a x : A) (xs : List A) → In a (insert_sorted before x xs) ↔ ((a ≡ x) ⊎ In a xs)
  unfolding insert_sorted
  In-insert_sorted a x [] = ground arith
  In-insert_sorted a x (y ∷ ys) = ground (arith, In-insert_sorted a x ys)

  -- Sorting keeps the members.
  pub In-sort_by : (a : A) (xs : List A) → In a (sort_by before xs) ↔ In a xs
  unfolding sort_by
  In-sort_by a [] = ground arith
  In-sort_by a (x ∷ xs) = ground (arith, In-insert_sorted a x (sort_by before xs), In-sort_by a xs)
