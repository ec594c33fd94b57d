-- ===== src/TextSet.antt =====
-- JavaScript's `Set` of strings: its members in insertion order, each once.
use mathlib.Core.List.{reverse, reverse-cons}
use record_node.Prelude.{
  Text, text_eq, text_eq_iff, ◌≡◌, refl, Bool, false, ◌&&◌, ◌||◌, not, List, [], ◌∷◌, ◌++◌, arith,
  if◌then◌else◌,
}

unfoldable pub has : Text → List Text → Bool
has k [] = false
has k (j ∷ s) = text_eq j k || has k s

unfoldable pub add : Text → List Text → List Text
add k [] = k ∷ []
add k (j ∷ s) = if text_eq j k then j ∷ s else j ∷ add k s

unfoldable pub delete : Text → List Text → List Text
delete k [] = []
delete k (j ∷ s) = let rest = delete k s in if text_eq j k then rest else j ∷ rest

-- `for (const x of xs) set.add(x)`, and the same with `delete`.
unfoldable pub add_all : List Text → List Text → List Text
add_all [] s = s
add_all (k ∷ ks) s = add_all ks (add k s)

unfoldable pub delete_all : List Text → List Text → List Text
delete_all [] s = s
delete_all (k ∷ ks) s = delete_all ks (delete k s)

pub has-nil : (j : Text) → has j [] ≡ false
unfolding has
has-nil j = refl

pub has-cons : (j i : Text) (s : List Text) → has j (i ∷ s) ≡ (text_eq i j || has j s)
unfolding has
has-cons j i s = refl

pub has-add : (k j : Text) (s : List Text) → has j (add k s) ≡ (text_eq k j || has j s)
unfolding has add
has-add k j [] = refl
has-add k j (i ∷ s) =
    ground (arith, text_eq_iff i k, text_eq_iff i j, text_eq_iff k j, has-add k j s)

pub has-delete : (k j : Text) (s : List Text) → has j (delete k s) ≡ (not (text_eq k j) && has j s)
unfolding has delete
has-delete k j [] = ground arith
has-delete k j (i ∷ s) =
    ground (arith, text_eq_iff i k, text_eq_iff i j, text_eq_iff k j, has-delete k j s)

pub has-append : (j : Text) (s t : List Text) → has j (s ++ t) ≡ (has j s || has j t)
unfolding has
has-append j [] t = refl
has-append j (i ∷ s) t = ground (arith, has-append j s t)

pub has-add_all :
    (ks : List Text) (j : Text) (s : List Text) → has j (add_all ks s) ≡ (has j ks || has j s)
unfolding has add_all
has-add_all [] j s = refl
has-add_all (k ∷ ks) j s = ground (arith, has-add_all ks j (add k s), has-add k j s)

pub has-delete_all :
    (ks : List Text) (j : Text) (s : List Text)
    → has j (delete_all ks s) ≡ (not (has j ks) && has j s)
unfolding has delete_all
has-delete_all [] j s = refl
has-delete_all (k ∷ ks) j s = ground (arith, has-delete_all ks j (delete k s), has-delete k j s)

pub has-reverse : (j : Text) (s : List Text) → has j (reverse s) ≡ has j s
unfolding has
has-reverse j [] = refl
has-reverse j (i ∷ s) = rw (reverse-cons, has-append) (ground (arith, has-reverse j s))
