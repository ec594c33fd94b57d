-- ===== src/Dict.antt =====
-- JavaScript's `Map` with string keys: an association list in insertion order. `set` on a key that
-- is there keeps its place.
pub mod Distinct
use record_node.Prelude.{
  Text, text_eq, text_eq_iff, ◌≡◌, refl, Bool, true, ◌||◌, Option, none, some, List, [], ◌∷◌, arith,
  if◌then◌else◌, any, is_some,
}

abbrev pub Dict {ℓ} : Type ℓ → Type ℓ
Dict V = List (Text × V)

module _ {ℓ} {V : Type ℓ} where
  unfoldable pub get : Text → Dict V → Option V
  get k [] = none
  get k ((j, v) ∷ m) = if text_eq j k then some v else get k m

  unfoldable pub set : Text → V → Dict V → Dict V
  set k v [] = (k, v) ∷ []
  set k v ((j, w) ∷ m) = if text_eq j k then (j, v) ∷ m else (j, w) ∷ set k v m

  unfoldable pub delete : Text → Dict V → Dict V
  delete k [] = []
  delete k ((j, w) ∷ m) = let rest = delete k m in if text_eq j k then rest else (j, w) ∷ rest

  abbrev pub has : Text → Dict V → Bool
  has k m = is_some (get k m)

  abbrev pub keys : Dict V → List Text
  keys [] = []
  keys ((k, _) ∷ m) = k ∷ keys m

  abbrev pub values : Dict V → List V
  values [] = []
  values ((_, v) ∷ m) = v ∷ values m

  pub get-set :
      (k j : Text) (v : V) (m : Dict V)
      → get j (set k v m) ≡ (if text_eq k j then some v else get j m)
  unfolding get set
  get-set k j v [] = refl
  get-set k j v ((i, w) ∷ m) =
      ground (arith, text_eq_iff k j, text_eq_iff i k, text_eq_iff i j, get-set k j v m)

  pub get-delete :
      (k j : Text) (m : Dict V) → get j (delete k m) ≡ (if text_eq k j then none else get j m)
  unfolding get delete
  get-delete k j [] = ground arith
  get-delete k j ((i, w) ∷ m) =
      ground (arith, text_eq_iff k j, text_eq_iff i k, text_eq_iff i j, get-delete k j m)

  -- A new key goes to the end.
  pub any-values-set :
      (p : V → Bool) (k : Text) (v : V) (m : Dict V)
      → get k m ≡ none
      → any p (values (set k v m)) ≡ (any p (values m) || p v)
  unfolding get set
  any-values-set p k v [] h = ground arith
  any-values-set p k v ((i, w) ∷ m) h = ground (arith, any-values-set p k v m)

  pub any-values_of_get :
      (p : V → Bool) (k : Text) (v : V) (m : Dict V)
      → get k m ≡ some v
      → p v ≡ true
      → any p (values m) ≡ true
  unfolding get
  any-values_of_get p k v [] h q = cc
  any-values_of_get p k v ((i, w) ∷ m) h q = ground (arith, any-values_of_get p k v m)
