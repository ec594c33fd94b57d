-- ===== src/Dict/Distinct.antt =====
-- Maps in which no key comes twice, as a JavaScript `Map` has them, and what stands in them.
use record_node.Prelude.{
  Text, text_eq_iff, ◌≡◌, refl, ◌⊎◌, none, some, [], ◌∷◌, arith, In, inl, inr,
}
use record_node.Dict
use record_node.Dict.{Dict, get-set, get-delete}

module _ {V : Type 0} where
  abbrev pub IsDistinct : Dict V → Type 0
  IsDistinct [] = Unit
  IsDistinct ((k, _) ∷ m) = (Dict.get k m ≡ none) × IsDistinct m

  pub IsDistinct-delete : (k : Text) (m : Dict V) → IsDistinct m → IsDistinct (Dict.delete k m)
  unfolding Dict.get Dict.delete
  IsDistinct-delete k [] d = tt
  IsDistinct-delete k ((j, g) ∷ m) d = ground (arith, IsDistinct-delete k m, get-delete k j m)

  pub IsDistinct-set : (k : Text) (v : V) (m : Dict V) → IsDistinct m → IsDistinct (Dict.set k v m)
  unfolding Dict.get Dict.set
  IsDistinct-set k v [] d = (refl, tt)
  IsDistinct-set k v ((j, w) ∷ m) d =
      ground (arith, IsDistinct-set k v m, get-set k j v m, text_eq_iff k j, text_eq_iff j k)

  pub In-values_of_get :
      (k : Text) (v : V) (m : Dict V) → Dict.get k m ≡ some v → In v (Dict.values m)
  unfolding Dict.get
  In-values_of_get k v [] h = cc
  In-values_of_get k v ((j, w) ∷ m) h = ground (arith, In-values_of_get k v m)

  -- A value stands under some key.
  pub get_of_In-values :
      (v : V) (m : Dict V)
      → IsDistinct m
      → In v (Dict.values m)
      → (k : Text) × (Dict.get k m ≡ some v)
  unfolding Dict.get
  get_of_In-values v [] d h = absurd h
  get_of_In-values v ((j, w) ∷ m) d (inl e) = (j, ground (arith, text_eq_iff j j))
  get_of_In-values v ((j, w) ∷ m) d (inr h) =
      let (k, e) = get_of_In-values v m d.1 h in (k, ground (arith, text_eq_iff j k))

  pub In-values-set :
      (w : V) (k : Text) (v : V) (m : Dict V)
      → In w (Dict.values (Dict.set k v m))
      → (w ≡ v) ⊎ In w (Dict.values m)
  unfolding Dict.set
  In-values-set w k v [] h = ground arith
  In-values-set w k v ((j, u) ∷ m) h = ground (arith, In-values-set w k v m)

  pub In-values-delete :
      (w : V) (k : Text) (m : Dict V) → In w (Dict.values (Dict.delete k m)) → In w (Dict.values m)
  unfolding Dict.delete
  In-values-delete w k [] h = h
  In-values-delete w k ((j, u) ∷ m) h = ground (arith, In-values-delete w k m)
