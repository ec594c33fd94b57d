-- ===== src/Oplog/Causal/Decides.antt =====
-- The search decides the causal past of an oplog whose entries obey the clock rule.
use mathlib.Core.List.{reverse}
use mathlib.Core.Logic.{∥∥₁_elim}
use mathlib.Core.Bool.{So-prop}
use record_node.Prelude.{
  is_some, Bool-cases, inl, inr, ℕ, Text, ◌≡◌, refl, Bool, true, false, Option, none, some, List,
  [], ◌↔◌, arith, length-reverse,
}
use record_node.Dict
use record_node.Dict.{Dict}
use record_node.TextSet.{has-reverse}
use record_node.Entry.{VerifiedEntry, time_of}
use record_node.Oplog.Causal.{meets, direct, Past, search, rounds, in_causal_past, IsClocked}
use record_node.Oplog.Causal.Sound.{search_ends, search_sound}
use record_node.Oplog.Causal.Complete.{search_complete}

module _ (entries : Dict VerifiedEntry) (a : Text) (next : List Text) where
  -- The rounds that `in_causal_past` gives are enough.
  search_returns :
      (floor : ℕ)
      → (b : Bool) × (search entries a floor (rounds entries next) [] (reverse next) ≡ some b)
  search_returns floor =
      search_ends entries a floor (rounds entries next) [] (reverse next)
        (omega (arith, length-reverse next))

  meets_sound : (e : VerifiedEntry) → meets entries a next (some e) ≡ true → Past entries next a
  unfolding meets
  meets_sound e h =
      let (b, r) = search_returns (time_of e) in
      search_sound entries a (time_of e) next (rounds entries next) [] (reverse next)
        (λ x m. direct (rw has-reverse at m)) (ground (arith, r, h))

  meets_complete :
      (e : VerifiedEntry)
      → IsClocked entries
      → Dict.get a entries ≡ some e
      → Past entries next a
      → meets entries a next (some e) ≡ true
  unfolding meets
  meets_complete e clocked held p =
      let (b, r) = search_returns (time_of e) in
      let refuted = λ (f : b ≡ false).
        search_complete entries clocked a e held (rounds entries next) next (rw f at r) p in
      elim (Bool-cases b) [ inl t ↦ ground (arith, r, t) | inr f ↦ absurd (refuted f) ]

  meets_decides :
      (o : Option VerifiedEntry)
      → IsClocked entries
      → Dict.get a entries ≡ o
      → is_some o ≡ true
      → (meets entries a next o ≡ true) ↔ ∥ Past entries next a ∥₁
  meets_decides none clocked held h = absurd (cc)
  meets_decides (some e) clocked held h =
      (λ m. ∣ meets_sound e m ∣₁, λ t. ∥∥₁_elim t (So-prop _) (meets_complete e clocked held))

-- A walk that the search found, and an entry that it found is stored.
pub in_causal_past-Past :
    (entries : Dict VerifiedEntry) (a : Text) (next : List Text) (e : VerifiedEntry)
    → Dict.get a entries ≡ some e
    → in_causal_past entries a next ≡ true
    → Past entries next a
unfolding in_causal_past
in_causal_past-Past entries a next e held h = meets_sound entries a next e (rw held at h)

-- For a stored ancestor, in entries that obey the clock rule, `in_causal_past` is true exactly when a
-- walk along `next` leads to the ancestor, although the search skips entries at or below its clock.
pub in_causal_past_decides :
    (entries : Dict VerifiedEntry) (a : Text) (next : List Text)
    → IsClocked entries
    → Dict.has a entries ≡ true
    → (in_causal_past entries a next ≡ true) ↔ ∥ Past entries next a ∥₁
unfolding in_causal_past
in_causal_past_decides entries a next clocked stored =
    meets_decides entries a next (Dict.get a entries) clocked refl stored
