-- ===== src/Oplog/Causal/Sound.antt =====
-- The search ends within its rounds, and what it finds is in the causal past.
use record_node.Prelude.{
  ℕ, zero, suc, ◌+◌, ◌≤◌, ◌<◌, Text, text_eq, text_eq_iff, text_eq_refl, ◌≡◌, refl, Bool, true,
  false, Option, none, some, List, [], ◌∷◌, ◌++◌, inl, inr, arith, length, length-append,
  length-reverse, Bool-cases,
}
use record_node.Dict
use record_node.Dict.{Dict}
use record_node.TextSet
use record_node.TextSet.{has-append, has-cons, has-nil, has-reverse}
use record_node.Entry.{VerifiedEntry, next_of}
use record_node.Oplog.Causal.{Past, further, search, pushed, unseen_work}

pub unseen_work_mono :
    (h : Text) (seen : List Text) (m : Dict VerifiedEntry)
    → unseen_work (h ∷ seen) m ≤ unseen_work seen m
unfolding unseen_work TextSet.has
unseen_work_mono h seen [] = omega arith
unseen_work_mono h seen ((j, e) ∷ m) = ground (arith, unseen_work_mono h seen m)

pub unseen_work_visit :
    (h : Text) (seen : List Text) (m : Dict VerifiedEntry) (e : VerifiedEntry)
    → TextSet.has h seen ≡ false
    → Dict.get h m ≡ some e
    → length (next_of e) + unseen_work (h ∷ seen) m ≤ unseen_work seen m
unfolding unseen_work TextSet.has Dict.get
unseen_work_visit h seen [] e fresh found = cc
unseen_work_visit h seen ((j, d) ∷ m) e fresh found = ground (
  arith,
  text_eq_iff j h,
  text_eq_iff h j,
  unseen_work_mono h seen m,
  unseen_work_visit h seen m e,
)

module _ (entries : Dict VerifiedEntry) (a : Text) (floor : ℕ) where
  length-pushed :
      (h : Text) (seen : List Text) (o : Option VerifiedEntry)
      → TextSet.has h seen ≡ false
      → Dict.get h entries ≡ o
      → length (pushed floor o) + unseen_work (h ∷ seen) entries ≤ unseen_work seen entries
  length-pushed h seen none fresh found = omega (arith, unseen_work_mono h seen entries)
  length-pushed h seen (some e) fresh found = ground (
    arith,
    length-reverse (next_of e),
    unseen_work_mono h seen entries,
    unseen_work_visit h seen entries e fresh found,
  )

  pub search_ends :
      (fuel : ℕ) (seen stack : List Text)
      → length stack + unseen_work seen entries < fuel
      → (b : Bool) × (search entries a floor fuel seen stack ≡ some b)
  unfolding search
  search_ends zero seen stack h = absurd (omega arith)
  search_ends (suc fuel) seen [] h = (false, refl)
  search_ends (suc fuel) seen (x ∷ stack) h = elim (Bool-cases (text_eq x a)) [
    | inl found ↦ (true, rw found)
    | inr other ↦ elim (Bool-cases (TextSet.has x seen)) [
      | inl old ↦ rw (other, old) (search_ends fuel seen stack (omega arith))
      | inr new ↦
          let o = Dict.get x entries in
          rw (other, new)
            (search_ends fuel (x ∷ seen) (pushed floor o ++ stack) (
              omega (arith, length-append (pushed floor o) stack, length-pushed x seen o new refl)))
    ]
  ]

  Past-pushed :
      (next : List Text) (x y : Text) (o : Option VerifiedEntry)
      → Dict.get x entries ≡ o
      → Past entries next x
      → TextSet.has y (pushed floor o) ≡ true
      → Past entries next y
  Past-pushed next x y none found p h = absurd (ground (arith, has-nil y))
  Past-pushed next x y (some e) found p h =
      further {h = y} p found (ground (arith, has-reverse y (next_of e), has-nil y))

  -- What is found is in the past of whatever the stack came from.
  pub search_sound :
      (next : List Text) (fuel : ℕ) (seen stack : List Text)
      → ((x : Text) → TextSet.has x stack ≡ true → Past entries next x)
      → search entries a floor fuel seen stack ≡ some true
      → Past entries next a
  unfolding search
  search_sound next zero seen stack from h = absurd (cc)
  search_sound next (suc fuel) seen [] from h = absurd (ground arith)
  search_sound next (suc fuel) seen (x ∷ stack) from h = elim (Bool-cases (text_eq x a)) [
    | inl found ↦ from a (ground (arith, has-cons a x stack))
    | inr other ↦ elim (Bool-cases (TextSet.has x seen)) [
      | inl old ↦
          search_sound next fuel seen stack (λ y m. from y (ground (arith, has-cons y x stack)))
            (rw (other, old) at h)
      | inr new ↦
          let o = Dict.get x entries in
          let here = from x (ground (arith, has-cons x x stack, text_eq_refl x)) in
          search_sound next fuel (x ∷ seen) (pushed floor o ++ stack)
            (λ y m. elim (Bool-cases (TextSet.has y stack)) [
              | inl waiting ↦ from y (ground (arith, has-cons y x stack))
              | inr absent ↦
                  Past-pushed next x y o refl here
                    (ground (arith, has-append y (pushed floor o) stack))
            ])
            (rw (other, new) at h)
    ]
  ]
