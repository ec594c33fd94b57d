-- ===== src/Replication/Traversal/Invariant.antt =====
-- What holds of a traversal between two steps.
use record_node.Prelude.{
  ℕ, suc, ◌≤◌, Text, ◌≡◌, Bool, Bool-cases, inl, inr, true, false, ◌&&◌, ◌||◌, not, List, [], ◌∷◌,
  arith, length,
}
use record_node.Dict
use record_node.Dict.{Dict, get-set, get-delete}
use record_node.TextSet
use record_node.TextSet.{
  has-nil, has-cons, has-add, has-delete, has-append, has-add_all, has-delete_all,
}
use record_node.Replication.Traversal.{Traversal, Setting, add_one, add}

-- Where a hash that the traversal was told of can be.
abbrev pub is_placed : (Text → Bool) → Traversal → Text → Bool
is_placed landed t h =
    landed h
    || TextSet.has h t.fetched
    || Dict.has h t.rejected
    || TextSet.has h t.queue
    || Dict.has h t.in_flight
    || TextSet.has h t.unresolved

-- At most `concurrency` fetches are in flight, none of a block fetched before, and no hash is lost.
pub record IsSound (setting : Setting) (t : Traversal) : Type 0 where
  pub bounded : length t.in_flight ≤ setting.concurrency
  pub once : (h : Text) → Dict.has h t.in_flight ≡ true → TextSet.has h t.fetched ≡ false
  pub placed : (h : Text) → TextSet.has h t.enqueued ≡ true → is_placed setting.is_landed t h ≡ true

pub length-set-le : (h : Text) (n : ℕ) (m : Dict ℕ) → length (Dict.set h n m) ≤ suc (length m)
unfolding Dict.set
length-set-le h n [] = omega arith
length-set-le h n ((k, v) ∷ m) = ground (arith, length-set-le h n m)

pub length-delete-le : (h : Text) (m : Dict ℕ) → length (Dict.delete h m) ≤ length m
unfolding Dict.delete
length-delete-le h [] = omega arith
length-delete-le h ((k, v) ∷ m) = ground (arith, length-delete-le h m)

module _ (setting : Setting) where
  add_one-IsSound :
      (hash : Text) (t : Traversal) → IsSound setting t → IsSound setting (add_one setting hash t)
  unfolding add_one
  add_one-IsSound hash t s = elim (Bool-cases (setting.is_landed hash)) [
    | inl l ↦ rw l s
    | inr l ↦ elim (Bool-cases (TextSet.has hash t.enqueued)) [
      | inr e ↦ rw l (
          rw e (record {
            bounded = s.bounded;
            once = s.once;
            placed = λ h m. ground (
              arith,
              s.placed h,
              has-add hash h t.enqueued,
              has-append h t.queue (hash ∷ []),
              has-cons h hash [],
              m,
            );
          }))
      | inl e ↦
          elim (Bool-cases (TextSet.has hash t.unresolved && not (Dict.has hash t.in_flight))) [
            | inr u ↦ rw l (rw e (rw u s))
            | inl u ↦ rw l (
                rw e (
                  rw u (record {
                    bounded = s.bounded;
                    once = s.once;
                    placed = λ h m. ground (
                      arith,
                      s.placed h m,
                      has-delete hash h t.unresolved,
                      has-append h t.queue (hash ∷ []),
                      has-cons h hash [],
                    );
                  })))
          ]
    ]
  ]

  pub add-IsSound :
      (hashes : List Text) (t : Traversal)
      → IsSound setting t
      → IsSound setting (add setting hashes t)
  unfolding add
  add-IsSound [] t s = s
  add-IsSound (hash ∷ hashes) t s =
      add-IsSound hashes (add_one setting hash t) (add_one-IsSound hash t s)
