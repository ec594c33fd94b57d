-- ===== src/Oplog/Clocks.antt =====
-- oplog/accept.ts: what the clock check of an entry gives, and that insertion keeps the clock rule.
use record_node.Prelude.{
  ℕ, suc, ◌≤◌, ◌<◌, max, Text, text_eq, text_eq_iff, ◌≡◌, Bool-cases, Option-cases, inl, inr, true,
  false, some, List, [], ◌∷◌, arith, ==_iff,
}
use record_node.Dict
use record_node.Dict.{Dict, get-set}
use record_node.TextSet
use record_node.TextSet.{has-nil, has-cons}
use record_node.Entry.{HashedEntry, VerifiedEntry, time_of}
use record_node.Result.{ok}
use record_node.Oplog.{Oplog, insert_entry, inserted}
use record_node.Oplog.Causal.{IsClocked}
use record_node.Oplog.Accept.{greatest_clock, expected_clock_time, assert_clock}

-- The parent is stored, with a clock of at most n.
abbrev pub HasParent : Dict VerifiedEntry → ℕ → Text → Type 0
HasParent entries n p = (d : VerifiedEntry) × (Dict.get p entries ≡ some d) × (time_of d ≤ n)

greatest_clock-grows :
    (entries : Dict VerifiedEntry) (m : ℕ) (next : List Text) (n : ℕ)
    → greatest_clock entries m next ≡ some n
    → m ≤ n
unfolding greatest_clock
greatest_clock-grows entries m [] n g = ground arith
greatest_clock-grows entries m (h ∷ next) n g = elim (Option-cases (Dict.get h entries)) [
  | inl e ↦ absurd (ground arith)
  | inr (d, e) ↦
      let rest : greatest_clock entries (max m (time_of d)) next ≡ some n =
        rw (e, greatest_clock) at g in
      omega (arith, greatest_clock-grows entries (max m (time_of d)) next n rest)
]

greatest_clock-HasParent :
    (entries : Dict VerifiedEntry) (m : ℕ) (next : List Text) (n : ℕ) (p : Text)
    → greatest_clock entries m next ≡ some n
    → TextSet.has p next ≡ true
    → HasParent entries n p
unfolding greatest_clock
greatest_clock-HasParent entries m [] n p g s = absurd (ground (arith, has-nil p))
greatest_clock-HasParent entries m (h ∷ next) n p g s = elim (Option-cases (Dict.get h entries)) [
  | inl e ↦ absurd (ground arith)
  | inr (d, e) ↦
      let rest : greatest_clock entries (max m (time_of d)) next ≡ some n =
        rw (e, greatest_clock) at g in
      elim (Bool-cases (text_eq h p)) [
        | inl t ↦ (
          d,
          ground (arith, text_eq_iff h p),
          omega (arith, greatest_clock-grows entries (max m (time_of d)) next n rest),
        )
        | inr f ↦
            greatest_clock-HasParent entries (max m (time_of d)) next n p rest
              (ground (arith, has-cons p h next))
      ]
]

-- Every `next` of the entry is stored, with a smaller clock.
abbrev pub IsAfterParents : Dict VerifiedEntry → HashedEntry → Type 0
IsAfterParents entries hashed =
    (p : Text)
    → TextSet.has p hashed.entry.next ≡ true
    → (d : VerifiedEntry) × (Dict.get p entries ≡ some d) × (time_of d < hashed.entry.clock.time)

pub assert_clock-IsAfterParents :
    (oplog : Oplog) (hashed : HashedEntry)
    → assert_clock oplog hashed ≡ ok tt
    → IsAfterParents oplog.entries hashed
unfolding assert_clock expected_clock_time
assert_clock-IsAfterParents oplog hashed h p s =
    elim (Option-cases (greatest_clock oplog.entries 0 hashed.entry.next)) [
      | inl e ↦ absurd (ground arith)
      | inr (n, e) ↦
          let (d, held, bound) =
            greatest_clock-HasParent oplog.entries 0 hashed.entry.next n p e s in
          (d, held, ground (arith, ==_iff hashed.entry.clock.time (suc n), bound))
    ]

module _ (e : VerifiedEntry) (oplog : Oplog) (fresh : Dict.has e.hash oplog.entries ≡ false) where
  still_held :
      (p : Text) (d : VerifiedEntry)
      → Dict.get p oplog.entries ≡ some d
      → Dict.get p (inserted e oplog).entries ≡ some d
  unfolding inserted
  still_held p d g = ground (arith, get-set e.hash p e oplog.entries, text_eq_iff e.hash p, fresh)

  inserted-IsClocked :
      IsClocked oplog.entries
      → IsAfterParents oplog.entries e.hashed
      → IsClocked (inserted e oplog).entries
  inserted-IsClocked c after = record {
    parent = λ h p x g s. elim (Bool-cases (text_eq e.hash h)) [
      | inl t ↦
          let same : x ≡ e = unfold inserted in ground (arith, get-set e.hash h e oplog.entries) in
          let (d, held, less) = after p (ground arith) in (d, still_held p d held, ground arith)
      | inr f ↦
          let old : Dict.get h oplog.entries ≡ some x =
            unfold inserted in ground (arith, get-set e.hash h e oplog.entries) in
          let (d, held, less) = c.parent h p x old s in (d, still_held p d held, less)
    ];
  }

-- Inserting an entry whose parents are stored with smaller clocks keeps the clock rule.
pub insert_entry-IsClocked :
    (e : VerifiedEntry) (oplog : Oplog)
    → IsClocked oplog.entries
    → IsAfterParents oplog.entries e.hashed
    → IsClocked (insert_entry e oplog).0.entries
unfolding insert_entry
insert_entry-IsClocked e oplog c after = elim (Bool-cases (Dict.has e.hash oplog.entries)) [
  | inl held ↦ rw held c
  | inr absent ↦ rw absent (inserted-IsClocked e oplog absent c after)
]
