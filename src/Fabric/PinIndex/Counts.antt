-- ===== src/Fabric/PinIndex/Counts.antt =====
-- What the transactions of a pin and an unpin make of the table of counts.
use mathlib.Core.Option.{get_or}
use record_node.Prelude.{
  ℕ, ◌+◌, ◌-◌, ◌<◌, Text, text_eq, text_eq_iff, ◌≡◌, some, List, [], ◌∷◌, arith, In, inl, inr,
  if◌then◌else◌,
}
use record_node.Dict
use record_node.Dict.{Dict, get-set, get-delete}
use record_node.Fabric.Blocks.{multihash, Cid}
use record_node.Fabric.PinIndex.{reference, dereference, reference_all, dereference_all}

-- The count of a block, 0 without a row.
abbrev pub refs_of : Text → Dict ℕ → ℕ
refs_of b table = get_or (Dict.get b table) 0

-- How often a list of CIDs names a block.
unfoldable pub times : Text → List Cid → ℕ
times b [] = 0
times b (c ∷ cs) = (if text_eq (multihash c) b then 1 else 0) + times b cs

-- A row that is there counts something.
abbrev pub IsPositive : Dict ℕ → Type 0
IsPositive table = (b : Text) (n : ℕ) → Dict.get b table ≡ some n → 0 < n

refs-reference :
    (b k : Text) (table : Dict ℕ)
    → refs_of b (reference k table) ≡ (if text_eq k b then 1 else 0) + refs_of b table
unfolding reference
refs-reference b k table = ground (arith, get-set k b (refs_of k table + 1) table, text_eq_iff k b)

refs-dereference :
    (b k : Text) (table : Dict ℕ)
    → refs_of b (dereference k table) ≡ refs_of b table - (if text_eq k b then 1 else 0)
unfolding dereference
refs-dereference b k table =
    ground (arith, get-set k b (refs_of k table - 1) table, get-delete k b table, text_eq_iff k b)

pub refs-reference_all :
    (b : Text) (cs : List Cid) (table : Dict ℕ)
    → refs_of b (reference_all cs table) ≡ times b cs + refs_of b table
unfolding reference_all times
refs-reference_all b [] table = omega arith
refs-reference_all b (c ∷ cs) table = omega (
  arith,
  refs-reference_all b cs (reference (multihash c) table),
  refs-reference b (multihash c) table,
)

pub refs-dereference_all :
    (b : Text) (cs : List Cid) (table : Dict ℕ)
    → refs_of b (dereference_all cs table) ≡ refs_of b table - times b cs
unfolding dereference_all times
refs-dereference_all b [] table = omega arith
refs-dereference_all b (c ∷ cs) table = omega (
  arith,
  refs-dereference_all b cs (dereference (multihash c) table),
  refs-dereference b (multihash c) table,
)

reference-IsPositive :
    (k : Text) (table : Dict ℕ) → IsPositive table → IsPositive (reference k table)
unfolding reference
reference-IsPositive k table p b n h =
    ground (arith, get-set k b (refs_of k table + 1) table, p b n)

dereference-IsPositive :
    (k : Text) (table : Dict ℕ) → IsPositive table → IsPositive (dereference k table)
unfolding dereference
dereference-IsPositive k table p b n h =
    ground (arith, get-set k b (refs_of k table - 1) table, get-delete k b table, p b n)

pub reference_all-IsPositive :
    (cs : List Cid) (table : Dict ℕ) → IsPositive table → IsPositive (reference_all cs table)
unfolding reference_all
reference_all-IsPositive [] table p = p
reference_all-IsPositive (c ∷ cs) table p =
    reference_all-IsPositive cs (reference (multihash c) table)
      (reference-IsPositive (multihash c) table p)

pub dereference_all-IsPositive :
    (cs : List Cid) (table : Dict ℕ) → IsPositive table → IsPositive (dereference_all cs table)
unfolding dereference_all
dereference_all-IsPositive [] table p = p
dereference_all-IsPositive (c ∷ cs) table p =
    dereference_all-IsPositive cs (dereference (multihash c) table)
      (dereference-IsPositive (multihash c) table p)

-- A block that a list names is counted at least once.
pub times-In : (x : Cid) (cs : List Cid) → In x cs → 0 < times (multihash x) cs
unfolding times
times-In x [] m = absurd m
times-In x (c ∷ cs) (inl e) = ground (arith, text_eq_iff (multihash c) (multihash x))
times-In x (c ∷ cs) (inr m) = omega (arith, times-In x cs m)
