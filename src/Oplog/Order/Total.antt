-- ===== src/Oplog/Order/Total.antt =====
-- The order of current-state resolution is a strict total order on entries of different multihashes.
use Prim.Native.Nat.{Ordering}
use record_node.Prelude.{Bytes, ◌≡◌, refl, ◌⊎◌, inl, inr, [], ◌∷◌, arith}
use record_node.Entry.{HashedEntry}
use record_node.Oplog.Order.{compare_bytes, compare_current_state}

pub compare_bytes_refl : (s : Bytes) → compare_bytes s s ≡ Ordering.eq
unfolding compare_bytes
compare_bytes_refl [] = refl
compare_bytes_refl (a ∷ s) = ground (arith, compare_bytes_refl s)

compare_bytes-eq : (s t : Bytes) → compare_bytes s t ≡ Ordering.eq → s ≡ t
unfolding compare_bytes
compare_bytes-eq [] [] h = refl
compare_bytes-eq [] (b ∷ t) h = cc
compare_bytes-eq (a ∷ s) [] h = cc
compare_bytes-eq (a ∷ s) (b ∷ t) h = ground (arith, compare_bytes-eq s t)

compare_bytes_flip :
    (s t : Bytes) → compare_bytes s t ≡ Ordering.gt → compare_bytes t s ≡ Ordering.lt
unfolding compare_bytes
compare_bytes_flip [] [] h = cc
compare_bytes_flip [] (b ∷ t) h = cc
compare_bytes_flip (a ∷ s) [] h = refl
compare_bytes_flip (a ∷ s) (b ∷ t) h = ground (arith, compare_bytes_flip s t)

compare_bytes_trans :
    (s t u : Bytes)
    → compare_bytes s t ≡ Ordering.lt
    → compare_bytes t u ≡ Ordering.lt
    → compare_bytes s u ≡ Ordering.lt
unfolding compare_bytes
compare_bytes_trans [] [] u h k = cc
compare_bytes_trans [] (b ∷ t) [] h k = cc
compare_bytes_trans [] (b ∷ t) (c ∷ u) h k = refl
compare_bytes_trans (a ∷ s) [] u h k = cc
compare_bytes_trans (a ∷ s) (b ∷ t) [] h k = cc
compare_bytes_trans (a ∷ s) (b ∷ t) (c ∷ u) h k = ground (arith, compare_bytes_trans s t u)

-- `a` sorts before `b`.
abbrev pub Before : HashedEntry → HashedEntry → Type 0
Before a b = compare_current_state a b ≡ Ordering.lt

-- An entry does not sort before itself.
pub Before-irrefl : (a : HashedEntry) → Before a a → ⊥
unfolding compare_current_state
Before-irrefl a h = ground (arith, compare_bytes_refl a.multihash)

pub Before-trans : (a b c : HashedEntry) → Before a b → Before b c → Before a c
unfolding compare_current_state
Before-trans a b c h k = ground (arith, compare_bytes_trans a.multihash b.multihash c.multihash)

-- Of two entries with different multihashes one sorts before the other.
pub Before-total : (a b : HashedEntry) → Before a b ⊎ Before b a ⊎ (a.multihash ≡ b.multihash)
unfolding compare_current_state
Before-total a b =
    ground
      (arith, compare_bytes-eq a.multihash b.multihash, compare_bytes_flip a.multihash b.multihash)

compare_bytes_cotrans :
    (s t u : Bytes)
    → compare_bytes s u ≡ Ordering.lt
    → (compare_bytes s t ≡ Ordering.lt) ⊎ (compare_bytes t u ≡ Ordering.lt)
unfolding compare_bytes
compare_bytes_cotrans [] [] u h = inr h
compare_bytes_cotrans [] (b ∷ t) u h = inl refl
compare_bytes_cotrans (a ∷ s) [] [] h = cc
compare_bytes_cotrans (a ∷ s) [] (c ∷ u) h = inr refl
compare_bytes_cotrans (a ∷ s) (b ∷ t) [] h = cc
compare_bytes_cotrans (a ∷ s) (b ∷ t) (c ∷ u) h = ground (arith, compare_bytes_cotrans s t u)

-- Whatever lies between two entries in order is apart from one of them.
pub Before-cotrans : (a b c : HashedEntry) → Before a c → Before a b ⊎ Before b c
unfolding compare_current_state
Before-cotrans a b c h = ground (arith, compare_bytes_cotrans a.multihash b.multihash c.multihash)
