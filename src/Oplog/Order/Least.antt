-- ===== src/Oplog/Order/Least.antt =====
-- What `least_entry` of oplog/identity-library.ts returns: an entry that sorts last.
use Prim.Native.Nat.{Ordering}
use mathlib.Core.Logic.{⊎_elim}
use mathlib.Core.Path.{subst}
use record_node.Prelude.{
  Bytes, true, ◌∙◌, ◌≡◌, refl, some, List, [], ◌∷◌, ◌⊎◌, inl, inr, arith, In, Bool-cases,
  if◌then◌else◌,
}
use record_node.Entry.{HashedEntry, VerifiedEntry}
use record_node.Oplog.Order.{
  compare_bytes, compare_current_state, is_gt, lesser, least_from, least_entry,
}
use record_node.Oplog.Order.Total.{Before, Before-irrefl, Before-trans, Before-cotrans}

compare_bytes_lt : (s t : Bytes) → compare_bytes s t ≡ Ordering.lt → compare_bytes t s ≡ Ordering.gt
unfolding compare_bytes
compare_bytes_lt [] [] h = cc
compare_bytes_lt [] (b ∷ t) h = refl
compare_bytes_lt (a ∷ s) [] h = cc
compare_bytes_lt (a ∷ s) (b ∷ t) h = ground (arith, compare_bytes_lt s t)

compare_bytes_gt : (s t : Bytes) → compare_bytes s t ≡ Ordering.gt → compare_bytes t s ≡ Ordering.lt
unfolding compare_bytes
compare_bytes_gt [] [] h = cc
compare_bytes_gt [] (b ∷ t) h = cc
compare_bytes_gt (a ∷ s) [] h = refl
compare_bytes_gt (a ∷ s) (b ∷ t) h = ground (arith, compare_bytes_gt s t)

Before-is_gt : (a b : HashedEntry) → Before a b → is_gt (compare_current_state b a) ≡ true
unfolding compare_current_state
Before-is_gt a b h = ground (arith, compare_bytes_lt a.multihash b.multihash)

is_gt-Before : (a b : HashedEntry) → is_gt (compare_current_state b a) ≡ true → Before a b
unfolding compare_current_state
is_gt-Before a b h = ground (arith, compare_bytes_gt b.multihash a.multihash)

-- `e` is one of the entries, and none sorts after it.
pub record IsLast (e : VerifiedEntry) (es : List VerifiedEntry) : Type 0 where
  pub among : In e es
  pub last : (x : VerifiedEntry) → In x es → Before e.hashed x.hashed → ⊥

loser : VerifiedEntry → VerifiedEntry → VerifiedEntry
loser c e = if is_gt (compare_current_state e.hashed c.hashed) then e else c

record IsLoser (c e w : VerifiedEntry) : Type 0 where
  chosen : (w ≡ c) ⊎ (w ≡ e)
  not_old : Before w.hashed c.hashed → ⊥
  not_new : Before w.hashed e.hashed → ⊥

loser-IsLoser : (c e : VerifiedEntry) → IsLoser c e (loser c e)
unfolding loser
loser-IsLoser c e = elim (Bool-cases (is_gt (compare_current_state e.hashed c.hashed))) [
  | inl wins ↦ rw wins (record {
    chosen = inr refl;
    not_old = λ b.
        Before-irrefl c.hashed
          (Before-trans c.hashed e.hashed c.hashed (is_gt-Before c.hashed e.hashed wins) b);
    not_new = Before-irrefl e.hashed;
  })
  | inr stays ↦ rw stays (record {
    chosen = inl refl;
    not_old = Before-irrefl c.hashed;
    not_new = λ b. ground (arith, Before-is_gt c.hashed e.hashed b);
  })
]

lesser-loser : (c e : VerifiedEntry) → lesser (some c) e ≡ some (loser c e)
unfolding lesser loser
lesser-loser c e = ground arith

least_from-IsLast :
    (c : VerifiedEntry) (es : List VerifiedEntry)
    → (r : VerifiedEntry) × (least_from (some c) es ≡ some r) × IsLast r (c ∷ es)
unfolding least_from
least_from-IsLast c [] = (
  c,
  refl,
  record {
    among = inl refl;
    last = λ x m b. ⊎_elim (λ e. Before-irrefl c.hashed (rw e at b)) (λ n. n) m;
  },
)
least_from-IsLast c (e ∷ es) =
    let w = loser c e in
    let v = loser-IsLoser c e in
    let (r, eq, f) = least_from-IsLast w es in
    let ahead =
      λ (x : VerifiedEntry) (n : Before w.hashed x.hashed → ⊥) (b : Before r.hashed x.hashed).
        ⊎_elim (f.last w (inl refl)) n (Before-cotrans r.hashed w.hashed x.hashed b) in
    (
      r,
      rw lesser-loser eq,
      record {
        among =
            ⊎_elim (λ s. ⊎_elim (λ o. inl (s ∙ o)) (λ n. inr (inl (s ∙ n))) v.chosen)
              (λ m. inr (inr m)) f.among;
        last = λ x m b.
            ⊎_elim (λ s. ahead c v.not_old (rw s at b))
              (λ m'. ⊎_elim (λ s. ahead e v.not_new (rw s at b)) (λ m''. f.last x (inr m'') b) m')
              m;
      },
    )

pub least-IsLast :
    (es : List VerifiedEntry) (r : VerifiedEntry) → least_entry es ≡ some r → IsLast r es
unfolding least_entry least_from
least-IsLast [] r h = absurd (cc)
least-IsLast (e ∷ es) r h =
    let (w, eq, f) = least_from-IsLast e es in
    let same : w ≡ r = cc (eq, h) in subst (λ v. IsLast v (e ∷ es)) same f
