-- ===== src/Oplog/Order/Resolve.antt =====
-- What `resolve_current_state` returns, and that the order in which the entries come does not matter.
use record_node.Prelude.{
  ap, sym, ◌∙◌, ◌≡◌, refl, some, List, [], ◌∷◌, ◌⊎◌, inl, inr, ◌↔◌, arith, In, Bool-cases,
  if◌then◌else◌,
}
use mathlib.Core.Logic.{⊎_elim}
use mathlib.Core.Path.{subst}
use record_node.Entry.{VerifiedEntry}
use record_node.Oplog.Order.{
  compare_current_state, is_lt, better, resolve_from, resolve_current_state,
}
use record_node.Oplog.Order.Total.{
  Before, Before-irrefl, Before-trans, Before-total, Before-cotrans,
}

-- `e` is one of the entries, and none sorts before it.
pub record IsFirst (e : VerifiedEntry) (es : List VerifiedEntry) : Type 0 where
  pub among : In e es
  pub first : (x : VerifiedEntry) → In x es → Before x.hashed e.hashed → ⊥

-- The entry that stays after one comparison.
winner : VerifiedEntry → VerifiedEntry → VerifiedEntry
winner c e = if is_lt (compare_current_state e.hashed c.hashed) then e else c

record IsWinner (c e w : VerifiedEntry) : Type 0 where
  chosen : (w ≡ c) ⊎ (w ≡ e)
  not_old : Before c.hashed w.hashed → ⊥
  not_new : Before e.hashed w.hashed → ⊥

winner-IsWinner : (c e : VerifiedEntry) → IsWinner c e (winner c e)
unfolding winner
winner-IsWinner c e = elim (Bool-cases (is_lt (compare_current_state e.hashed c.hashed))) [
  | inl wins ↦ rw wins (record {
    chosen = inr refl;
    not_old =
        λ b. Before-irrefl c.hashed (Before-trans c.hashed e.hashed c.hashed b (ground arith));
    not_new = Before-irrefl e.hashed;
  })
  | inr stays ↦
      rw stays (record {
        chosen = inl refl;
        not_old = Before-irrefl c.hashed;
        not_new = λ b. ground arith;
      })
]

better-winner : (c e : VerifiedEntry) → better (some c) e ≡ some (winner c e)
unfolding better winner
better-winner c e = ground arith

resolve_from-IsFirst :
    (c : VerifiedEntry) (es : List VerifiedEntry)
    → (r : VerifiedEntry) × (resolve_from (some c) es ≡ some r) × IsFirst r (c ∷ es)
unfolding resolve_from
resolve_from-IsFirst c [] = (
  c,
  refl,
  record {
    among = inl refl;
    first = λ x m b. ⊎_elim (λ e. Before-irrefl c.hashed (rw e at b)) (λ n. n) m;
  },
)
resolve_from-IsFirst c (e ∷ es) =
    let w = winner c e in
    let v = winner-IsWinner c e in
    let (r, eq, f) = resolve_from-IsFirst w es in
    let behind =
      λ (x : VerifiedEntry) (n : Before x.hashed w.hashed → ⊥) (b : Before x.hashed r.hashed).
        ⊎_elim n (f.first w (inl refl)) (Before-cotrans x.hashed w.hashed r.hashed b) in
    (
      r,
      rw better-winner eq,
      record {
        among =
            ⊎_elim (λ s. ⊎_elim (λ o. inl (s ∙ o)) (λ n. inr (inl (s ∙ n))) v.chosen)
              (λ m. inr (inr m)) f.among;
        first = λ x m b.
            ⊎_elim (λ s. behind c v.not_old (rw s at b))
              (λ m'. ⊎_elim (λ s. behind e v.not_new (rw s at b)) (λ m''. f.first x (inr m'') b) m')
              m;
      },
    )

-- Among entries of different multihashes only one comes first.
IsFirst-unique :
    (a b : VerifiedEntry) (es fs : List VerifiedEntry)
    → IsFirst a es
    → IsFirst b fs
    → In a fs
    → In b es
    → a.multihash ≡ b.multihash
IsFirst-unique a b es fs ha hb af be = elim (Before-total a.hashed b.hashed) [
  | inl before ↦ absurd (hb.first a af before)
  | inr (inl after) ↦ absurd (ha.first b be after)
  | inr (inr same) ↦ same
]

pub resolve-IsFirst :
    (es : List VerifiedEntry) (r : VerifiedEntry) → resolve_current_state es ≡ some r → IsFirst r es
unfolding resolve_current_state
resolve-IsFirst [] r h = absurd (cc)
resolve-IsFirst (e ∷ es) r h =
    let (w, eq, f) = resolve_from-IsFirst e es in
    let same : w ≡ r = cc (eq, h) in subst (λ v. IsFirst v (e ∷ es)) same f

-- If `resolve_current_state` sees the same entries in another order or more than once, and entries of
-- one multihash are one entry, it returns the same entry.
pub resolve_order_independent :
    (es fs : List VerifiedEntry)
    → ((x : VerifiedEntry) → In x es ↔ In x fs)
    → ((x y : VerifiedEntry) → In x es → In y es → x.multihash ≡ y.multihash → x ≡ y)
    → resolve_current_state es ≡ resolve_current_state fs
unfolding resolve_current_state
resolve_order_independent [] [] same distinct = refl
resolve_order_independent [] (f ∷ fs) same distinct = absurd ((same f).1 (inl refl))
resolve_order_independent (e ∷ es) [] same distinct = absurd ((same e).0 (inl refl))
resolve_order_independent (e ∷ es) (f ∷ fs) same distinct =
    let (a, ea, ha) = resolve_from-IsFirst e es in
    let (b, fb, hb) = resolve_from-IsFirst f fs in
    let af = (same a).0 ha.among in
    let be = (same b).1 hb.among in
    let one : a ≡ b = distinct a b ha.among be (IsFirst-unique a b (e ∷ es) (f ∷ fs) ha hb af be) in
    ea ∙ ap some one ∙ sym fb
