-- ===== src/Fabric/Blocks/Walk/Stable.antt =====
-- The blocks that a walk lists are stored, and a walk is the same in any store that agrees on them.
use record_node.Prelude.{
  ℕ, zero, suc, ◌≡◌, refl, sym, ap, ◌∙◌, Bool, true, false, ◌⊎◌, inl, inr, some, List, [], ◌∷◌,
  arith, In,
}
use mathlib.Core.Logic.{⊎_elim}
use mathlib.Core.Path.{subst}
use record_node.Dict
use record_node.Dict.{Dict}
use record_node.Result.{ok, >>=-eq-ok}
use record_node.Host.{Host}
use record_node.Fabric.Blocks.{Cid, CidHost, format_cid, Blocks, visit_all, visit, walk_blocks}
use record_node.Fabric.Blocks.Walk.{
  Extends, Extends-refl, Extends-trans, set-absent, In-values-append, In-values-left,
  visit_all_along, seen, leaf, inner, visit-Visited, visit-Extends,
}

In-values-set :
    (cids : CidHost) (c : Cid) (a : Dict Cid)
    → Dict.has (format_cid cids c) a ≡ false
    → In c (Dict.values (Dict.set (format_cid cids c) c a))
unfolding Dict.set Dict.get
In-values-set cids c [] h = inl refl
In-values-set cids c ((k, d) ∷ a) h = ground (arith, In-values-set cids c a)

abbrev IsStored : CidHost → Blocks → Dict Cid → Dict Cid → Type 0
IsStored cids blocks a b =
    (x : Cid)
    → In x (Dict.values b)
    → In x (Dict.values a) ⊎ (Dict.has (format_cid cids x) blocks ≡ true)

-- Two stores hold the same under these CIDs.
abbrev pub Agree : CidHost → Blocks → Blocks → List Cid → Type 0
Agree cids blocks later xs =
    (x : Cid) → In x xs → Dict.get (format_cid cids x) later ≡ Dict.get (format_cid cids x) blocks

module _ (host : Host) (cids : CidHost) (blocks : Blocks) (recursive : Bool) where
  IsStored-set :
      (c : Cid) (a : Dict Cid)
      → Dict.has (format_cid cids c) a ≡ false
      → Dict.has (format_cid cids c) blocks ≡ true
      → IsStored cids blocks a (Dict.set (format_cid cids c) c a)
  IsStored-set c a new stored x m =
      elim (In-values-append x a (((format_cid cids c), c) ∷ [])
        (subst (λ d. In x (Dict.values d)) (set-absent (format_cid cids c) c a new) m)) [
          | inl old ↦ inl old
          | inr (inl e) ↦ inr (rw e stored)
          | inr (inr n) ↦ absurd n
        ]

  visit-IsStored :
      (fuel : ℕ) (next : Cid) (a b : Dict Cid)
      → visit host cids blocks recursive fuel next a ≡ ok b
      → IsStored cids blocks a b
  unfolding visit
  visit-IsStored zero next a b h = absurd (ground arith)
  visit-IsStored (suc fuel) next a b h =
      elim (visit-Visited host cids blocks recursive fuel next a b h) [
        | seen e _ ↦ rw e (λ x m. inl m)
        | leaf new _ stored e ↦ rw e (IsStored-set next a new stored)
        | inner new _ block found links _ rest ↦
            let after = Dict.set (format_cid cids next) next a in
            let more =
              visit_all_along (IsStored cids blocks) (λ d x m. inl m)
                (λ p q r f g x m. ⊎_elim (f x) inr (g x m)) (visit host cids blocks recursive fuel)
                (visit-IsStored fuel) links after b rest in
            λ x m. ⊎_elim (IsStored-set next a new (rw found refl) x) inr (more x m)
      ]

module _ (host : Host) (cids : CidHost) (blocks later : Blocks) (recursive : Bool) where
  visit_all-Agree :
      (fuel : ℕ)
      → ((c : Cid) (a b : Dict Cid)
          → visit host cids blocks recursive fuel c a ≡ ok b
          → Agree cids blocks later (Dict.values b)
          → visit host cids later recursive fuel c a ≡ ok b)
      → (cs : List Cid) (a b : Dict Cid)
      → visit_all (visit host cids blocks recursive fuel) cs a ≡ ok b
      → Agree cids blocks later (Dict.values b)
      → visit_all (visit host cids later recursive fuel) cs a ≡ ok b
  unfolding visit_all
  visit_all-Agree fuel one [] a b h same = h
  visit_all-Agree fuel one (c ∷ cs) a b h same =
      let f = visit host cids blocks recursive fuel in
      let (m, p, q) = >>=-eq-ok (f c a) (λ after. visit_all f cs after) h in
      let (more, e) =
        visit_all_along Extends Extends-refl Extends-trans f
          (visit-Extends host cids blocks recursive fuel) cs m b q in
      let earlier : Agree cids blocks later (Dict.values m) =
        λ x i. same x (rw e (In-values-left x m more i)) in
      rw (one c a m p earlier) (visit_all-Agree fuel one cs m b q same)

  visit-Agree :
      (fuel : ℕ) (next : Cid) (a b : Dict Cid)
      → visit host cids blocks recursive fuel next a ≡ ok b
      → Agree cids blocks later (Dict.values b)
      → visit host cids later recursive fuel next a ≡ ok b
  unfolding visit
  visit-Agree zero next a b h same = h
  visit-Agree (suc fuel) next a b h same =
      elim (visit-Visited host cids blocks recursive fuel next a b h) [
        | seen e old ↦ rw old (ap ok (sym e))
        | leaf new end stored e ↦
            let there = same next (rw e (In-values-set cids next a new)) in
            let stored' : Dict.has (format_cid cids next) later ≡ true = rw there stored in
            rw new (rw end (rw stored' (ap ok (sym e))))
        | inner new deep block found links read rest ↦
            let after = Dict.set (format_cid cids next) next a in
            let f = visit host cids blocks recursive fuel in
            let (more, e) =
              visit_all_along Extends Extends-refl Extends-trans f
                (visit-Extends host cids blocks recursive fuel) links after b rest in
            let listed = In-values-left next after more (In-values-set cids next a new) in
            let there : Dict.get (format_cid cids next) later ≡ some block =
              same next (rw e listed) ∙ found in
            rw new (
              rw deep (
                rw there
                  (rw read (visit_all-Agree fuel (visit-Agree fuel) links after b rest same))))
      ]

module _ (host : Host) (cids : CidHost) (blocks : Blocks) where
  pub walk-stored :
      (fuel : ℕ) (cid : Cid) (recursive : Bool) (covered : List Cid)
      → walk_blocks host cids blocks fuel cid recursive ≡ ok covered
      → (x : Cid) → In x covered
      → Dict.has (format_cid cids x) blocks ≡ true
  unfolding walk_blocks
  walk-stored fuel cid recursive covered h x m =
      let (b, p, q) = >>=-eq-ok (visit host cids blocks recursive fuel cid []) _ h in
      let listed : Dict.values b ≡ covered = cc (q) in
      ⊎_elim (λ n. absurd n) (λ s. s)
        (visit-IsStored host cids blocks recursive fuel cid [] b p x (rw listed m))

  pub walk-Agree :
      (fuel : ℕ) (later : Blocks) (cid : Cid) (recursive : Bool) (covered : List Cid)
      → walk_blocks host cids blocks fuel cid recursive ≡ ok covered
      → Agree cids blocks later covered
      → walk_blocks host cids later fuel cid recursive ≡ ok covered
  unfolding walk_blocks
  walk-Agree fuel later cid recursive covered h same =
      let (b, p, q) = >>=-eq-ok (visit host cids blocks recursive fuel cid []) _ h in
      let listed : Dict.values b ≡ covered = cc (q) in
      rw (visit-Agree host cids blocks later recursive fuel cid [] b p (rw listed same)) q
