-- ===== src/Fabric/Blocks/Fuel.antt =====
-- A walk needs no more fuel than there are blocks: each block on the path from the root is stored, and
-- visited once.
use record_node.Prelude.{
  ℕ, zero, suc, ◌+◌, ◌≤◌, ◌<◌, Text, Bytes, text_eq_iff, ◌≡◌, refl, Bool, true, false, ◌||◌, List,
  [], ◌∷◌, ◌++◌, arith, length, if◌then◌else◌, Bool-cases, Option-cases, inl, inr,
}
use record_node.Dict
use record_node.Dict.{Dict, get-set}
use record_node.Result.{Result, ok, err, ◌>>=◌}
use record_node.Host.{Host}
use record_node.Fabric.Blocks.{
  Cid, CidHost, format_cid, Blocks, links_of, visit_all, visit, walk_blocks,
}
use record_node.Fabric.Blocks.Walk.{visit-Extends, is_leaf}

-- The blocks that are not visited.
unfoldable pub unseen : Blocks → Dict Cid → ℕ
unseen [] visited = 0
unseen ((k, _) ∷ blocks) visited = (if Dict.has k visited then 0 else 1) + unseen blocks visited

has-append : (k : Text) (a m : Dict Cid) → Dict.has k (a ++ m) ≡ (Dict.has k a || Dict.has k m)
unfolding Dict.get
has-append k [] m = refl
has-append k ((j, c) ∷ a) m = ground (arith, has-append k a m)

unseen-append : (blocks : Blocks) (a m : Dict Cid) → unseen blocks (a ++ m) ≤ unseen blocks a
unfolding unseen
unseen-append [] a m = omega arith
unseen-append ((k, _) ∷ blocks) a m = ground (arith, unseen-append blocks a m, has-append k a m)

unseen-Extends :
    (blocks : Blocks) (a b m : Dict Cid) → b ≡ a ++ m → unseen blocks b ≤ unseen blocks a
unseen-Extends blocks a b m e = rw e (unseen-append blocks a m)

unseen-set-le :
    (blocks : Blocks) (k : Text) (c : Cid) (a : Dict Cid)
    → unseen blocks (Dict.set k c a) ≤ unseen blocks a
unfolding unseen
unseen-set-le [] k c a = omega arith
unseen-set-le ((j, _) ∷ blocks) k c a = ground (arith, unseen-set-le blocks k c a, get-set k j c a)

unseen-set :
    (blocks : Blocks) (k : Text) (c : Cid) (a : Dict Cid)
    → Dict.has k a ≡ false
    → Dict.has k blocks ≡ true
    → unseen blocks (Dict.set k c a) < unseen blocks a
unfolding unseen Dict.get
unseen-set [] k c a new there = cc
unseen-set ((j, _) ∷ blocks) k c a new there =
    ground
      (arith, unseen-set blocks k c a, unseen-set-le blocks k c a, get-set k j c a, text_eq_iff j k)

pub unseen-le : (blocks : Blocks) (a : Dict Cid) → unseen blocks a ≤ length blocks
unfolding unseen
unseen-le [] a = omega arith
unseen-le ((k, _) ∷ blocks) a = ground (arith, unseen-le blocks a)

module _ (host : Host) (cids : CidHost) (blocks : Blocks) (recursive : Bool) where
  visit_all-fuel :
      (f g : ℕ)
      → ((c : Cid) (a : Dict Cid)
          → unseen blocks a < f
          → unseen blocks a < g
          → visit host cids blocks recursive f c a ≡ visit host cids blocks recursive g c a)
      → (cs : List Cid) (a : Dict Cid) → unseen blocks a < f
      → unseen blocks a < g
      → visit_all (visit host cids blocks recursive f) cs a
        ≡ visit_all (visit host cids blocks recursive g) cs a
  unfolding visit_all
  visit_all-fuel f g one [] a p q = refl
  visit_all-fuel f g one (c ∷ cs) a p q =
      by_first (visit host cids blocks recursive f c a) refl (one c a p q) (λ b m e.
        visit_all-fuel f g one cs b (omega (arith, unseen-Extends blocks a b m e))
          (omega (arith, unseen-Extends blocks a b m e)))
    where
      by_first :
          (r : Result (Dict Cid))
          → visit host cids blocks recursive f c a ≡ r
          → visit host cids blocks recursive f c a ≡ visit host cids blocks recursive g c a
          → ((b m : Dict Cid)
              → b ≡ a ++ m
              → visit_all (visit host cids blocks recursive f) cs b
                ≡ visit_all (visit host cids blocks recursive g) cs b)
          → visit_all (visit host cids blocks recursive f) (c ∷ cs) a
            ≡ visit_all (visit host cids blocks recursive g) (c ∷ cs) a
      by_first (err e) r same rest = rw (← same) (rw r refl)
      by_first (ok b) r same rest =
          let (m, grown) = visit-Extends host cids blocks recursive f c a b r in
          rw (← same) (rw r (rest b m grown))

  visit-fuel :
      (f g : ℕ) (next : Cid) (a : Dict Cid)
      → unseen blocks a < f
      → unseen blocks a < g
      → visit host cids blocks recursive f next a ≡ visit host cids blocks recursive g next a
  unfolding visit
  visit-fuel zero g next a p q = absurd (omega arith)
  visit-fuel (suc f) zero next a p q = absurd (omega arith)
  visit-fuel (suc f) (suc g) next a p q = elim (Bool-cases (Dict.has (format_cid cids next) a)) [
    | inl old ↦ rw old refl
    | inr new ↦ elim (Bool-cases (is_leaf host cids blocks recursive next)) [
      | inl end ↦ rw new (rw end refl)
      | inr deep ↦ elim (Option-cases (Dict.get (format_cid cids next) blocks)) [
        | inl gone ↦ rw new (rw deep (rw gone refl))
        | inr (block, there) ↦
            let k = format_cid cids next in
            let stored : Dict.has k blocks ≡ true = rw there refl in
            let less = unseen-set blocks k next a new stored in
            rw new (
              rw deep (
                rw there (
                  by_links block (links_of host cids next block) (λ links.
                    visit_all-fuel f g (visit-fuel f g) links (Dict.set k next a)
                      (omega (arith, less)) (omega (arith, less))))))
      ]
    ]
  ]
    where
      by_links :
          (block : Bytes) (read : Result (List Cid))
          → ((links : List Cid)
              → visit_all
                  (visit host cids blocks recursive f)
                  links
                  (Dict.set (format_cid cids next) next a)
                ≡ visit_all
                    (visit host cids blocks recursive g)
                    links
                    (Dict.set (format_cid cids next) next a))
          → (read >>= λ links.
              visit_all
                (visit host cids blocks recursive f)
                links
                (Dict.set (format_cid cids next) next a))
            ≡ (read >>= λ links.
                visit_all
                  (visit host cids blocks recursive g)
                  links
                  (Dict.set (format_cid cids next) next a))
      by_links block (err e) rest = refl
      by_links block (ok links) rest = rest links

-- A walk with more fuel than there are blocks has enough: more fuel never changes its outcome.
pub walk-fuel :
    (host : Host) (cids : CidHost) (blocks : Blocks) (fuel : ℕ) (cid : Cid) (recursive : Bool)
    → length blocks < fuel
    → walk_blocks host cids blocks fuel cid recursive
      ≡ walk_blocks host cids blocks (suc (length blocks)) cid recursive
unfolding walk_blocks
walk-fuel host cids blocks fuel cid recursive h =
    rw
      (visit-fuel host cids blocks recursive fuel (suc (length blocks)) cid []
        (omega (arith, unseen-le blocks [])) (omega (arith, unseen-le blocks [])))
      refl
