-- ===== src/Fabric/Blocks/Walk.antt =====
-- What a walk over blocks visits: the root first, blocks that are stored, and the same ones in any
-- store that agrees on them.
pub mod Stable
use mathlib.Core.List.{append_assoc, append-nil}
use record_node.Prelude.{
  ℕ, zero, suc, Text, Bytes, ◌≡◌, refl, sym, ap, ◌∙◌, Bool, true, false, ◌||◌, not, ◌⊎◌, inl, inr,
  Option, none, some, List, [], ◌∷◌, ◌++◌, ◌==◌, arith, In, Bool-cases, Option-cases, if◌then◌else◌,
}
use mathlib.Core.Logic.{⊎_elim}
use record_node.Dict
use record_node.Dict.{Dict}
use record_node.Result.{
  Result, ok, err, content_unavailable, ◌>>=◌, ◌>>◌, require, required, >>=-eq-ok, require-eq-ok,
  required-eq-ok,
}
use record_node.Host.{Host}
use record_node.Fabric.Blocks.{
  Cid, CidHost, format_cid, Blocks, raw_code, links_of, visit_all, visit, walk_blocks,
}

-- The visited map only grows, at its end.
abbrev pub Extends : Dict Cid → Dict Cid → Type 0
Extends a b = (more : Dict Cid) × (b ≡ a ++ more)

pub Extends-refl : (a : Dict Cid) → Extends a a
Extends-refl a = ([], sym (append-nil a))

pub Extends-trans : (a b c : Dict Cid) → Extends a b → Extends b c → Extends a c
Extends-trans a b c (m, p) (n, q) = (m ++ n, q ∙ ap (λ d. d ++ n) p ∙ append_assoc a m n)

pub set-absent :
    (k : Text) (c : Cid) (v : Dict Cid) → Dict.has k v ≡ false → Dict.set k c v ≡ v ++ (k, c) ∷ []
unfolding Dict.set Dict.get
set-absent k c [] h = refl
set-absent k c ((j, d) ∷ v) h = ground (arith, set-absent k c v)

pub In-values-append :
    (x : Cid) (a b : Dict Cid)
    → In x (Dict.values (a ++ b))
    → In x (Dict.values a) ⊎ In x (Dict.values b)
In-values-append x [] b m = inr m
In-values-append x ((k, c) ∷ a) b (inl e) = inl (inl e)
In-values-append x ((k, c) ∷ a) b (inr m) = ⊎_elim (λ l. inl (inr l)) inr (In-values-append x a b m)

pub In-values-left : (x : Cid) (a b : Dict Cid) → In x (Dict.values a) → In x (Dict.values (a ++ b))
In-values-left x [] b m = elim m [ ]
In-values-left x ((k, c) ∷ a) b (inl e) = inl e
In-values-left x ((k, c) ∷ a) b (inr m) = inr (In-values-left x a b m)

-- What holds of each visit, and composes, holds of the visits of a list.
pub visit_all_along :
    (R : Dict Cid → Dict Cid → Type 0)
    → ((a : Dict Cid) → R a a)
    → ((a b c : Dict Cid) → R a b → R b c → R a c)
    → (f : Cid → Dict Cid → Result (Dict Cid)) → ((c : Cid) (a b : Dict Cid) → f c a ≡ ok b → R a b)
    → (cs : List Cid) (a b : Dict Cid) → visit_all f cs a ≡ ok b
    → R a b
unfolding visit_all
visit_all_along R same join f one [] a b h = let e : a ≡ b = cc (h) in rw (sym e) (same a)
visit_all_along R same join f one (c ∷ cs) a b h =
    let (m, p, q) = >>=-eq-ok (f c a) (λ after. visit_all f cs after) h in
    join a m b (one c a m p) (visit_all_along R same join f one cs m b q)

module _ (host : Host) (cids : CidHost) (blocks : Blocks) (recursive : Bool) where
  abbrev pub is_leaf : Cid → Bool
  is_leaf c = not recursive || c.codec == raw_code

  -- How a visit that returns has come about.
  pub data Visited (fuel : ℕ) (next : Cid) (a b : Dict Cid) : Type 0 where
    seen : b ≡ a → Dict.has (format_cid cids next) a ≡ true → Visited fuel next a b
    leaf :
        Dict.has (format_cid cids next) a ≡ false
        → is_leaf next ≡ true
        → Dict.has (format_cid cids next) blocks ≡ true
        → b ≡ Dict.set (format_cid cids next) next a
        → Visited fuel next a b
    inner :
        Dict.has (format_cid cids next) a ≡ false
        → is_leaf next ≡ false
        → (block : Bytes) → Dict.get (format_cid cids next) blocks ≡ some block
        → (links : List Cid) → links_of host cids next block ≡ ok links
        → visit_all
            (visit host cids blocks recursive fuel)
            links
            (Dict.set (format_cid cids next) next a)
          ≡ ok b
        → Visited fuel next a b

  pub visit-Visited :
      (fuel : ℕ) (next : Cid) (a b : Dict Cid)
      → visit host cids blocks recursive (suc fuel) next a ≡ ok b
      → Visited fuel next a b
  unfolding visit
  visit-Visited fuel next a b h = elim (Bool-cases (Dict.has (format_cid cids next) a)) [
    | inl old ↦ seen (ground arith) old
    | inr new ↦ elim (Bool-cases (is_leaf next)) [
      | inl end ↦ elim (Bool-cases (Dict.has (format_cid cids next) blocks)) [
        | inl stored ↦ leaf new end stored (ground arith)
        | inr gone ↦ absurd (ground arith)
      ]
      | inr deep ↦
          let h' = rw (new, deep) at h in
          let (block, p, q) =
            >>=-eq-ok (required (Dict.get (format_cid cids next) blocks) content_unavailable) _
              h' in
          let (links, r, s) = >>=-eq-ok (links_of host cids next block) _ q in
          inner new deep block
            (required-eq-ok (Dict.get (format_cid cids next) blocks) content_unavailable p) links r
            s
    ]
  ]

  pub visit-Extends :
      (fuel : ℕ) (next : Cid) (a b : Dict Cid)
      → visit host cids blocks recursive fuel next a ≡ ok b
      → Extends a b
  unfolding visit
  visit-Extends zero next a b h = absurd (ground arith)
  visit-Extends (suc fuel) next a b h = elim (visit-Visited fuel next a b h) [
    | seen e _ ↦ rw e (Extends-refl a)
    | leaf new _ _ e ↦
        (((format_cid cids next), next) ∷ [], e ∙ set-absent (format_cid cids next) next a new)
    | inner new _ block _ links _ rest ↦
        Extends-trans a (Dict.set (format_cid cids next) next a) b
          (((format_cid cids next), next) ∷ [], set-absent (format_cid cids next) next a new)
          (visit_all_along Extends Extends-refl Extends-trans
            (visit host cids blocks recursive fuel) (visit-Extends fuel) links
            (Dict.set (format_cid cids next) next a) b rest)
  ]

-- The walk of a CID lists it first; a direct one lists nothing else.
module _ (host : Host) (cids : CidHost) (blocks : Blocks) where
  first_visit :
      (recursive : Bool) (fuel : ℕ) (cid : Cid) (b : Dict Cid)
      → visit host cids blocks recursive fuel cid [] ≡ ok b
      → (more : Dict Cid) × (b ≡ ((format_cid cids cid), cid) ∷ more)
  unfolding visit Dict.set Dict.get
  first_visit recursive zero cid b h = absurd (ground arith)
  first_visit recursive (suc fuel) cid b h =
      elim (visit-Visited host cids blocks recursive fuel cid [] b h) [
        | seen _ old ↦ absurd (ground arith)
        | leaf _ _ _ e ↦ ([], e)
        | inner _ _ block _ links _ rest ↦
            visit_all_along Extends Extends-refl Extends-trans
              (visit host cids blocks recursive fuel)
              (visit-Extends host cids blocks recursive fuel) links
              (((format_cid cids cid), cid) ∷ []) b rest
      ]

  pub walk-first :
      (recursive : Bool) (fuel : ℕ) (cid : Cid) (covered : List Cid)
      → walk_blocks host cids blocks fuel cid recursive ≡ ok covered
      → (rest : List Cid) × (covered ≡ cid ∷ rest)
  unfolding walk_blocks
  walk-first recursive fuel cid covered h =
      let (b, p, q) = >>=-eq-ok (visit host cids blocks recursive fuel cid []) _ h in
      let (more, e) = first_visit recursive fuel cid b p in
      let listed : Dict.values b ≡ covered = cc (q) in
      (Dict.values more, sym listed ∙ ap Dict.values e)

  pub walk-direct :
      (fuel : ℕ) (cid : Cid) (covered : List Cid)
      → walk_blocks host cids blocks fuel cid false ≡ ok covered
      → covered ≡ cid ∷ []
  unfolding walk_blocks visit Dict.set Dict.get
  walk-direct zero cid covered h = absurd (ground arith)
  walk-direct (suc fuel) cid covered h = ground arith
