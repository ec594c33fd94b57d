-- ===== src/Fabric/PinIndex/History.antt =====
-- The histories of a store of blocks with its pin index: puts, pins, unpins and evictions in any order.
use mathlib.Core.Path.{subst}
use record_node.Prelude.{
  ℕ, ◌<◌, ◌≤◌, Text, Bytes, text_eq, text_eq_iff, ◌≡◌, refl, sym, ap, ◌∙◌, ◌↔◌, Bool, true, some,
  [], ◌∷◌, arith, In, inl, inr, Bool-cases, Option-cases,
}
use record_node.Dict
use record_node.Dict.{Dict, get-set, get-delete}
use record_node.Result.{ok, >>=-eq-ok}
use record_node.Host.{Host}
use record_node.Fabric.Blocks.{multihash, format_cid, Cid, CidHost, Blocks, put, verify_block}
use record_node.Fabric.Blocks.Walk.Stable.{Agree, walk-stored, walk-Agree}
use record_node.Fabric.PinIndex.{PinTables, open_pin_db, pin, unpin, is_pinned, evict}
use record_node.Fabric.PinIndex.Counts.{times, times-In}
use record_node.Fabric.PinIndex.Held.{
  Holding, total, hold_pin, IsCounted, pin-Matches, unpin-IsCounted,
}

module _ (host : Host) (cids : CidHost) (fuel : ℕ) where
  -- A put of a block that is there puts the same bytes; an unpin names the CID that was pinned.
  pub data Run : Blocks → PinTables → Dict Holding → Type 0 where
    opened : Run [] open_pin_db []
    stored :
        (cid : Cid) (block : Bytes) (blocks after : Blocks) (t : PinTables) (held : Dict Holding)
        → ((b : Bytes) → Dict.get (format_cid cids cid) blocks ≡ some b → b ≡ block)
        → put host cids cid block blocks ≡ ok after
        → Run blocks t held
        → Run after t held
    pinned :
        (cid : Cid) (recursive : Bool) (blocks : Blocks) (t t' : PinTables)
        (held held' : Dict Holding)
        → pin host cids fuel blocks cid recursive t ≡ ok t'
        → hold_pin host cids fuel blocks cid recursive held ≡ ok held'
        → Run blocks t held
        → Run blocks t' held'
    unpinned :
        (h : Holding) (blocks : Blocks) (t t' : PinTables) (held : Dict Holding)
        → Dict.get (multihash h.root) held ≡ some h
        → unpin host cids fuel blocks h.root t ≡ ok t'
        → Run blocks t held
        → Run blocks t' (Dict.delete (multihash h.root) held)
    evicted :
        (cid : Cid) (blocks : Blocks) (t : PinTables) (held : Dict Holding)
        → Run blocks t held
        → Run (evict cids cid t blocks).0 t held

  -- The walks of the pins held are the same in a store that agrees on what they cover.
  moved-IsCounted :
      (blocks later : Blocks) (t : PinTables) (held : Dict Holding)
      → IsCounted host cids fuel blocks t held
      → ((k : Text) (h : Holding) → Dict.get k held ≡ some h → Agree cids blocks later h.covered)
      → IsCounted host cids fuel later t held
  moved-IsCounted blocks later t held c same = record {
    counts = c.counts;
    positive = c.positive;
    roots = c.roots;
    keyed = c.keyed;
    walked = λ k h e.
        walk-Agree host cids blocks fuel later h.root h.recursive h.covered (c.walked k h e)
          (same k h e);
    distinct = c.distinct;
  }

  times-le-total :
      (b k : Text) (h : Holding) (held : Dict Holding)
      → Dict.get k held ≡ some h
      → times b h.covered ≤ total b held
  unfolding total Dict.get
  times-le-total b k h [] e = cc
  times-le-total b k h ((j, g) ∷ held) e = ground (arith, times-le-total b k h held)

  module _ (blocks : Blocks) (t : PinTables) (held : Dict Holding)
      (c : IsCounted host cids fuel blocks t held) where
    covered_stored :
        (k : Text) (h : Holding) (x : Cid)
        → Dict.get k held ≡ some h
        → In x h.covered
        → Dict.has (format_cid cids x) blocks ≡ true
    covered_stored k h x e m =
        walk-stored host cids blocks fuel h.root h.recursive h.covered (c.walked k h e) x m

    -- A block has a row exactly if some pin covers it.
    pub is_pinned_iff : (x : Cid) → (is_pinned x t ≡ true) ↔ (0 < total (multihash x) held)
    unfolding is_pinned
    is_pinned_iff x = (
      λ h. elim (Option-cases (Dict.get (multihash x) t.block_pins)) [
        | inl gone ↦ absurd (ground arith)
        | inr (n, e) ↦ ground (arith, c.counts (multihash x), c.positive (multihash x) n e)
      ],
      λ h. ground (arith, c.counts (multihash x)),
    )

    covered_pinned :
        (k : Text) (h : Holding) (x : Cid)
        → Dict.get k held ≡ some h
        → In x h.covered
        → is_pinned x t ≡ true
    covered_pinned k h x e m =
        (is_pinned_iff x).1
          (omega (arith, times-In x h.covered m, times-le-total (multihash x) k h held e))

    stored_agrees :
        (cid : Cid) (block : Bytes)
        → ((b : Bytes) → Dict.get (format_cid cids cid) blocks ≡ some b → b ≡ block)
        → (k : Text) (h : Holding) → Dict.get k held ≡ some h
        → Agree cids blocks (Dict.set (format_cid cids cid) block blocks) h.covered
    stored_agrees cid block same k h e x m =
        let there = covered_stored k h x e m in
        let set = get-set (format_cid cids cid) (format_cid cids x) block blocks in
        elim (Bool-cases (text_eq (format_cid cids cid) (format_cid cids x))) [
          | inl one ↦
              let key = (text_eq_iff (format_cid cids cid) (format_cid cids x)).0 one in
              elim (Option-cases (Dict.get (format_cid cids x) blocks)) [
                | inl gone ↦ absurd (ground arith)
                | inr (b, f) ↦
                    let old : b ≡ block = same b (rw key f) in
                    set ∙ rw one (ap some (sym old) ∙ sym f)
              ]
          | inr other ↦ set ∙ rw other refl
        ]

    evicted_agrees :
        ((x y : Cid) → cids.format x ≡ cids.format y → x ≡ y)
        → (cid : Cid) → (k : Text) (h : Holding) → Dict.get k held ≡ some h
        → Agree cids blocks (evict cids cid t blocks).0 h.covered
    unfolding evict
    evicted_agrees apart cid k h e x m =
        elim (Bool-cases (text_eq (format_cid cids cid) (format_cid cids x))) [
          | inl one ↦
              let here : cid ≡ x =
                apart cid x ((text_eq_iff (format_cid cids cid) (format_cid cids x)).0 one) in
              let kept : is_pinned cid t ≡ true = rw here (covered_pinned k h x e m) in rw kept refl
          | inr other ↦ ground (arith, get-delete (format_cid cids cid) (format_cid cids x) blocks)
        ]

  -- No two CIDs have one text.
  module _ (apart : (x y : Cid) → cids.format x ≡ cids.format y → x ≡ y) where
    -- After any history of puts, pins, unpins and evictions, if no two CIDs have one text, a put never
    -- changes the bytes under a CID and an unpin names the CID that was pinned: the count of every
    -- block is how often the pins held cover it, no row counts zero, each root has the kind of its pin,
    -- and each pin's walk would still succeed, with the same blocks.
    pub Run-IsCounted :
        (blocks : Blocks) (t : PinTables) (held : Dict Holding)
        → Run blocks t held
        → IsCounted host cids fuel blocks t held
    unfolding open_pin_db total Dict.get put
    Run-IsCounted _ _ _ opened = record {
      counts = λ b. refl;
      positive = λ b n h. cc;
      roots = λ k. refl;
      keyed = λ k h e. cc;
      walked = λ k h e. cc;
      distinct = tt;
    }
    Run-IsCounted _ _ _ (stored cid block blocks after t held same h r) =
        let c = Run-IsCounted blocks t held r in
        let (u, checked, done) = >>=-eq-ok (verify_block host cid block) _ h in
        let put : Dict.set (format_cid cids cid) block blocks ≡ after = cc (done) in
        subst (λ d. IsCounted host cids fuel d t held) put
          (moved-IsCounted blocks (Dict.set (format_cid cids cid) block blocks) t held c
            (stored_agrees blocks t held c cid block same))
    Run-IsCounted _ _ _ (pinned cid recursive blocks t t' held held' p q r) =
        let m =
          pin-Matches host cids fuel blocks cid recursive t held (Run-IsCounted blocks t held r) in
        rw q at (rw p at m)
    Run-IsCounted _ _ _ (unpinned h blocks t t' held e p r) =
        let (done, f, c) =
          unpin-IsCounted host cids fuel blocks t held (Run-IsCounted blocks t held r) h e in
        let same : done ≡ t' = cc (f, p) in
        subst (λ d. IsCounted host cids fuel blocks d (Dict.delete (multihash h.root) held)) same c
    Run-IsCounted _ _ _ (evicted cid blocks t held r) =
        let c = Run-IsCounted blocks t held r in
        moved-IsCounted blocks (evict cids cid t blocks).0 t held c
          (evicted_agrees blocks t held c apart cid)

    -- The blocks that a pin covers are stored and reported as pinned, whatever has been evicted.
    pub Run-keeps :
        (blocks : Blocks) (t : PinTables) (held : Dict Holding)
        → Run blocks t held
        → (k : Text) (h : Holding) (x : Cid) → Dict.get k held ≡ some h
        → In x h.covered
        → (Dict.has (format_cid cids x) blocks ≡ true) × (is_pinned x t ≡ true)
    Run-keeps blocks t held r k h x e m =
        let c = Run-IsCounted blocks t held r in
        (covered_stored blocks t held c k h x e m, covered_pinned blocks t held c k h x e m)
