-- ===== src/Fabric/PinIndex/Held.antt =====
-- The pins that are held, as a map from a root's multihash to the walk that its pin was made by, and
-- that the two tables of the index count them.
use record_node.Prelude.{
  ℕ, ◌+◌, Text, text_eq, text_eq_iff, ◌≡◌, refl, Bool, true, false, Option, none, some, List, [],
  ◌∷◌, arith, inl, inr, if◌then◌else◌, Bool-cases,
}
use record_node.Dict
use record_node.Dict.{Dict, get-set, get-delete}
use record_node.Dict.Distinct.{IsDistinct, IsDistinct-delete}
use record_node.Result.{Result, ok, err, ◌>>=◌}
use record_node.Host.{Host}
use record_node.Fabric.Blocks.{multihash, Cid, CidHost, Blocks, walk_blocks}
use record_node.Fabric.Blocks.Walk.{walk-first, walk-direct}
use record_node.Fabric.PinIndex.{
  PinTables, satisfies, newly_covered, reference_all, dereference_all, pin, unpin,
}
use record_node.Fabric.PinIndex.Counts.{
  refs_of, times, IsPositive, refs-reference_all, refs-dereference_all, reference_all-IsPositive,
  dereference_all-IsPositive,
}

pub record Holding : Type 0 where
  pub root : Cid
  pub recursive : Bool
  pub covered : List Cid

abbrev pub kind_of : Option Holding → Option Bool
kind_of none = none
kind_of (some h) = some h.recursive

abbrev weight : Text → Option Holding → ℕ
weight b none = 0
weight b (some h) = times b h.covered

-- How often the pins held cover a block.
unfoldable pub total : Text → Dict Holding → ℕ
total b [] = 0
total b ((_, h) ∷ held) = times b h.covered + total b held

-- What a pin, and an unpin, do to the pins held.
abbrev pub hold : Text → Holding → Dict Holding → Dict Holding
hold k h held = (k, h) ∷ Dict.delete k held

total-delete_absent :
    (b k : Text) (held : Dict Holding)
    → Dict.get k held ≡ none
    → total b (Dict.delete k held) ≡ total b held
unfolding total Dict.get Dict.delete
total-delete_absent b k [] h = refl
total-delete_absent b k ((j, g) ∷ held) h = ground (arith, total-delete_absent b k held)

pub total-delete :
    (b k : Text) (held : Dict Holding)
    → IsDistinct held
    → total b (Dict.delete k held) + weight b (Dict.get k held) ≡ total b held
unfolding total Dict.get Dict.delete
total-delete b k [] d = refl
total-delete b k ((j, g) ∷ held) d =
    ground (arith, total-delete b k held, total-delete_absent b k held, text_eq_iff j k)

pub IsDistinct-hold :
    (k : Text) (h : Holding) (held : Dict Holding) → IsDistinct held → IsDistinct (hold k h held)
IsDistinct-hold k h held d =
    (ground (arith, get-delete k k held, text_eq_iff k k), IsDistinct-delete k held d)

pub get-hold :
    (k j : Text) (h : Holding) (held : Dict Holding)
    → Dict.get j (hold k h held) ≡ (if text_eq k j then some h else Dict.get j held)
unfolding Dict.get
get-hold k j h held = ground (arith, get-delete k j held)

module _ (host : Host) (cids : CidHost) (fuel : ℕ) where
  -- The tables count the pins held, each of which is a walk over blocks that are stored.
  pub record IsCounted (blocks : Blocks) (t : PinTables) (held : Dict Holding) : Type 0 where
    pub counts : (b : Text) → refs_of b t.block_pins ≡ total b held
    pub positive : IsPositive t.block_pins
    pub roots : (k : Text) → Dict.get k t.root_pins ≡ kind_of (Dict.get k held)
    pub keyed : (k : Text) (h : Holding) → Dict.get k held ≡ some h → (multihash h.root) ≡ k
    pub walked :
        (k : Text) (h : Holding)
        → Dict.get k held ≡ some h
        → walk_blocks host cids blocks fuel h.root h.recursive ≡ ok h.covered
    pub distinct : IsDistinct held

  -- A pin counts what it covers, less what an earlier direct pin of the root counts.
  newly_counted :
      (blocks : Blocks) (cid : Cid) (recursive : Bool) (covered : List Cid) (held : Option Holding)
      → satisfies (kind_of held) recursive ≡ false
      → walk_blocks host cids blocks fuel cid recursive ≡ ok covered
      → ((h : Holding)
          → held ≡ some h
          → ((multihash h.root) ≡ (multihash cid))
            × (walk_blocks host cids blocks fuel h.root h.recursive ≡ ok h.covered))
      → (b : Text)
      → times b (newly_covered (kind_of held) covered) + weight b held ≡ times b covered
  newly_counted blocks cid recursive covered none new walk past b = omega arith
  newly_counted blocks cid recursive covered (some h) new walk past b = by_kind h.recursive refl new
    where
      by_kind :
          (kind : Bool)
          → h.recursive ≡ kind
          → satisfies (some kind) recursive ≡ false
          → times b (newly_covered (some kind) covered) + times b h.covered ≡ times b covered
      by_kind true k new' = cc
      by_kind false k new' =
          let (same, before) = past h refl in
          let (rest, e) = walk-first host cids blocks recursive fuel cid covered walk in
          let one = walk-direct host cids blocks fuel h.root h.covered (rw k at before) in
          rw e (rw one (unfold times in ground arith))

  module _ (blocks : Blocks) (t : PinTables) (held : Dict Holding)
      (c : IsCounted blocks t held) where
    after_pin : Cid → Bool → List Cid → PinTables
    after_pin cid recursive covered = record {
      block_pins =
          reference_all (newly_covered (Dict.get (multihash cid) t.root_pins) covered) t.block_pins;
      root_pins = Dict.set (multihash cid) recursive t.root_pins;
    }

    after_pin-IsCounted :
        (cid : Cid) (recursive : Bool) (covered : List Cid)
        → satisfies (Dict.get (multihash cid) t.root_pins) recursive ≡ false
        → walk_blocks host cids blocks fuel cid recursive ≡ ok covered
        → IsCounted blocks (after_pin cid recursive covered) (
            hold
              (multihash cid)
              (record { root = cid; recursive = recursive; covered = covered })
              held)
    unfolding after_pin
    after_pin-IsCounted cid recursive covered new walk =
        let k = (multihash cid) in
        let h : Holding = record { root = cid; recursive = recursive; covered = covered } in
        let past =
          newly_counted blocks cid recursive covered (Dict.get k held) (rw (c.roots k) at new) walk
            (λ g e. (c.keyed k g e, c.walked k g e)) in
        record {
          counts = λ b.
              unfold total in
              ground (
                arith,
                refs-reference_all b (newly_covered (Dict.get k t.root_pins) covered) t.block_pins,
                c.counts b,
                c.roots k,
                past b,
                total-delete b k held c.distinct,
              );
          positive =
              reference_all-IsPositive (newly_covered (Dict.get k t.root_pins) covered) t.block_pins
                c.positive;
          roots = λ j.
              ground (arith, get-set k j recursive t.root_pins, get-hold k j h held, c.roots j);
          keyed = λ j g e. ground (arith, get-hold k j h held, c.keyed j g, text_eq_iff k j);
          walked = λ j g e. ground (arith, get-hold k j h held, c.walked j g);
          distinct = IsDistinct-hold k h held c.distinct;
        }

    -- On tables that count the pins held, an unpin of the CID that a held pin was made on succeeds, and
    -- leaves tables that count the other pins.
    pub unpin-IsCounted :
        (h : Holding)
        → Dict.get (multihash h.root) held ≡ some h
        → (t' : PinTables) × (unpin host cids fuel blocks h.root t ≡ ok t')
          × IsCounted blocks t' (Dict.delete (multihash h.root) held)
    unfolding unpin
    unpin-IsCounted h there =
        let k = (multihash h.root) in
        let kind : Dict.get k t.root_pins ≡ some h.recursive = ground (arith, c.roots k) in
        (
          record {
            block_pins = dereference_all h.covered t.block_pins;
            root_pins = Dict.delete k t.root_pins;
          },
          rw (kind, unpin) (rw (c.walked k h there)),
          record {
            counts = λ b. ground (
              arith,
              refs-dereference_all b h.covered t.block_pins,
              c.counts b,
              total-delete b k held c.distinct,
            );
            positive = dereference_all-IsPositive h.covered t.block_pins c.positive;
            roots = λ j. ground (arith, get-delete k j t.root_pins, get-delete k j held, c.roots j);
            keyed = λ j g e. ground (arith, get-delete k j held, c.keyed j g);
            walked = λ j g e. ground (arith, get-delete k j held, c.walked j g);
            distinct = IsDistinct-delete k held c.distinct;
          },
        )

  -- The pin of a root on the pins held: nothing where they satisfy it, and the walk's blocks else.
  abbrev pub hold_pin : Blocks → Cid → Bool → Dict Holding → Result (Dict Holding)
  hold_pin blocks cid recursive held =
      if satisfies (kind_of (Dict.get (multihash cid) held)) recursive
      then ok held
      else (walk_blocks host cids blocks fuel cid recursive >>= λ covered. ok (
          hold (multihash cid) (record { root = cid; recursive = recursive; covered = covered })
            held))

  -- Both fail alike, or both succeed and the tables count what is held.
  abbrev pub Matches : Blocks → Result PinTables → Result (Dict Holding) → Type 0
  Matches blocks (ok t) (ok held) = IsCounted blocks t held
  Matches blocks (err e) (err f) = e ≡ f
  Matches blocks _ _ = ⊥

  -- On tables that count the pins held, `pin` fails exactly as its walk does, with the same error, and
  -- otherwise leaves tables that count the pins held after it: the new walk in the place of any earlier
  -- pin of the root, or no change where the root is pinned recursively, or directly and no more is asked.
  pub pin-Matches :
      (blocks : Blocks) (cid : Cid) (recursive : Bool) (t : PinTables) (held : Dict Holding)
      → IsCounted blocks t held
      → Matches blocks
          (pin host cids fuel blocks cid recursive t)
          (hold_pin blocks cid recursive held)
  unfolding pin after_pin
  pin-Matches blocks cid recursive t held c =
      elim (Bool-cases (satisfies (Dict.get (multihash cid) t.root_pins) recursive)) [
        | inl done ↦
            let done' : satisfies (kind_of (Dict.get (multihash cid) held)) recursive ≡ true =
              rw (c.roots (multihash cid)) at done in
            rw done (rw done' c)
        | inr new ↦
            let new' : satisfies (kind_of (Dict.get (multihash cid) held)) recursive ≡ false =
              rw (c.roots (multihash cid)) at new in
            rw new (rw new' (by_walk (walk_blocks host cids blocks fuel cid recursive) new refl))
      ]
    where
      by_walk :
          (walk : Result (List Cid))
          → satisfies (Dict.get (multihash cid) t.root_pins) recursive ≡ false
          → walk_blocks host cids blocks fuel cid recursive ≡ walk
          → Matches blocks
              (walk >>= λ covered. ok (after_pin blocks t held c cid recursive covered))
              (walk >>= λ covered. ok (
                hold
                  (multihash cid)
                  (record { root = cid; recursive = recursive; covered = covered })
                  held))
      by_walk (err e) new w = refl
      by_walk (ok covered) new w = after_pin-IsCounted blocks t held c cid recursive covered new w
