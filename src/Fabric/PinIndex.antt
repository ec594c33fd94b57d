-- ===== src/Fabric/PinIndex.antt =====
-- fabric/pin-index.ts, create_pin_index: the tables block_pins and root_pins, both by multihash. Pin
-- and unpin of a root walk its blocks and change the tables in one transaction, and an eviction waits
-- until no pin walks: each is one step here.
pub mod Counts
pub mod Held
pub mod History
use record_node.Prelude.{
  ℕ, zero, suc, ◌+◌, ◌-◌, Text, Bool, true, false, ◌&&◌, ◌||◌, not, Option, none, some, List, [],
  ◌∷◌, ◌==◌, leb, if◌then◌else◌, drop,
}
use mathlib.Core.Option.{get_or}
use record_node.Dict
use record_node.Dict.{Dict}
use record_node.Result.{Result, ok, err, ◌>>=◌}
use record_node.Host.{Host}
use record_node.Fabric.Blocks.{Cid, CidHost, multihash, format_cid, Blocks, walk_blocks}

pub record PinTables : Type 0 where
  pub block_pins : Dict ℕ
  pub root_pins : Dict Bool

unfoldable pub open_pin_db : PinTables
open_pin_db = record { block_pins = []; root_pins = [] }

-- `reference`, and `dereference` with `drop_released`.
unfoldable pub reference : Text → Dict ℕ → Dict ℕ
reference key table = Dict.set key (get_or (Dict.get key table) 0 + 1) table

unfoldable pub dereference : Text → Dict ℕ → Dict ℕ
dereference key table = elim (Dict.get key table) [
  | none ↦ table
  | some refs ↦ if leb refs 1 then Dict.delete key table else Dict.set key (refs - 1) table
]

unfoldable pub reference_all : List Cid → Dict ℕ → Dict ℕ
unfolding reference
reference_all [] table = table
reference_all (c ∷ cs) table = reference_all cs (reference (multihash c) table)

unfoldable pub dereference_all : List Cid → Dict ℕ → Dict ℕ
unfolding dereference
dereference_all [] table = table
dereference_all (c ∷ cs) table = dereference_all cs (dereference (multihash c) table)

-- Whether the pin at hand already does what is asked.
abbrev pub satisfies : Option Bool → Bool → Bool
satisfies none recursive = false
satisfies (some true) recursive = true
satisfies (some false) recursive = not recursive

-- A direct pin already counts the root itself.
abbrev pub newly_covered : Option Bool → List Cid → List Cid
newly_covered (some false) covered = drop 1 covered
newly_covered _ covered = covered

module _ (host : Host) (cids : CidHost) (fuel : ℕ) where
  unfoldable pub pin : Blocks → Cid → Bool → PinTables → Result PinTables
  unfolding reference_all
  pin blocks cid recursive t =
      let kind = Dict.get (multihash cid) t.root_pins in
      if satisfies kind recursive
      then ok t
      else (walk_blocks host cids blocks fuel cid recursive >>= λ covered. ok (record {
        block_pins = reference_all (newly_covered kind covered) t.block_pins;
        root_pins = Dict.set (multihash cid) recursive t.root_pins;
      }))

  unfoldable pub unpin : Blocks → Cid → PinTables → Result PinTables
  unfolding dereference_all
  unpin blocks cid t = elim (Dict.get (multihash cid) t.root_pins) [
    | none ↦ ok t
    | some kind ↦ walk_blocks host cids blocks fuel cid kind >>= λ covered. ok (record {
      block_pins = dereference_all covered t.block_pins;
      root_pins = Dict.delete (multihash cid) t.root_pins;
    })
  ]

unfoldable pub is_pinned : Cid → PinTables → Bool
is_pinned cid t = Dict.has (multihash cid) t.block_pins

-- `evict` with a `remove` that deletes the block from the map.
unfoldable pub evict : CidHost → Cid → PinTables → Blocks → Blocks × Bool
unfolding is_pinned
evict cids cid t blocks =
    if is_pinned cid t || not (Dict.has (format_cid cids cid) blocks)
    then (blocks, false)
    else (Dict.delete (format_cid cids cid) blocks, true)
