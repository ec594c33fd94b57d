-- ===== src/Tests/Store.antt =====
-- Runs of the store of blocks, its pins and its batches on small inputs, and the theorems there.
use record_node.Prelude.{
  ℕ, zero, suc, ◌+◌, ◌<◌, ◌≤◌, Text, Bytes, lit, ◌≡◌, refl, sym, ap, ◌∙◌, Bool, true, false, Option,
  some, none, List, [], ◌∷◌, ◌++◌, In, inl, inr, arith, length, is_some,
}
use record_node.Dict
use record_node.Dict.{Dict}
use record_node.Result.{ok}
use record_node.Host.{Host}
use record_node.Examples
use record_node.Fabric.Blocks.{
  Cid, CidHost, Blocks, multihash, format_cid, raw_code, dag_pb_code, put, walk_blocks,
}
use record_node.Fabric.Blocks.Fuel.{walk-fuel}
use record_node.Fabric.PinIndex.{PinTables, open_pin_db, pin, unpin, is_pinned}
use record_node.Fabric.PinIndex.Held.{
  Holding, hold_pin, IsCounted, Matches, pin-Matches, unpin-IsCounted,
}
use record_node.Fabric.PinIndex.History.{Run, opened, stored, pinned, Run-IsCounted, Run-keeps}
use record_node.Fabric.LibraryPins.{load}
use record_node.Fabric.LibraryPins.Calls.{
  Call, sets, settles, clears, apply_all, see_all, empty_tables, nothing_recorded,
}
use record_node.Fabric.LibraryPins.View.{LoadsAs, load-LoadsAs}
use record_node.Fabric.CommitBatch.{
  Connection, CommitBatcher, done, busy, default_commit_policy, create_commit_batcher, commit, run,
}
use record_node.Fabric.CommitBatch.Sound.{
  Event, runs, steps, IsSound, steps-IsSound, writes_of, flush-commits_all, busy_commit_wedges,
}

-- A hash that is its input.
abbrev host : Host
host = record Examples.host { sha256 = λ b. b }

abbrev leaf : Cid
leaf = record { version = 1; codec = raw_code; hash_code = 0x12; digest = host.sha256 (lit "leaf") }

abbrev root : Cid
root = record {
  version = 1;
  codec = dag_pb_code;
  hash_code = 0x12;
  digest = host.sha256 (lit "root");
}

-- A CID is written as its parts, and the links of every dag-pb block are the one leaf.
abbrev cids : CidHost
cids = record {
  parse = λ t. none;
  format = λ c. c.version ∷ c.codec ∷ c.hash_code ∷ c.digest;
  of_link = λ b. leaf;
  pb_links = λ b. some (leaf ∷ []);
}

cids-apart : (x y : Cid) → cids.format x ≡ cids.format y → x ≡ y
cids-apart x y h = ground arith

abbrev both : Blocks
both = (format_cid cids leaf, lit "leaf") ∷ (format_cid cids root, lit "root") ∷ []

both_walked : walk_blocks host cids both 3 root true ≡ ok (root ∷ leaf ∷ [])
unfolding walk_blocks Dict.get Dict.set record_node.Prelude.text_eq
    record_node.Fabric.Blocks.links_of
both_walked = refl

walk-fuel_example : walk_blocks host cids both 7 root true ≡ walk_blocks host cids both 3 root true
walk-fuel_example = walk-fuel host cids both 7 root true (omega arith)

abbrev root_pinned : PinTables
root_pinned = record {
  block_pins = (multihash root, 1) ∷ (multihash leaf, 1) ∷ [];
  root_pins = (multihash root, true) ∷ [];
}

abbrev root_held : Holding
root_held = record { root = root; recursive = true; covered = root ∷ leaf ∷ [] }

abbrev held : Dict Holding
held = (multihash root, root_held) ∷ []

put-root : put host cids root (lit "root") ((format_cid cids leaf, lit "leaf") ∷ []) ≡ ok both
unfolding put Dict.set record_node.Prelude.text_eq
put-root = refl

put-leaf : put host cids leaf (lit "leaf") [] ≡ ok ((format_cid cids leaf, lit "leaf") ∷ [])
unfolding put Dict.set record_node.Prelude.text_eq
put-leaf = refl

pin-root : pin host cids 3 both root true open_pin_db ≡ ok root_pinned
unfolding pin open_pin_db walk_blocks Dict.get Dict.set record_node.Prelude.text_eq
    record_node.Fabric.Blocks.links_of
pin-root = refl

hold_pin-root : hold_pin host cids 3 both root true [] ≡ ok held
unfolding walk_blocks Dict.get Dict.set Dict.delete record_node.Prelude.text_eq
    record_node.Fabric.Blocks.links_of
hold_pin-root = refl

put_once : (b : Bytes) → Dict.get (format_cid cids leaf) [] ≡ some b → b ≡ lit "leaf"
unfolding Dict.get
put_once b h = cc

root_once :
    (b : Bytes)
    → Dict.get (format_cid cids root) ((format_cid cids leaf, lit "leaf") ∷ []) ≡ some b
    → b ≡ lit "root"
unfolding Dict.get record_node.Prelude.text_eq
root_once b h = cc

root_run : Run host cids 3 both root_pinned held
root_run = pinned root true both open_pin_db root_pinned [] held pin-root hold_pin-root (
    stored root (lit "root") ((format_cid cids leaf, lit "leaf") ∷ []) both open_pin_db [] root_once
      put-root
      (stored leaf (lit "leaf") [] ((format_cid cids leaf, lit "leaf") ∷ []) open_pin_db [] put_once
        put-leaf opened))

Run-IsCounted_example : IsCounted host cids 3 both root_pinned held
Run-IsCounted_example = Run-IsCounted host cids 3 cids-apart both root_pinned held root_run

held_root : Dict.get (multihash root) held ≡ some root_held
unfolding Dict.get record_node.Prelude.text_eq
held_root = refl

Run-keeps_example :
    (Dict.has (format_cid cids leaf) both ≡ true) × (is_pinned leaf root_pinned ≡ true)
Run-keeps_example =
    Run-keeps host cids 3 cids-apart both root_pinned held root_run (multihash root) root_held leaf
      held_root (inr (inl refl))

pin-Matches_example :
    Matches host cids 3 both
      (pin host cids 3 both leaf false root_pinned)
      (hold_pin host cids 3 both leaf false held)
pin-Matches_example =
    pin-Matches host cids 3 both leaf false root_pinned held
      (Run-IsCounted host cids 3 cids-apart both root_pinned held root_run)

unpin-IsCounted_example :
    (t' : PinTables) × (unpin host cids 3 both root root_pinned ≡ ok t')
    × IsCounted host cids 3 both t' (Dict.delete (multihash root) held)
unpin-IsCounted_example =
    unpin-IsCounted host cids 3 both root_pinned held
      (Run-IsCounted host cids 3 cids-apart both root_pinned held root_run) root_held held_root

abbrev idle_db : Connection
idle_db = record { committed = lit "a" ∷ []; transaction = none }

abbrev two_runs : List Event
two_runs =
    runs (record { writes = lit "b" ∷ []; throws = false }) done
    ∷ runs (record { writes = lit "c" ∷ []; throws = false }) done
    ∷ []

steps-IsSound_example :
    IsSound default_commit_policy
      (steps default_commit_policy two_runs (create_commit_batcher idle_db))
steps-IsSound_example =
    steps-IsSound default_commit_policy two_runs idle_db (omega arith) ((λ e. cc), ((λ e. cc), tt))
      refl

flush-commits_all_example :
    let flushed =
      commit done (steps default_commit_policy two_runs (create_commit_batcher idle_db)) in
    (flushed.db.committed ≡ (lit "a" ∷ []) ++ writes_of two_runs) × (flushed.db.transaction ≡ none)
flush-commits_all_example =
    flush-commits_all default_commit_policy two_runs idle_db ((refl, refl), ((refl, refl), tt)) refl

abbrev one_run : CommitBatcher
one_run = record {
  open_batch = true;
  count = 1;
  timer = true;
  db = record { committed = []; transaction = some (lit "b" ∷ []) };
}

busy_commit_wedges_example :
    ((steps default_commit_policy two_runs (commit busy one_run)).db ≡ one_run.db)
    × ((run default_commit_policy
          (record { writes = []; throws = false })
          done
          (steps default_commit_policy two_runs (commit busy one_run))).1
        ≡ false)
busy_commit_wedges_example =
    busy_commit_wedges default_commit_policy one_run two_runs
      (record { writes = []; throws = false }) done refl refl

-- The second library takes the rowid that the first gave up.
abbrev pin_calls : List Call
pin_calls =
    sets (lit "gone") ((lit "x", true) ∷ [])
    ∷ clears (lit "gone")
    ∷ sets (lit "m") ((lit "y", false) ∷ [])
    ∷ settles (lit "m")
    ∷ []

load-LoadsAs_example :
    LoadsAs
      (load (lit "m") (apply_all pin_calls empty_tables))
      (see_all (lit "m") pin_calls nothing_recorded)
load-LoadsAs_example = load-LoadsAs (lit "m") pin_calls
