-- ===== src/Replication/Orchestrator.antt =====
-- replication/merge-orchestrator.ts: which fetched entries may merge, and what a rejected one takes with
-- it. A merge is awaited, so a run is two steps: it takes its batch, and later ends with what has landed
-- or with an error.
pub mod Ready
pub mod Weight
pub mod Fuel
pub mod Links
pub mod Dropped
pub mod Waiting
pub mod Holds
use mathlib.Core.List.{reverse}
use mathlib.Core.Option.{get_or}
use record_node.Prelude.{
  ℕ, zero, suc, ◌+◌, Text, Bool, true, false, ◌&&◌, ◌||◌, not, Option, none, some, List, [], ◌∷◌,
  ◌++◌, map, keep, any, every, length, is_some, if◌then◌else◌, text_eq,
}
use record_node.Dict
use record_node.Dict.{Dict}
use record_node.TextSet
use record_node.Entry.{HashedEntry}

abbrev pub next_of : HashedEntry → List Text
next_of e = e.entry.next

pub record MergeOrchestrator : Type 0 where
  pub fetched : Dict HashedEntry
  pub rejected : List Text
  pub children : Dict (List Text)
  pub scheduled : Bool
  -- The batch whose merge is awaited.
  pub merging : Option (List HashedEntry)

unfoldable pub create_merge_orchestrator : MergeOrchestrator
create_merge_orchestrator = record {
  fetched = [];
  rejected = [];
  children = [];
  scheduled = false;
  merging = none;
}

-- `ready.get(hash) === true`.
unfoldable pub is_ready : Dict Bool → Text → Bool
is_ready ready hash = get_or (Dict.get hash ready) false

-- Pushes the parents that are neither decided nor on the path.
unfoldable pub push_parents : List Text → Dict Bool → List Text → List Text → List Text
push_parents [] ready on_path stack = stack
push_parents (p ∷ ps) ready on_path stack =
    push_parents ps ready on_path
      (if Dict.has p ready || TextSet.has p on_path then stack else p ∷ stack)

-- One for each entry to wait for, and one for each parent that it names.
unfoldable pub weight : Dict HashedEntry → ℕ
weight [] = 0
weight ((_, e) ∷ es) = suc (length (next_of e)) + weight es

module _ (is_landed : Text → Bool) (fetched : Dict HashedEntry) where
  abbrev pub decided : Text → Dict Bool → Dict Bool
  decided hash ready = if Dict.has hash ready then ready else Dict.set hash (is_landed hash) ready

  -- Whether the top of the stack needs no walk.
  abbrev pub settled : Text → Dict Bool → Bool
  settled hash ready = Dict.has hash ready || is_landed hash || not (Dict.has hash fetched)

  abbrev pub parents_of : Text → List Text
  parents_of hash = elim (Dict.get hash fetched) [ none ↦ [] | some e ↦ next_of e ]

  -- The inner loop of `ready_batch`, on fuel.
  unfoldable pub walk : ℕ → List Text → List Text → Dict Bool → Dict Bool
  unfolding is_ready push_parents
  walk zero stack on_path ready = ready
  walk (suc fuel) [] on_path ready = ready
  walk (suc fuel) (hash ∷ stack) on_path ready =
      let pop = walk fuel stack on_path (decided hash ready) in
      let enter =
        walk fuel (push_parents (parents_of hash) ready (TextSet.add hash on_path) (hash ∷ stack))
          (TextSet.add hash on_path) ready in
      let leave =
        walk fuel stack (TextSet.delete hash on_path)
          (Dict.set hash (every (is_ready ready) (parents_of hash)) ready) in
      if settled hash ready then pop else if TextSet.has hash on_path then leave else enter

  abbrev pub rounds : ℕ
  rounds = suc (suc (weight fetched))

  -- The outer loop, over the hashes of the fetched entries.
  unfoldable pub walk_roots : List Text → Dict Bool → Dict Bool
  unfolding walk weight
  walk_roots [] ready = ready
  walk_roots (root ∷ roots) ready = walk_roots roots (walk rounds (root ∷ []) [] ready)

  unfoldable pub ready_batch : List HashedEntry
  unfolding walk_roots is_ready
  ready_batch =
      keep (λ (e : HashedEntry). is_ready (walk_roots (Dict.keys fetched) []) e.hash)
        (Dict.values fetched)

unfoldable pub children_of : Text → Dict (List Text) → List Text
children_of parent children = get_or (Dict.get parent children) []

unfoldable pub link : Text → List Text → Dict (List Text) → Dict (List Text)
unfolding children_of
link hash [] children = children
link hash (p ∷ ps) children =
    link hash ps (Dict.set p (TextSet.add hash (children_of p children)) children)

abbrev pub is_nil : List Text → Bool
is_nil [] = true
is_nil (_ ∷ _) = false

-- A set that is left empty goes.
unfoldable pub unlink_one : Text → Text → Dict (List Text) → Dict (List Text)
unfolding children_of
unlink_one hash parent children =
    let siblings = TextSet.delete hash (children_of parent children) in
    if is_nil siblings then Dict.delete parent children else Dict.set parent siblings children

unfoldable pub unlink : Text → List Text → Dict (List Text) → Dict (List Text)
unfolding unlink_one
unlink hash [] children = children
unlink hash (p ∷ ps) children = unlink hash ps (unlink_one hash p children)

unfoldable pub remember : HashedEntry → MergeOrchestrator → MergeOrchestrator
unfolding link
remember e o = record o {
  fetched = Dict.set e.hash e o.fetched;
  children = link e.hash (next_of e) o.children;
}

unfoldable pub forget : HashedEntry → MergeOrchestrator → MergeOrchestrator
unfolding unlink
forget e o = record o {
  fetched = Dict.delete e.hash o.fetched;
  children = unlink e.hash (next_of e) o.children;
}

unfoldable pub remember_all : List HashedEntry → MergeOrchestrator → MergeOrchestrator
unfolding remember
remember_all [] o = o
remember_all (e ∷ es) o = remember_all es (remember e o)

unfoldable pub forget_all : List HashedEntry → MergeOrchestrator → MergeOrchestrator
unfolding forget
forget_all [] o = o
forget_all (e ∷ es) o = forget_all es (forget e o)

abbrev pub drop_entry : Option HashedEntry → Text → MergeOrchestrator → MergeOrchestrator
drop_entry none child o = o
drop_entry (some e) child o =
    if TextSet.has child o.rejected
    then o
    else record (forget e o) { rejected = TextSet.add child o.rejected }

abbrev pub is_dropped : Option HashedEntry → Text → MergeOrchestrator → Bool
is_dropped none child o = false
is_dropped (some e) child o = not (TextSet.has child o.rejected)

-- The loop over the children of one rejected hash: what it drops goes on the queue.
unfoldable pub drop_children :
    List Text → List Text → MergeOrchestrator → List Text × MergeOrchestrator
unfolding forget
drop_children [] queue o = (queue, o)
drop_children (child ∷ cs) queue o =
    let e = Dict.get child o.fetched in
    drop_children cs (if is_dropped e child o then child ∷ queue else queue) (drop_entry e child o)

-- The loop over the queue, on fuel.
unfoldable pub drop_queue : ℕ → List Text → MergeOrchestrator → MergeOrchestrator
unfolding drop_children children_of
drop_queue zero queue o = o
drop_queue (suc fuel) [] o = o
drop_queue (suc fuel) (hash ∷ queue) o =
    let (queue', o') = drop_children (children_of hash o.children) queue o in
    drop_queue fuel queue' o'

-- Each round pops one hash, and drops the entry that it pushes.
unfoldable pub drop_rejected_descendants : List Text → MergeOrchestrator → MergeOrchestrator
unfolding drop_queue
drop_rejected_descendants roots o =
    drop_queue (suc (length roots + length o.fetched)) (reverse roots) o

unfoldable pub add : HashedEntry → MergeOrchestrator → MergeOrchestrator
unfolding remember
add e o =
    if any (λ p. TextSet.has p o.rejected) (next_of e)
    then record o { rejected = TextSet.add e.hash o.rejected }
    else record (remember e o) { scheduled = true }

abbrev pub waiting_for : List HashedEntry → Option (List HashedEntry)
waiting_for [] = none
waiting_for (e ∷ es) = some (e ∷ es)

-- A run up to its `merge`; runs follow one another, so none is taken while a merge is awaited.
unfoldable pub start_run : (Text → Bool) → MergeOrchestrator → MergeOrchestrator
unfolding ready_batch forget_all
start_run is_landed o =
    let batch = ready_batch is_landed o.fetched in
    record (forget_all batch o) { scheduled = false; merging = waiting_for batch }

abbrev pub hashes : List HashedEntry → List Text
hashes es = map (λ (e : HashedEntry). e.hash) es

abbrev pub in_flight : Option (List HashedEntry) → List HashedEntry
in_flight none = []
in_flight (some batch) = batch

-- A run after its `merge`: an entry of the batch that has not landed failed verification.
unfoldable pub end_run : (Text → Bool) → MergeOrchestrator → MergeOrchestrator
unfolding drop_rejected_descendants
end_run is_landed o =
    let failed = keep (λ h. not (is_landed h)) (hashes (in_flight o.merging)) in
    drop_rejected_descendants failed
      (record o { rejected = TextSet.add_all failed o.rejected; merging = none })

-- A `merge` that throws: its batch waits again.
unfoldable pub fail_run : MergeOrchestrator → MergeOrchestrator
unfolding remember_all
fail_run o = record (remember_all (in_flight o.merging) o) { merging = none }

unfoldable pub discard : MergeOrchestrator → MergeOrchestrator
discard o = record o { fetched = []; rejected = []; children = [] }
