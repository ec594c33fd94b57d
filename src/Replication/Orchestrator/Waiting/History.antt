-- ===== src/Replication/Orchestrator/Waiting/History.antt =====
-- What every history of an orchestrator keeps.
use record_node.Prelude.{Text, ◌≡◌, refl, Bool, true, none, List, [], arith}
use record_node.Dict
use record_node.Dict.{Dict, get-set, get-delete}
use record_node.TextSet
use record_node.TextSet.{has-add, has-nil, has-cons, has-add_all, has-reverse}
use record_node.Entry.{HashedEntry}
use record_node.Replication.Orchestrator.{
  MergeOrchestrator, create_merge_orchestrator, add, ready_batch, start_run, end_run, fail_run,
  discard,
}
use record_node.Replication.Orchestrator.Waiting.{IsSafe, IsNew, refused_with, add-IsSafe}
use record_node.Replication.Orchestrator.Waiting.Steps.{
  LandsAfterParents, discard-IsSafe, end_run-IsSafe, fail_run-IsSafe, start_run-IsSafe,
}

-- What an orchestrator can come to, while entries land, with the entries that it refused when they were
-- added.
pub data Run : (Text → Bool) → List Text → MergeOrchestrator → Type 0 where
  created : (is_landed : Text → Bool) → Run is_landed [] create_merge_orchestrator
  grown :
      (earlier later : Text → Bool) (refused : List Text) (o : MergeOrchestrator)
      → ((h : Text) → earlier h ≡ true → later h ≡ true)
      → Run earlier refused o
      → Run later refused o
  added :
      (is_landed : Text → Bool) (refused : List Text) (o : MergeOrchestrator) (e : HashedEntry)
      → IsNew is_landed o e
      → Run is_landed refused o
      → Run is_landed (refused_with e o refused) (add e o)
  started :
      (is_landed : Text → Bool) (refused : List Text) (o : MergeOrchestrator)
      → o.merging ≡ none
      → LandsAfterParents is_landed (ready_batch is_landed o.fetched)
      → Run is_landed refused o
      → Run is_landed refused (start_run is_landed o)
  ended :
      (is_landed : Text → Bool) (refused : List Text) (o : MergeOrchestrator)
      → Run is_landed refused o
      → Run is_landed refused (end_run is_landed o)
  failed :
      (is_landed : Text → Bool) (refused : List Text) (o : MergeOrchestrator)
      → Run is_landed refused o
      → Run is_landed refused (fail_run o)
  discarded :
      (is_landed : Text → Bool) (refused : List Text) (o : MergeOrchestrator)
      → Run is_landed refused o
      → Run is_landed [] (discard o)

-- Whatever is added, merged, failed or discarded while entries land, if each added entry is new and what
-- has landed has landed parents: every waiting entry stands in the index under each parent that it names
-- and is not rejected, and a parent that it names is rejected only if `add` refused it for a rejected
-- parent of its own; each entry of the batch being merged waits no more, is not rejected, names a rejected
-- parent only if `add` refused that parent, and names only parents that have landed or are in the batch.
pub Run-IsSafe :
    (is_landed : Text → Bool) (refused : List Text) (o : MergeOrchestrator)
    → Run is_landed refused o
    → IsSafe refused is_landed o
unfolding create_merge_orchestrator Dict.get TextSet.has
Run-IsSafe _ _ _ (created is_landed) = record {
  clear = record {
    linked = record {
      keyed = record { distinct = tt; hashed = λ k e g. cc };
      linked = λ k p e g n. cc;
      apart = λ k h. refl;
    };
    clear = λ k p e g n u. refl;
  };
  aloft = λ e m. absurd m;
}
Run-IsSafe _ _ _ (grown earlier later refused o more r) =
    let s = Run-IsSafe earlier refused o r in
    record {
      clear = s.clear;
      aloft = λ e m.
          let a = s.aloft e m in
          record {
            gone = a.gone;
            sound = a.sound;
            parents = a.parents;
            closed = λ p h. unfold TextSet.has in ground (arith, a.closed p h, more p);
          };
    }
Run-IsSafe _ _ _ (added is_landed refused o e n r) =
    add-IsSafe refused is_landed e o n (Run-IsSafe is_landed refused o r)
Run-IsSafe _ _ _ (started is_landed refused o idle after r) =
    start_run-IsSafe refused is_landed o after (Run-IsSafe is_landed refused o r)
Run-IsSafe _ _ _ (ended is_landed refused o r) =
    end_run-IsSafe refused is_landed o (Run-IsSafe is_landed refused o r)
Run-IsSafe _ _ _ (failed is_landed refused o r) =
    fail_run-IsSafe refused is_landed o (Run-IsSafe is_landed refused o r)
Run-IsSafe _ _ _ (discarded is_landed refused o r) =
    discard-IsSafe refused is_landed o (Run-IsSafe is_landed refused o r)
