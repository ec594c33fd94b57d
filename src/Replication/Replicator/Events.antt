-- ===== src/Replication/Replicator/Events.antt =====
-- The histories of a replicator: what it is told, fetches, merges and sends, in any order.
use record_node.Prelude.{
  ℕ, zero, suc, Text, Bytes, text_eq, ◌≡◌, sym, Option, none, some, List, inl, inr, Bool-cases,
}
use mathlib.Core.Path.{subst}
use record_node.Host.{Host}
use record_node.Oplog.{Oplog, ResolvedAcChain}
use record_node.Replication.Traversal
use record_node.Replication.Traversal.{Traversal}
use record_node.Replication.Orchestrator.{create_merge_orchestrator}
use record_node.Replication.Orchestrator.Holds.{
  Holds, start_run-Holds, end_run-Holds, fail_run-Holds, discard-Holds,
}
use record_node.Replication.Heads
use record_node.Replication.Heads.{Data}
use record_node.Replication.Replicator.{
  ReplicatorState, idle, running, paused, unlinked, Replicator, create_replicator, is_landed,
  joined_heads, verify_fetched, setting, deliver, fetch_answered, fetch_timed_out, on_snapshot,
  receive, start_from, subscribed_from, subscribed, pause_from, resume_from, heads_changed_in,
  start, pause, resume, unlink, heads_changed, peer_joined, flush, begin_send, publish, start_merge,
  end_merge, fail_merge, see_oplog,
}
use record_node.Replication.Replicator.Checked.{IsChecked, IsSoundFor, deliver-Holds}

-- What happens to a replicator.
pub data Event : Type 0 where
  answer : (hash : Text) → (attempt : ℕ) → Option Bytes → Event
  timeout : (hash : Text) → (attempt : ℕ) → Event
  message : (sender : Text) → Data → Event
  subscribing resuming changing joining flushing : (now : ℕ) → Event
  starting pausing unlinking merging failing sending publishing : Event
  merged : (now : ℕ) → Oplog → Event
  seen : Oplog → Event

-- The library's chain never changes.
abbrev pub KeepsChain : ResolvedAcChain → Event → Type 0
KeepsChain chain (merged now oplog) = oplog.chain ≡ chain
KeepsChain chain (seen oplog) = oplog.chain ≡ chain
KeepsChain chain _ = Unit

module _ (host : Host) where
  module _ (concurrency interval_ms : ℕ) where
    abbrev pub step : Event → Replicator → Replicator
    step (answer hash attempt reply) r =
        fetch_answered host concurrency interval_ms hash attempt reply r
    step (timeout hash attempt) r = fetch_timed_out host concurrency interval_ms hash attempt r
    step (message sender heads) r = receive host concurrency interval_ms sender heads r
    step starting r = start host concurrency interval_ms r
    step (subscribing now) r = subscribed host concurrency interval_ms now r
    step (resuming now) r = resume host concurrency interval_ms now r
    step (changing now) r = heads_changed host concurrency interval_ms now r
    step (joining now) r = peer_joined host concurrency interval_ms now r
    step (flushing now) r = flush host concurrency interval_ms now r
    step sending r = begin_send host concurrency interval_ms r
    step publishing r = publish host concurrency interval_ms r
    step pausing r = pause host concurrency interval_ms r
    step unlinking r = unlink host concurrency interval_ms r
    step merging r = start_merge host concurrency interval_ms r
    step failing r = fail_merge host concurrency interval_ms r
    step (merged now oplog) r = end_merge host concurrency interval_ms now oplog r
    step (seen oplog) r = see_oplog oplog r

    pub data Run (chain : ResolvedAcChain) : Replicator → Type 0 where
      created : (oplog : Oplog) → oplog.chain ≡ chain → Run chain (create_replicator oplog)
      stepped :
          (r : Replicator) (event : Event)
          → Run chain r
          → KeepsChain chain event
          → Run chain (step event r)

    on_snapshot-IsSoundFor :
        (chain : ResolvedAcChain) (state : ReplicatorState) (snapshot : Option (List Text))
        → (r : Replicator) → IsSoundFor host chain r
        → IsSoundFor host chain (on_snapshot host concurrency interval_ms state snapshot r)
    on_snapshot-IsSoundFor chain idle none r h = h
    on_snapshot-IsSoundFor chain idle (some heads) r h = h
    on_snapshot-IsSoundFor chain running none r h = h
    on_snapshot-IsSoundFor chain running (some heads) r h = record {
      of_chain = h.of_chain;
      held = h.held;
    }
    on_snapshot-IsSoundFor chain paused none r h = h
    on_snapshot-IsSoundFor chain paused (some heads) r h = record {
      of_chain = h.of_chain;
      held = h.held;
    }
    on_snapshot-IsSoundFor chain unlinked none r h = h
    on_snapshot-IsSoundFor chain unlinked (some heads) r h = h

    start_from-IsSoundFor :
        (chain : ResolvedAcChain) (state : ReplicatorState) (r : Replicator)
        → IsSoundFor host chain r
        → IsSoundFor host chain (start_from host concurrency interval_ms state r)
    start_from-IsSoundFor chain idle r h = record { of_chain = h.of_chain; held = h.held }
    start_from-IsSoundFor chain running r h = h
    start_from-IsSoundFor chain paused r h = h
    start_from-IsSoundFor chain unlinked r h = h

    subscribed_from-IsSoundFor :
        (chain : ResolvedAcChain) (waiting now : ℕ) (r : Replicator)
        → IsSoundFor host chain r
        → IsSoundFor host chain (subscribed_from host concurrency interval_ms waiting now r)
    subscribed_from-IsSoundFor chain zero now r h = h
    subscribed_from-IsSoundFor chain (suc waiting) now r h = record {
      of_chain = h.of_chain;
      held = h.held;
    }

    pause_from-IsSoundFor :
        (chain : ResolvedAcChain) (state : ReplicatorState) (r : Replicator)
        → IsSoundFor host chain r
        → IsSoundFor host chain (pause_from host concurrency interval_ms state r)
    pause_from-IsSoundFor chain idle r h = h
    pause_from-IsSoundFor chain running r h = record { of_chain = h.of_chain; held = h.held }
    pause_from-IsSoundFor chain paused r h = h
    pause_from-IsSoundFor chain unlinked r h = h

    resume_from-IsSoundFor :
        (chain : ResolvedAcChain) (state : ReplicatorState) (now : ℕ) (r : Replicator)
        → IsSoundFor host chain r
        → IsSoundFor host chain (resume_from host concurrency interval_ms state now r)
    resume_from-IsSoundFor chain idle now r h = h
    resume_from-IsSoundFor chain running now r h = h
    resume_from-IsSoundFor chain paused now r h = record { of_chain = h.of_chain; held = h.held }
    resume_from-IsSoundFor chain unlinked now r h = h

    heads_changed_in-IsSoundFor :
        (chain : ResolvedAcChain) (state : ReplicatorState) (now : ℕ) (r : Replicator)
        → IsSoundFor host chain r
        → IsSoundFor host chain (heads_changed_in host concurrency interval_ms state now r)
    heads_changed_in-IsSoundFor chain idle now r h = h
    heads_changed_in-IsSoundFor chain running now r h = record {
      of_chain = h.of_chain;
      held = h.held;
    }
    heads_changed_in-IsSoundFor chain paused now r h = h
    heads_changed_in-IsSoundFor chain unlinked now r h = h

    end_merge-IsSoundFor :
        (chain : ResolvedAcChain) (now : ℕ) (oplog : Oplog) (r : Replicator)
        → oplog.chain ≡ chain
        → IsSoundFor host chain r
        → IsSoundFor host chain (end_merge host concurrency interval_ms now oplog r)
    unfolding end_merge joined_heads
    end_merge-IsSoundFor chain now oplog r keeps h =
        let ended = end_run-Holds (IsChecked host chain) (is_landed oplog) r.orchestrator h.held in
        elim (Bool-cases (text_eq (joined_heads oplog) (joined_heads r.oplog))) [
          | inl same ↦ rw same (record { of_chain = keeps; held = ended })
          | inr moved ↦ rw moved (record { of_chain = keeps; held = ended })
        ]

    step-IsSoundFor :
        (chain : ResolvedAcChain) (event : Event) (r : Replicator)
        → KeepsChain chain event
        → IsSoundFor host chain r
        → IsSoundFor host chain (step event r)
    unfolding fetch_answered fetch_timed_out receive start subscribed pause resume heads_changed
        peer_joined flush begin_send publish unlink start_merge fail_merge see_oplog verify_fetched
    step-IsSoundFor chain (answer hash attempt reply) r keeps h = record {
      of_chain = h.of_chain;
      held =
          subst
            (λ (c : ResolvedAcChain). Holds (IsChecked host chain) (
              deliver host c hash
                (Traversal.settle (setting host concurrency r.oplog) hash attempt r.traversal) reply
                r.orchestrator))
            (sym h.of_chain)
            (deliver-Holds host chain hash
              (Traversal.settle (setting host concurrency r.oplog) hash attempt r.traversal) reply
              r.orchestrator h.held);
    }
    step-IsSoundFor chain (timeout hash attempt) r keeps h = record {
      of_chain = h.of_chain;
      held = h.held;
    }
    step-IsSoundFor chain (message sender heads) r keeps h =
        let got = Heads.receive host sender heads r.pending in
        on_snapshot-IsSoundFor chain r.state got.1 (record r { pending = got.0 })
          (record { of_chain = h.of_chain; held = h.held })
    step-IsSoundFor chain starting r keeps h = start_from-IsSoundFor chain r.state r h
    step-IsSoundFor chain (subscribing now) r keeps h =
        subscribed_from-IsSoundFor chain r.subscribing now r h
    step-IsSoundFor chain (resuming now) r keeps h = resume_from-IsSoundFor chain r.state now r h
    step-IsSoundFor chain (changing now) r keeps h =
        heads_changed_in-IsSoundFor chain r.state now r h
    step-IsSoundFor chain (joining now) r keeps h = record { of_chain = h.of_chain; held = h.held }
    step-IsSoundFor chain (flushing now) r keeps h = record { of_chain = h.of_chain; held = h.held }
    step-IsSoundFor chain sending r keeps h = record { of_chain = h.of_chain; held = h.held }
    step-IsSoundFor chain publishing r keeps h = record { of_chain = h.of_chain; held = h.held }
    step-IsSoundFor chain pausing r keeps h = pause_from-IsSoundFor chain r.state r h
    step-IsSoundFor chain unlinking r keeps h = record {
      of_chain = h.of_chain;
      held = discard-Holds (IsChecked host chain) r.orchestrator h.held;
    }
    step-IsSoundFor chain merging r keeps h = record {
      of_chain = h.of_chain;
      held = start_run-Holds (IsChecked host chain) (is_landed r.oplog) r.orchestrator h.held;
    }
    step-IsSoundFor chain failing r keeps h = record {
      of_chain = h.of_chain;
      held = fail_run-Holds (IsChecked host chain) r.orchestrator h.held;
    }
    step-IsSoundFor chain (merged now oplog) r keeps h =
        end_merge-IsSoundFor chain now oplog r keeps h
    step-IsSoundFor chain (seen oplog) r keeps h = record { of_chain = keeps; held = h.held }

    -- After any events, if the library's chain never changes, every entry that waits for its parents or
    -- is being merged is what its bytes decode to, and passes every check that it alone decides.
    pub Run-IsSoundFor :
        (chain : ResolvedAcChain) (r : Replicator) → Run chain r → IsSoundFor host chain r
    unfolding create_replicator create_merge_orchestrator
    Run-IsSoundFor chain _ (created oplog of_chain) = record {
      of_chain = of_chain;
      held = record { waiting = λ e m. absurd m; merging = λ e m. absurd m };
    }
    Run-IsSoundFor chain _ (stepped r event run keeps) =
        step-IsSoundFor chain event r keeps (Run-IsSoundFor chain r run)
