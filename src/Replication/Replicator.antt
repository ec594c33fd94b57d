-- ===== src/Replication/Replicator.antt =====
-- replication/replicator.ts: the replication of one library, one step for each call and for each answer,
-- message, merge and timer. The oplog is shared with the library: whoever changes it, the replicator sees
-- the new one. Subscribing, reporting and waiting are not modelled.
pub mod Checked
pub mod Events
use record_node.Prelude.{
  ℕ, zero, suc, Text, Bytes, text_eq, text_lt, Bool, true, false, not, Option, none, some, List, [],
  ◌∷◌, ◌++◌, sort_by, if◌then◌else◌,
}
use record_node.Dict
use record_node.Dict.{Dict}
use record_node.TextSet
use record_node.Entry.{HashedEntry}
use record_node.Result.{Result, ok, err, cid_mismatch, ◌>>=◌, ◌>>◌, require}
use record_node.Host.{Host}
use record_node.Oplog.{Oplog, ResolvedAcChain}
use record_node.Oplog.Accept.{check_entry}
use record_node.Entry.Signed.{decode_signed_entry}
use record_node.Replication.Traversal
use record_node.Replication.Traversal.{Traversal, TraversedEntry, Setting, create_traversal}
use record_node.Replication.Orchestrator
use record_node.Replication.Orchestrator.{MergeOrchestrator, create_merge_orchestrator}
use record_node.Replication.Publisher
use record_node.Replication.Publisher.{HeadsPublisher, create_heads_publisher}
use record_node.Replication.Heads
use record_node.Replication.Heads.{Data}

pub data ReplicatorState : Type 0 where
  idle running paused unlinked : ReplicatorState

pub record Replicator : Type 0 where
  pub state : ReplicatorState
  -- The calls of `start` that wait for their subscription.
  pub subscribing : ℕ
  pub oplog : Oplog
  pub traversal : Traversal
  pub orchestrator : MergeOrchestrator
  pub publisher : HeadsPublisher
  pub pending : Dict (List Text)
  pub deferred : List Text

unfoldable pub create_replicator : Oplog → Replicator
create_replicator oplog = record {
  state = idle;
  subscribing = 0;
  oplog = oplog;
  traversal = create_traversal;
  orchestrator = create_merge_orchestrator;
  publisher = create_heads_publisher;
  pending = [];
  deferred = [];
}

abbrev pub is_landed : Oplog → Text → Bool
is_landed oplog hash = Dict.has hash oplog.entries

-- `[...oplog.heads].sort().join()`.
unfoldable pub join : List Text → Text
join [] = []
join (t ∷ []) = t
join (t ∷ u ∷ ts) = t ++ b',' ∷ join (u ∷ ts)

-- `get_heads`.
abbrev pub sorted_heads : Oplog → List Text
sorted_heads oplog = sort_by text_lt oplog.heads

unfoldable pub joined_heads : Oplog → Text
unfolding join
joined_heads oplog = join (sorted_heads oplog)

module _ (host : Host) where
  -- The entry hashes to what it was fetched by, and passes what it alone decides.
  unfoldable pub verify_fetched : ResolvedAcChain → Text → Bytes → Result HashedEntry
  verify_fetched chain hash bytes = do
    hashed ← decode_signed_entry host bytes
    require (text_eq hashed.hash hash) cid_mismatch
    operation ← check_entry host chain hashed
    ok hashed

  abbrev pub pointers_of : Result HashedEntry → Result TraversedEntry
  pointers_of (err code) = err code
  pointers_of (ok e) = ok (record { next = e.entry.next; refs = e.entry.refs })

  -- What the replicator hands its traversal.
  abbrev pub setting : (concurrency : ℕ) → Oplog → Setting
  setting concurrency oplog = record {
    verify = λ hash bytes. pointers_of (verify_fetched oplog.chain hash bytes);
    is_landed = is_landed oplog;
    concurrency = concurrency;
  }

  abbrev pub on_entry : Result HashedEntry → MergeOrchestrator → MergeOrchestrator
  on_entry (err code) o = o
  on_entry (ok e) o = Orchestrator.add e o

  -- A block that answers the fetch at hand goes to the orchestrator once it verifies.
  abbrev pub deliver :
      ResolvedAcChain
      → Text
      → Option Traversal
      → Option Bytes
      → MergeOrchestrator
      → MergeOrchestrator
  deliver chain hash (some _) (some bytes) o = on_entry (verify_fetched chain hash bytes) o
  deliver chain hash _ _ o = o

  module _ (concurrency interval_ms : ℕ) where
    unfoldable pub fetch_answered : Text → (attempt : ℕ) → Option Bytes → Replicator → Replicator
    unfolding verify_fetched
    fetch_answered hash attempt answer r = record r {
      traversal = Traversal.on_answer (setting concurrency r.oplog) hash attempt answer r.traversal;
      orchestrator =
          deliver r.oplog.chain hash
            (Traversal.settle (setting concurrency r.oplog) hash attempt r.traversal) answer
            r.orchestrator;
    }

    unfoldable pub fetch_timed_out : Text → (attempt : ℕ) → Replicator → Replicator
    fetch_timed_out hash attempt r = record r {
      traversal = Traversal.on_timeout (setting concurrency r.oplog) hash attempt r.traversal;
    }

    -- Heads that come while paused wait for the resume.
    abbrev pub on_snapshot : ReplicatorState → Option (List Text) → Replicator → Replicator
    on_snapshot running (some heads) r = record r {
      traversal = Traversal.enqueue (setting concurrency r.oplog) heads r.traversal;
    }
    on_snapshot paused (some heads) r = record r { deferred = TextSet.add_all heads r.deferred }
    on_snapshot _ _ r = r

    unfoldable pub receive : (sender : Text) → Data → Replicator → Replicator
    receive sender message r =
        let (pending, snapshot) = Heads.receive host sender message r.pending in
        on_snapshot r.state snapshot (record r { pending = pending })

    abbrev pub trigger : (now : ℕ) → Replicator → Replicator
    trigger now r = record r { publisher = Publisher.trigger interval_ms now r.publisher }

    abbrev pub start_from : ReplicatorState → Replicator → Replicator
    start_from idle r = record r { subscribing = suc r.subscribing }
    start_from _ r = r

    -- `start` up to its subscription.
    unfoldable pub start : Replicator → Replicator
    start r = start_from r.state r

    abbrev pub subscribed_from : ℕ → (now : ℕ) → Replicator → Replicator
    subscribed_from zero now r = r
    subscribed_from (suc waiting) now r =
        trigger now (record r { state = running; subscribing = waiting })

    -- A `start` after its subscription, whatever the state has become.
    unfoldable pub subscribed : (now : ℕ) → Replicator → Replicator
    subscribed now r = subscribed_from r.subscribing now r

    abbrev pub pause_from : ReplicatorState → Replicator → Replicator
    pause_from running r = record r {
      state = paused;
      publisher = Publisher.pause r.publisher;
      traversal = Traversal.pause (setting concurrency r.oplog) r.traversal;
    }
    pause_from _ r = r

    unfoldable pub pause : Replicator → Replicator
    pause r = pause_from r.state r

    abbrev pub resume_from : ReplicatorState → (now : ℕ) → Replicator → Replicator
    resume_from paused now r = record r {
      state = running;
      traversal =
          Traversal.enqueue (setting concurrency r.oplog) r.deferred
            (Traversal.resume (setting concurrency r.oplog) r.traversal);
      deferred = [];
      publisher = Publisher.trigger interval_ms now (Publisher.resume r.publisher);
    }
    resume_from _ now r = r

    unfoldable pub resume : (now : ℕ) → Replicator → Replicator
    resume now r = resume_from r.state now r

    unfoldable pub unlink : Replicator → Replicator
    unlink r = record r {
      state = unlinked;
      publisher = Publisher.pause r.publisher;
      traversal = Traversal.discard r.traversal;
      orchestrator = Orchestrator.discard r.orchestrator;
      deferred = [];
    }

    abbrev pub heads_changed_in : ReplicatorState → (now : ℕ) → Replicator → Replicator
    heads_changed_in running now r = trigger now r
    heads_changed_in _ now r = r

    unfoldable pub heads_changed : (now : ℕ) → Replicator → Replicator
    heads_changed now r = heads_changed_in r.state now r

    unfoldable pub peer_joined : (now : ℕ) → Replicator → Replicator
    peer_joined now r = trigger now r

    unfoldable pub flush : (now : ℕ) → Replicator → Replicator
    flush now r = record r { publisher = Publisher.flush now r.publisher }

    -- A send begins with the heads as they are by then, and publishes one message at a time.
    unfoldable pub begin_send : Replicator → Replicator
    begin_send r = record r { publisher = Publisher.begin_send (sorted_heads r.oplog) r.publisher }

    unfoldable pub publish : Replicator → Replicator
    publish r = record r { publisher = Publisher.publish r.publisher }

    unfoldable pub start_merge : Replicator → Replicator
    start_merge r = record r {
      orchestrator = Orchestrator.start_run (is_landed r.oplog) r.orchestrator;
    }

    -- `merge` has made this oplog; a change of its heads is published.
    unfoldable pub end_merge : (now : ℕ) → Oplog → Replicator → Replicator
    unfolding joined_heads
    end_merge now merged r =
        let ended = record r {
          oplog = merged;
          orchestrator = Orchestrator.end_run (is_landed merged) r.orchestrator;
        } in
        if text_eq (joined_heads merged) (joined_heads r.oplog) then ended else trigger now ended

    unfoldable pub fail_merge : Replicator → Replicator
    fail_merge r = record r { orchestrator = Orchestrator.fail_run r.orchestrator }

-- The library has appended an entry of its own, or another merge of it is done.
unfoldable pub see_oplog : Oplog → Replicator → Replicator
see_oplog oplog r = record r { oplog = oplog }
