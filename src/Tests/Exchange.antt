-- ===== src/Tests/Exchange.antt =====
-- Runs of the merge orchestrator, the publisher and the announcer on small inputs, and the theorems there.
use record_node.Prelude.{
  ℕ, suc, ◌+◌, ◌≤◌, Text, lit, ◌≡◌, refl, ◌⊎◌, Bool, true, false, some, [], ◌∷◌, In, inl, arith,
  text_eq, any,
}
use record_node.Dict
use record_node.Dict.{Dict}
use record_node.TextSet
use record_node.Entry.{HashedEntry}
use record_node.Examples.{
  listen_entry, first_listen, second_listen, host, chain, grant_block, grant_entry,
}
use record_node.Oplog.{create_oplog}
use record_node.Replication.Replicator.{Replicator, create_replicator}
use record_node.Replication.Replicator.Checked.{IsSoundFor}
use record_node.Replication.Replicator.Events as Replicating
use record_node.Replication.Replicator.Events.{starting, subscribing, message, answer}
use record_node.Replication.Orchestrator.{
  start_run, end_run, MergeOrchestrator, create_merge_orchestrator, next_of, add, ready_batch, walk,
  rounds,
}
use record_node.Replication.Orchestrator.Ready.{ready_batch-closed}
use record_node.Replication.Orchestrator.Fuel.{walk-ends}
use record_node.Replication.Orchestrator.Waiting.{IsSafe, IsNew, add-strands}
use record_node.Replication.Orchestrator.Waiting.History.{Run-IsSafe}
use record_node.Replication.Orchestrator.Waiting.History as Waiting
use record_node.Replication.Heads.{Data, encode_heads_message}
use record_node.Replication.Publisher.{
  HeadsPublisher, create_heads_publisher, trigger, flush, begin_send, publish,
}
use record_node.Replication.Publisher.Limited as Publisher
use record_node.Replication.Announcer.{create_announcer, peer_joined}
use record_node.Replication.Announcer.Limited as Announcer

-- Nothing has landed; the second entry names the first.
abbrev nothing : Text → Bool
nothing h = false

abbrev first : HashedEntry
first = first_listen.hashed

abbrev second : HashedEntry
second = second_listen.hashed

abbrev waiting : MergeOrchestrator
waiting = add second create_merge_orchestrator

abbrev both_waiting : MergeOrchestrator
both_waiting = add first waiting

second-IsNew : IsNew nothing create_merge_orchestrator second
unfolding create_merge_orchestrator Dict.get TextSet.has
second-IsNew = record {
  not_fetched = refl;
  not_rejected = refl;
  not_landed = refl;
  not_aloft = refl;
}

first-IsNew : IsNew nothing waiting first
unfolding add create_merge_orchestrator Dict.get Dict.set TextSet.has text_eq
first-IsNew = record {
  not_fetched = refl;
  not_rejected = refl;
  not_landed = refl;
  not_aloft = refl;
}

waiting_run : Waiting.Run nothing [] waiting
unfolding create_merge_orchestrator TextSet.has
waiting_run =
    Waiting.Run.added nothing [] create_merge_orchestrator second second-IsNew
      (Waiting.Run.created nothing)

both_run : Waiting.Run nothing [] both_waiting
unfolding create_merge_orchestrator add TextSet.has
both_run = Waiting.Run.added nothing [] waiting first first-IsNew waiting_run

-- The merge rejects an entry; then one that names it is refused, although another waits for that one.
abbrev root : HashedEntry
root = (listen_entry (lit "r") [] 1).hashed

abbrev refused_parent : HashedEntry
refused_parent = (listen_entry (lit "a") (lit "r" ∷ []) 1).hashed

abbrev root_rejected : MergeOrchestrator
root_rejected = end_run nothing (start_run nothing (add root create_merge_orchestrator))

abbrev with_refused : MergeOrchestrator
with_refused = add refused_parent (add second root_rejected)

root_run : Waiting.Run nothing [] root_rejected
unfolding create_merge_orchestrator add Dict.get TextSet.has
root_run = Waiting.Run.ended nothing [] (start_run nothing (add root create_merge_orchestrator)) (
    Waiting.Run.started nothing [] (add root create_merge_orchestrator) refl (λ e p m l h. cc)
      (Waiting.Run.added nothing [] create_merge_orchestrator root
        (record { not_fetched = refl; not_rejected = refl; not_landed = refl; not_aloft = refl })
        (Waiting.Run.created nothing)))

refused_run : Waiting.Run nothing (lit "a" ∷ []) with_refused
unfolding create_merge_orchestrator add start_run end_run ready_batch Dict.get Dict.set Dict.delete
    TextSet.has TextSet.add TextSet.add_all text_eq
refused_run =
    Waiting.Run.added nothing [] (add second root_rejected) refused_parent
      (record { not_fetched = refl; not_rejected = refl; not_landed = refl; not_aloft = refl })
      (Waiting.Run.added nothing [] root_rejected second
        (record { not_fetched = refl; not_rejected = refl; not_landed = refl; not_aloft = refl })
        root_run)

Run-IsSafe_example : IsSafe (lit "a" ∷ []) nothing with_refused
Run-IsSafe_example = Run-IsSafe nothing (lit "a" ∷ []) with_refused refused_run

second_ready : In second (ready_batch nothing both_waiting.fetched)
unfolding ready_batch add create_merge_orchestrator Dict.get Dict.set TextSet.has text_eq
    TextSet.add TextSet.delete
second_ready = inl refl

ready_batch-closed_example :
    (nothing (lit "a") ≡ true)
    ⊎ ((d : HashedEntry) × (d.hash ≡ lit "a") × In d (ready_batch nothing both_waiting.fetched))
ready_batch-closed_example =
    ready_batch-closed nothing both_waiting.fetched second (lit "a")
      ((Run-IsSafe nothing [] both_waiting both_run).clear.linked.keyed) second_ready refl
      (inl refl)

walk-ends_example :
    (walk nothing both_waiting.fetched
        (suc (rounds nothing both_waiting.fetched))
        (lit "b" ∷ [])
        []
        []
      ≡ walk nothing both_waiting.fetched
          (rounds nothing both_waiting.fetched)
          (lit "b" ∷ [])
          []
          [])
    × (Dict.has (lit "b") (
          walk nothing both_waiting.fetched
            (rounds nothing both_waiting.fetched)
            (lit "b" ∷ [])
            []
            [])
        ≡ true)
walk-ends_example =
    walk-ends nothing both_waiting.fetched (lit "b") [] (suc (rounds nothing both_waiting.fetched))
      (omega arith)

-- The second entry waits for the first, whose own parent was rejected before it came.
abbrev stranding : MergeOrchestrator
stranding = record waiting { rejected = lit "r" ∷ [] }

abbrev late : HashedEntry
late = (listen_entry (lit "a") (lit "r" ∷ []) 1).hashed

second_waits : Dict.get (lit "b") stranding.fetched ≡ some second
unfolding add create_merge_orchestrator Dict.get Dict.set text_eq TextSet.has
second_waits = refl

second_names : TextSet.has (lit "a") (next_of second) ≡ true
unfolding TextSet.has text_eq
second_names = refl

late_refused : any (λ p. TextSet.has p stranding.rejected) (next_of late) ≡ true
unfolding TextSet.has text_eq
late_refused = refl

late_new : Dict.has (lit "a") stranding.fetched ≡ false
unfolding add create_merge_orchestrator Dict.get Dict.set text_eq TextSet.has
late_new = refl

add-strands_example :
    (Dict.get (lit "b") (add late stranding).fetched ≡ some second)
    × (TextSet.has (lit "a") (add late stranding).rejected ≡ true)
    × (In second (ready_batch nothing (add late stranding).fetched) → ⊥)
add-strands_example =
    add-strands nothing late second (lit "b") stranding
      ((Run-IsSafe nothing [] waiting waiting_run).clear.linked.keyed) late_refused second_waits
      second_names late_new refl refl

abbrev scheduled_heads : HeadsPublisher
scheduled_heads = trigger 1000 5 create_heads_publisher

heads_due : scheduled_heads.scheduled ≡ some 5
unfolding trigger create_heads_publisher
heads_due = refl

-- The heads are published after a flush chained their send.
abbrev flushed_heads : HeadsPublisher
flushed_heads = flush 9 scheduled_heads

abbrev sent_heads : HeadsPublisher
sent_heads = publish (begin_send (lit "zm" ∷ []) flushed_heads)

Run-IsLimited_example : Publisher.IsLimited 1000 9 sent_heads
Run-IsLimited_example = Publisher.Run-IsLimited 1000 9 sent_heads (
    Publisher.Run.published 9 (begin_send (lit "zm" ∷ []) flushed_heads) (
      Publisher.Run.begun 9 (lit "zm" ∷ []) flushed_heads (
        Publisher.Run.fired 9 5 scheduled_heads heads_due (omega arith) (
          Publisher.Run.later 5 9 scheduled_heads (omega arith)
            (Publisher.Run.triggered 5 create_heads_publisher (Publisher.Run.created 5))))))

trigger-answered_example :
    (due : ℕ) × ((trigger 1000 5 create_heads_publisher).scheduled ≡ some due) × (due ≤ 5 + 1000)
trigger-answered_example =
    Publisher.trigger-answered 1000 5 create_heads_publisher (Publisher.Run.created 5)
      (unfold create_heads_publisher in refl)

Run-IsPaced_example : Announcer.IsPaced 5000 7 (peer_joined 5000 7 (lit "p") create_announcer)
Run-IsPaced_example =
    Announcer.Run-IsPaced 5000 7 (peer_joined 5000 7 (lit "p") create_announcer)
      (Announcer.Run.joined 7 (lit "p") create_announcer (Announcer.Run.created 7))

-- A head is told, fetched, and its block answers.
abbrev grant_told : Data
grant_told = encode_heads_message (record { heads = grant_entry.hash ∷ []; incomplete = false })

abbrev replicating : Replicator
replicating = create_replicator (create_oplog chain)

abbrev started : Replicator
started = Replicating.step host 2 0 (subscribing 5) (Replicating.step host 2 0 starting replicating)

abbrev told : Replicator
told = Replicating.step host 2 0 (message (lit "peer") grant_told) started

abbrev answered_grant : Replicator
answered_grant = Replicating.step host 2 0 (answer grant_entry.hash 0 (some grant_block)) told

replicating_run : Replicating.Run host 2 0 chain answered_grant
unfolding create_oplog
replicating_run =
    Replicating.stepped told (answer grant_entry.hash 0 (some grant_block))
      (Replicating.stepped started (message (lit "peer") grant_told)
        (Replicating.stepped (Replicating.step host 2 0 starting replicating) (subscribing 5)
          (Replicating.stepped replicating starting (Replicating.created (create_oplog chain) refl)
            tt)
          tt)
        tt)
      tt

Run-IsSoundFor_example : IsSoundFor host chain answered_grant
Run-IsSoundFor_example = Replicating.Run-IsSoundFor host 2 0 chain answered_grant replicating_run
