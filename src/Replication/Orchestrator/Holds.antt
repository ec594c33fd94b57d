-- ===== src/Replication/Orchestrator/Holds.antt =====
-- What holds of every entry that the orchestrator is given holds of those that it keeps or merges.
use mathlib.Core.List.{reverse}
use record_node.Prelude.{
  ℕ, zero, suc, ◌+◌, Text, refl, inl, inr, Bool, not, Option, none, some, List, [], ◌∷◌, keep, any,
  arith, In, Bool-cases, length, if◌then◌else◌,
}
use record_node.Dict
use record_node.Dict.Distinct.{In-values-set, In-values-delete}
use record_node.TextSet
use record_node.Entry.{HashedEntry}
use record_node.Replication.Orchestrator.{
  MergeOrchestrator, next_of, is_ready, walk_roots, ready_batch, children_of, remember, forget,
  remember_all, forget_all, drop_entry, is_dropped, drop_children, drop_queue,
  drop_rejected_descendants, add, waiting_for, start_run, in_flight, hashes, end_run, fail_run,
  discard,
}

module _ (P : HashedEntry → Type 0) where
  pub record Holds (o : MergeOrchestrator) : Type 0 where
    pub waiting : (e : HashedEntry) → In e (Dict.values o.fetched) → P e
    pub merging : (e : HashedEntry) → In e (in_flight o.merging) → P e

  remember-Holds : (e : HashedEntry) (o : MergeOrchestrator) → P e → Holds o → Holds (remember e o)
  unfolding remember
  remember-Holds e o p h = record {
    waiting = λ x m. elim (In-values-set x e.hash e o.fetched m) [
      | inl same ↦ rw same p
      | inr before ↦ h.waiting x before
    ];
    merging = h.merging;
  }

  remember_all-Holds :
      (es : List HashedEntry) (o : MergeOrchestrator)
      → ((e : HashedEntry) → In e es → P e)
      → Holds o
      → Holds (remember_all es o)
  unfolding remember_all
  remember_all-Holds [] o p h = h
  remember_all-Holds (e ∷ es) o p h =
      remember_all-Holds es (remember e o) (λ x m. p x (inr m))
        (remember-Holds e o (p e (inl refl)) h)

  forget-Holds : (e : HashedEntry) (o : MergeOrchestrator) → Holds o → Holds (forget e o)
  unfolding forget
  forget-Holds e o h = record {
    waiting = λ x m. h.waiting x (In-values-delete x e.hash o.fetched m);
    merging = h.merging;
  }

  forget_all-Holds :
      (es : List HashedEntry) (o : MergeOrchestrator) → Holds o → Holds (forget_all es o)
  unfolding forget_all
  forget_all-Holds [] o h = h
  forget_all-Holds (e ∷ es) o h = forget_all-Holds es (forget e o) (forget-Holds e o h)

  drop_entry-Holds :
      (e : Option HashedEntry) (child : Text) (o : MergeOrchestrator)
      → Holds o
      → Holds (drop_entry e child o)
  drop_entry-Holds none child o h = h
  drop_entry-Holds (some e) child o h = elim (Bool-cases (TextSet.has child o.rejected)) [
    | inl twice ↦ rw twice h
    | inr once ↦
        let less = forget-Holds e o h in
        rw once (record { waiting = less.waiting; merging = less.merging })
  ]

  drop_children-Holds :
      (cs queue : List Text) (o : MergeOrchestrator) → Holds o → Holds (drop_children cs queue o).1
  unfolding drop_children
  drop_children-Holds [] queue o h = h
  drop_children-Holds (child ∷ cs) queue o h =
      let e = Dict.get child o.fetched in
      drop_children-Holds cs (if is_dropped e child o then child ∷ queue else queue)
        (drop_entry e child o) (drop_entry-Holds e child o h)

  drop_queue-Holds :
      (fuel : ℕ) (queue : List Text) (o : MergeOrchestrator)
      → Holds o
      → Holds (drop_queue fuel queue o)
  unfolding drop_queue
  drop_queue-Holds zero queue o h = h
  drop_queue-Holds (suc fuel) [] o h = h
  drop_queue-Holds (suc fuel) (hash ∷ queue) o h =
      let dropped = drop_children (children_of hash o.children) queue o in
      drop_queue-Holds fuel dropped.0 dropped.1
        (drop_children-Holds (children_of hash o.children) queue o h)

  pub add-Holds : (e : HashedEntry) (o : MergeOrchestrator) → P e → Holds o → Holds (add e o)
  unfolding add
  add-Holds e o p h = elim (Bool-cases (any (λ q. TextSet.has q o.rejected) (next_of e))) [
    | inl refused ↦ rw refused (record { waiting = h.waiting; merging = h.merging })
    | inr taken ↦
        let more = remember-Holds e o p h in
        rw taken (record { waiting = more.waiting; merging = more.merging })
  ]

  In-keep :
      (q : HashedEntry → Bool) (e : HashedEntry) (es : List HashedEntry)
      → In e (keep q es)
      → In e es
  In-keep q e [] m = m
  In-keep q e (x ∷ es) m = ground (arith, In-keep q e es)

  In-waiting_for :
      (e : HashedEntry) (es : List HashedEntry) → In e (in_flight (waiting_for es)) → In e es
  In-waiting_for e [] m = m
  In-waiting_for e (x ∷ es) m = m

  pub start_run-Holds :
      (is_landed : Text → Bool) (o : MergeOrchestrator) → Holds o → Holds (start_run is_landed o)
  unfolding start_run ready_batch
  start_run-Holds is_landed o h =
      let batch = ready_batch is_landed o.fetched in
      let less = forget_all-Holds batch o h in
      record {
        waiting = less.waiting;
        merging = λ e m. h.waiting e (
            In-keep
              (λ (x : HashedEntry).
                is_ready (walk_roots is_landed o.fetched (Dict.keys o.fetched) []) x.hash)
              e (Dict.values o.fetched) (In-waiting_for e batch m));
      }

  pub end_run-Holds :
      (is_landed : Text → Bool) (o : MergeOrchestrator) → Holds o → Holds (end_run is_landed o)
  unfolding end_run drop_rejected_descendants
  end_run-Holds is_landed o h =
      let failed = keep (λ x. not (is_landed x)) (hashes (in_flight o.merging)) in
      let ended : MergeOrchestrator = record o {
        rejected = TextSet.add_all failed o.rejected;
        merging = none;
      } in
      drop_queue-Holds (suc (length failed + length o.fetched)) (reverse failed) ended
        (record { waiting = h.waiting; merging = λ e m. absurd m })

  pub fail_run-Holds : (o : MergeOrchestrator) → Holds o → Holds (fail_run o)
  unfolding fail_run
  fail_run-Holds o h =
      let again = remember_all-Holds (in_flight o.merging) o h.merging h in
      record { waiting = again.waiting; merging = λ e m. absurd m }

  pub discard-Holds : (o : MergeOrchestrator) → Holds o → Holds (discard o)
  unfolding discard
  discard-Holds o h = record { waiting = λ e m. absurd m; merging = h.merging }
