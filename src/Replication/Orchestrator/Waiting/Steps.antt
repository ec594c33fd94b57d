-- ===== src/Replication/Orchestrator/Waiting/Steps.antt =====
-- Each call of the merge orchestrator, and each half of a run, keeps what waits safe.
use mathlib.Core.List.{reverse}
use mathlib.Core.Path.{subst}
use record_node.Prelude.{
  ℕ, zero, suc, ◌+◌, Text, text_eq, text_eq_iff, ◌≡◌, refl, ◌∙◌, Bool, true, false, not, inl, inr,
  Option, none, some, List, [], ◌∷◌, arith, length, if◌then◌else◌, Bool-cases, In, keep,
  length-reverse,
}
use record_node.Dict
use record_node.Dict.{Dict, get-set, get-delete}
use record_node.TextSet
use record_node.TextSet.{has-add, has-nil, has-cons, has-add_all, has-reverse}
use record_node.Entry.{HashedEntry}
use record_node.Replication.Orchestrator.{
  MergeOrchestrator, next_of, children_of, remember, forget, remember_all, forget_all, drop_entry,
  is_dropped, drop_children, drop_queue, drop_rejected_descendants, ready_batch, waiting_for,
  start_run, hashes, in_flight, end_run, fail_run, discard,
}
use record_node.Replication.Orchestrator.Ready.{ready_batch-closed, In-ready_batch}
use record_node.Replication.Orchestrator.Dropped.{IsClear, forget-IsLinked, drop_queue-IsClear}
use record_node.Replication.Orchestrator.Waiting.{has-In, In-hashes, IsSafe, remember-IsClear}

forget-IsClear :
    (refused : List Text) (e : HashedEntry) (o : MergeOrchestrator)
    → IsClear refused o
    → IsClear refused (forget e o)
unfolding forget
forget-IsClear refused e o c = record {
  linked = forget-IsLinked e o c.linked;
  clear = λ k p d g n u. ground (arith, get-delete e.hash k o.fetched, c.clear k p d);
}

forget_all-IsClear :
    (refused : List Text) (es : List HashedEntry) (o : MergeOrchestrator)
    → IsClear refused o
    → IsClear refused (forget_all es o)
unfolding forget_all
forget_all-IsClear refused [] o c = c
forget_all-IsClear refused (e ∷ es) o c =
    forget_all-IsClear refused es (forget e o) (forget-IsClear refused e o c)

rejected-forget_all :
    (es : List HashedEntry) (o : MergeOrchestrator) → (forget_all es o).rejected ≡ o.rejected
unfolding forget_all forget
rejected-forget_all [] o = refl
rejected-forget_all (e ∷ es) o = rejected-forget_all es (forget e o)

get-forget_all :
    (es : List HashedEntry) (o : MergeOrchestrator) (k : Text)
    → Dict.get k (forget_all es o).fetched
      ≡ (if TextSet.has k (hashes es) then none else Dict.get k o.fetched)
unfolding forget_all forget
get-forget_all [] o k = ground (arith, has-nil k)
get-forget_all (e ∷ es) o k = ground (
  arith,
  get-forget_all es (forget e o) k,
  get-delete e.hash k o.fetched,
  has-cons k e.hash (hashes es),
)

in_flight-waiting_for : (es : List HashedEntry) → in_flight (waiting_for es) ≡ es
in_flight-waiting_for [] = refl
in_flight-waiting_for (e ∷ es) = refl

-- What has landed has landed parents, among the entries of a batch.
abbrev pub LandsAfterParents : (Text → Bool) → List HashedEntry → Type 0
LandsAfterParents is_landed es =
    (e : HashedEntry) (p : Text)
    → In e es
    → is_landed e.hash ≡ true
    → TextSet.has p (next_of e) ≡ true
    → is_landed p ≡ true

pub start_run-IsSafe :
    (refused : List Text) (is_landed : Text → Bool) (o : MergeOrchestrator)
    → LandsAfterParents is_landed (ready_batch is_landed o.fetched)
    → IsSafe refused is_landed o
    → IsSafe refused is_landed (start_run is_landed o)
unfolding start_run
start_run-IsSafe refused is_landed o after s =
    let batch = ready_batch is_landed o.fetched in
    let c = forget_all-IsClear refused batch o s.clear in
    let keyed = s.clear.linked.keyed in
    let taken = in_flight-waiting_for batch in
    record {
      clear = record {
        linked = record {
          keyed = c.linked.keyed;
          linked = c.linked.linked;
          apart = c.linked.apart;
        };
        clear = c.clear;
      };
      aloft = λ e m.
          let m' : In e batch = rw taken at m in
          let there = In-ready_batch is_landed o.fetched e keyed m' in
          let rejected = rejected-forget_all batch o in
          record {
            gone = ground (arith, get-forget_all batch o e.hash, In-hashes e batch m');
            sound = ground (arith, s.clear.linked.apart e.hash);
            parents = λ p h u. ground (arith, s.clear.clear e.hash p e there h);
            closed = λ p h. elim (Bool-cases (is_landed e.hash)) [
              | inl landed ↦ ground (arith, after e p m' landed h)
              | inr new ↦
                  elim (ready_batch-closed is_landed o.fetched e p keyed m' new
                    (has-In p (next_of e) h)) [
                      | inl landed ↦ ground arith
                      | inr (d, same, i) ↦
                          let up : TextSet.has p (hashes batch) ≡ true =
                            rw same at (In-hashes d batch i) in
                          rw taken (ground (arith, up))
                    ]
            ];
          };
    }

-- The hashes of these entries are not waited under, as of those that are merging.
has-failed :
    (is_landed : Text → Bool) (hs : List Text) (k : Text)
    → TextSet.has k hs ≡ false
    → TextSet.has k (keep (λ h. not (is_landed h)) hs) ≡ false
unfolding TextSet.has
has-failed is_landed [] k n = refl
has-failed is_landed (h ∷ hs) k n = ground (arith, has-failed is_landed hs k)

hash_of_has :
    (k : Text) (es : List HashedEntry)
    → TextSet.has k (hashes es) ≡ true
    → (e : HashedEntry) × (In e es) × (e.hash ≡ k)
unfolding TextSet.has
hash_of_has k [] h = cc
hash_of_has k (e ∷ es) h = elim (Bool-cases (text_eq e.hash k)) [
  | inl same ↦ (e, inl refl, (text_eq_iff e.hash k).0 same)
  | inr other ↦ let (d, m, s) = hash_of_has k es (ground arith) in (d, inr m, s)
]

merging-drop_children :
    (cs queue : List Text) (o : MergeOrchestrator)
    → (drop_children cs queue o).1.merging ≡ o.merging
unfolding drop_children forget
merging-drop_children [] queue o = refl
merging-drop_children (c ∷ cs) queue o =
    let e = Dict.get c o.fetched in
    merging-drop_children cs (if is_dropped e c o then c ∷ queue else queue) (drop_entry e c o)
    ∙ merging-drop_entry e c o
  where
    merging-drop_entry :
        (e : Option HashedEntry) (child : Text) (p : MergeOrchestrator)
        → (drop_entry e child p).merging ≡ p.merging
    merging-drop_entry none child p = refl
    merging-drop_entry (some e) child p = ground arith

merging-drop_queue :
    (fuel : ℕ) (queue : List Text) (o : MergeOrchestrator)
    → (drop_queue fuel queue o).merging ≡ o.merging
unfolding drop_queue
merging-drop_queue zero queue o = refl
merging-drop_queue (suc fuel) [] o = refl
merging-drop_queue (suc fuel) (h ∷ queue) o =
    let cs = children_of h o.children in
    merging-drop_queue fuel (drop_children cs queue o).0 (drop_children cs queue o).1
    ∙ merging-drop_children cs queue o

pub end_run-IsSafe :
    (refused : List Text) (is_landed : Text → Bool) (o : MergeOrchestrator)
    → IsSafe refused is_landed o
    → IsSafe refused is_landed (end_run is_landed o)
unfolding end_run drop_rejected_descendants
end_run-IsSafe refused is_landed o s =
    let batch = in_flight o.merging in
    let failed = keep (λ h. not (is_landed h)) (hashes batch) in
    let o' : MergeOrchestrator = record o {
      rejected = TextSet.add_all failed o.rejected;
      merging = none;
    } in
    let fuel = suc (length failed + length o.fetched) in
    let waiting =
      drop_queue-IsClear refused fuel (reverse failed) o' (omega (arith, length-reverse failed))
        (record {
          keyed = s.clear.linked.keyed;
          linked = s.clear.linked.linked;
          apart = λ k h. elim (Bool-cases (TextSet.has k (hashes batch))) [
            | inl up ↦
                let (e, m, same) = hash_of_has k batch up in
                let gone : Dict.has k o.fetched ≡ false = rw same at ((s.aloft e m).gone) in
                absurd (ground arith)
            | inr other ↦ ground (
              arith,
              has-failed is_landed (hashes batch) k other,
              has-add_all failed k o.rejected,
              s.clear.linked.apart k h,
            )
          ];
        })
        (λ k p e g n u r. ground (
          arith,
          s.clear.clear k p e g n,
          has-add_all failed p o.rejected,
          has-reverse p failed,
        )) in
    record {
      clear = waiting;
      aloft = λ e m.
          let none_up = merging-drop_queue fuel (reverse failed) o' in
          let m' : In e (in_flight (drop_queue fuel (reverse failed) o').merging) = m in
          absurd (subst (λ b. In e (in_flight b)) none_up m');
    }

fail_run-IsClear :
    (refused : List Text) (es : List HashedEntry) (o : MergeOrchestrator)
    → ((e : HashedEntry)
        → In e es
        → (TextSet.has e.hash o.rejected ≡ false)
          × ((p : Text)
              → TextSet.has p (next_of e) ≡ true
              → TextSet.has p refused ≡ false
              → TextSet.has p o.rejected ≡ false))
    → IsClear refused o
    → IsClear refused (remember_all es o)
unfolding remember_all remember
fail_run-IsClear refused [] o f c = c
fail_run-IsClear refused (e ∷ es) o f c =
    fail_run-IsClear refused es (remember e o) (λ d m. f d (inr m))
      (remember-IsClear refused e o (f e (inl refl)).0 (f e (inl refl)).1 c)

pub fail_run-IsSafe :
    (refused : List Text) (is_landed : Text → Bool) (o : MergeOrchestrator)
    → IsSafe refused is_landed o
    → IsSafe refused is_landed (fail_run o)
unfolding fail_run
fail_run-IsSafe refused is_landed o s =
    let c =
      fail_run-IsClear refused (in_flight o.merging) o
        (λ e m. ((s.aloft e m).sound, (s.aloft e m).parents)) s.clear in
    record {
      clear = record {
        linked = record {
          keyed = c.linked.keyed;
          linked = c.linked.linked;
          apart = c.linked.apart;
        };
        clear = c.clear;
      };
      aloft = λ e m. absurd m;
    }

pub discard-IsSafe :
    (refused : List Text) (is_landed : Text → Bool) (o : MergeOrchestrator)
    → IsSafe refused is_landed o
    → IsSafe [] is_landed (discard o)
unfolding discard Dict.get TextSet.has
discard-IsSafe refused is_landed o s = record {
  clear = record {
    linked = record {
      keyed = record { distinct = tt; hashed = λ k e g. cc };
      linked = λ k p e g n. cc;
      apart = λ k h. refl;
    };
    clear = λ k p e g n u. refl;
  };
  aloft = λ e m. record {
    gone = refl;
    sound = refl;
    parents = λ p h u. refl;
    closed = (s.aloft e m).closed;
  };
}
