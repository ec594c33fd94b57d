-- ===== src/Replication/Orchestrator/Waiting.antt =====
-- The histories of an orchestrator: entries added, runs, merges that end or fail, while entries land.
pub mod Steps
pub mod History
use mathlib.Core.List.{reverse}
use mathlib.Core.Logic.{⊎_elim}
use mathlib.Core.Path.{subst}
use record_node.Prelude.{
  ℕ, zero, suc, ◌+◌, ◌≤◌, ◌<◌, Text, text_eq, text_eq_iff, ◌≡◌, refl, sym, ap, ◌∙◌, Bool, true,
  false, ◌&&◌, ◌||◌, not, ◌⊎◌, inl, inr, Option, none, some, List, [], ◌∷◌, arith, length,
  if◌then◌else◌, Bool-cases, Option-cases, In, any, map, keep, length-reverse,
}
use record_node.Dict
use record_node.Dict.{Dict, get-set, get-delete}
use record_node.Dict.Distinct.{IsDistinct-set}
use record_node.TextSet
use record_node.TextSet.{has-add, has-nil, has-cons, has-add_all, has-reverse}
use record_node.Entry.{HashedEntry}
use record_node.Replication.Orchestrator.{
  MergeOrchestrator, create_merge_orchestrator, next_of, children_of, link, remember, forget,
  remember_all, forget_all, drop_queue, drop_rejected_descendants, add, ready_batch, waiting_for,
  start_run, hashes, in_flight, end_run, fail_run, discard,
}
use record_node.Replication.Orchestrator.Ready.{IsKeyed, ready_batch-closed, In-ready_batch}
use record_node.Replication.Orchestrator.Links.{has-link}
use record_node.Replication.Orchestrator.Dropped.{
  IsLinked, IsClear, Awaits, forget-IsLinked, drop_queue-IsClear,
}

pub has-In : (p : Text) (xs : List Text) → TextSet.has p xs ≡ true → In p xs
unfolding TextSet.has
has-In p [] h = cc
has-In p (x ∷ xs) h = elim (Bool-cases (text_eq x p)) [
  | inl e ↦ inl (sym ((text_eq_iff x p).0 e))
  | inr n ↦ inr (has-In p xs (ground arith))
]

pub In-hashes :
    (e : HashedEntry) (es : List HashedEntry) → In e es → TextSet.has e.hash (hashes es) ≡ true
unfolding TextSet.has
In-hashes e [] m = absurd m
In-hashes e (d ∷ es) (inl s) =
    let h : e.hash ≡ d.hash = ap (λ (x : HashedEntry). x.hash) s in
    ground (arith, text_eq_iff d.hash e.hash)
In-hashes e (d ∷ es) (inr m) = ground (arith, In-hashes e es m)

-- What holds of an entry whose merge is awaited.
pub record IsAloft (refused : List Text) (is_landed : Text → Bool) (o : MergeOrchestrator)
    (e : HashedEntry) : Type 0 where
  pub gone : Dict.has e.hash o.fetched ≡ false
  pub sound : TextSet.has e.hash o.rejected ≡ false
  pub parents :
      (p : Text)
      → TextSet.has p (next_of e) ≡ true
      → TextSet.has p refused ≡ false
      → TextSet.has p o.rejected ≡ false
  -- Its parents have landed or are in its batch.
  pub closed :
      (p : Text)
      → TextSet.has p (next_of e) ≡ true
      → (is_landed p || TextSet.has p (hashes (in_flight o.merging))) ≡ true

pub record IsSafe (refused : List Text) (is_landed : Text → Bool) (o : MergeOrchestrator)
    : Type 0 where
  pub clear : IsClear refused o
  pub aloft : (e : HashedEntry) → In e (in_flight o.merging) → IsAloft refused is_landed o e

-- An entry that is added is new, since the traversal hands each on once.
pub record IsNew (is_landed : Text → Bool) (o : MergeOrchestrator) (e : HashedEntry) : Type 0 where
  pub not_fetched : Dict.has e.hash o.fetched ≡ false
  pub not_rejected : TextSet.has e.hash o.rejected ≡ false
  pub not_landed : is_landed e.hash ≡ false
  pub not_aloft : TextSet.has e.hash (hashes (in_flight o.merging)) ≡ false

-- The entries refused when they were added, with one that is added next.
abbrev pub refused_with : HashedEntry → MergeOrchestrator → List Text → List Text
refused_with e o refused =
    if any (λ p. TextSet.has p o.rejected) (next_of e) then e.hash ∷ refused else refused

pub remember-IsClear :
    (refused : List Text) (e : HashedEntry) (o : MergeOrchestrator)
    → TextSet.has e.hash o.rejected ≡ false
    → ((p : Text)
        → TextSet.has p (next_of e) ≡ true
        → TextSet.has p refused ≡ false
        → TextSet.has p o.rejected ≡ false)
    → IsClear refused o
    → IsClear refused (remember e o)
unfolding remember
remember-IsClear refused e o sound parents c = record {
  linked = record {
    keyed = record {
      distinct = IsDistinct-set e.hash e o.fetched c.linked.keyed.distinct;
      hashed = λ k d g.
          ground
            (arith, get-set e.hash k e o.fetched, c.linked.keyed.hashed k d, text_eq_iff e.hash k);
    };
    linked = λ k p d g n. ground (
      arith,
      get-set e.hash k e o.fetched,
      c.linked.linked k p d,
      has-link e.hash (next_of e) o.children p k,
    );
    apart =
        λ k h. ground (arith, get-set e.hash k e o.fetched, c.linked.apart k, text_eq_iff e.hash k);
  };
  clear = λ k p d g n u. ground (arith, get-set e.hash k e o.fetched, c.clear k p d, parents p);
}

no_rejected_parent :
    (rejected ps : List Text) (p : Text)
    → any (λ q. TextSet.has q rejected) ps ≡ false
    → TextSet.has p ps ≡ true
    → TextSet.has p rejected ≡ false
unfolding TextSet.has
no_rejected_parent rejected [] p n h = cc
no_rejected_parent rejected (q ∷ ps) p n h =
    ground (arith, no_rejected_parent rejected ps p, text_eq_iff q p)

pub add-IsSafe :
    (refused : List Text) (is_landed : Text → Bool) (e : HashedEntry) (o : MergeOrchestrator)
    → IsNew is_landed o e
    → IsSafe refused is_landed o
    → IsSafe (refused_with e o refused) is_landed (add e o)
unfolding add remember
add-IsSafe refused is_landed e o n s =
    elim (Bool-cases (any (λ p. TextSet.has p o.rejected) (next_of e))) [
      | inl turned_away ↦ rw turned_away (record {
        clear = record {
          linked = record {
            keyed = s.clear.linked.keyed;
            linked = s.clear.linked.linked;
            apart = λ k h. ground (
              arith,
              s.clear.linked.apart k h,
              has-add e.hash k o.rejected,
              text_eq_iff e.hash k,
              n.not_fetched,
            );
          };
          clear = λ k p d g m u. ground (
            arith,
            s.clear.clear k p d g m,
            has-cons p e.hash refused,
            has-add e.hash p o.rejected,
          );
        };
        aloft = λ d m.
            let a = s.aloft d m in
            let up = In-hashes d (in_flight o.merging) m in
            record {
              gone = a.gone;
              sound =
                  ground
                    (arith, a.sound, has-add e.hash d.hash o.rejected, text_eq_iff e.hash d.hash);
              parents = λ p h u.
                  ground
                    (arith, a.parents p h, has-cons p e.hash refused, has-add e.hash p o.rejected);
              closed = a.closed;
            };
      })
      | inr taken ↦
          let c =
            remember-IsClear refused e o n.not_rejected
              (λ p h u. no_rejected_parent o.rejected (next_of e) p taken h) s.clear in
          rw taken (record {
            clear = record {
              linked = record {
                keyed = c.linked.keyed;
                linked = c.linked.linked;
                apart = c.linked.apart;
              };
              clear = c.clear;
            };
            aloft = λ d m.
                let a = s.aloft d m in
                let up = In-hashes d (in_flight o.merging) m in
                record {
                  gone =
                      ground (
                        arith,
                        a.gone,
                        get-set e.hash d.hash e o.fetched,
                        text_eq_iff e.hash d.hash,
                      );
                  sound = a.sound;
                  parents = a.parents;
                  closed = a.closed;
                };
          })
    ]

-- If an entry is refused for a rejected parent, is not fetched before, and a waiting entry names
-- it: after `add` that entry still waits, the parent it names is rejected, and no batch takes
-- it while neither has landed.
pub add-strands :
    (is_landed : Text → Bool) (e d : HashedEntry) (k : Text) (o : MergeOrchestrator)
    → IsKeyed o.fetched
    → any (λ p. TextSet.has p o.rejected) (next_of e) ≡ true
    → Dict.get k o.fetched ≡ some d
    → TextSet.has e.hash (next_of d) ≡ true
    → Dict.has e.hash o.fetched ≡ false
    → is_landed e.hash ≡ false
    → is_landed d.hash ≡ false
    → (Dict.get k (add e o).fetched ≡ some d)
      × (TextSet.has e.hash (add e o).rejected ≡ true)
      × (In d (ready_batch is_landed (add e o).fetched) → ⊥)
unfolding add
add-strands is_landed e d k o keyed refused there named new away unlanded = rw refused (
  there,
  ground (arith, has-add e.hash e.hash o.rejected, text_eq_iff e.hash e.hash),
  λ m.
      elim (ready_batch-closed is_landed o.fetched d e.hash keyed m unlanded
        (has-In e.hash (next_of d) named)) [
          | inl landed ↦ absurd (ground arith)
          | inr (x, same, i) ↦
              let found = In-ready_batch is_landed o.fetched x keyed i in
              let waits : Dict.has x.hash o.fetched ≡ true = ground arith in
              let waits' : Dict.has e.hash o.fetched ≡ true = rw same at waits in
              absurd (ground arith)
        ],
)
