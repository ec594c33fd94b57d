-- ===== src/Replication/Orchestrator/Dropped.antt =====
-- Dropping what descends from rejected entries leaves none that waits for one.
use record_node.Prelude.{
  ℕ, zero, suc, ◌+◌, ◌≤◌, ◌<◌, Text, text_eq, text_eq_iff, ◌≡◌, refl, sym, true, false, ◌&&◌, ◌||◌,
  inl, inr, none, some, List, [], ◌∷◌, arith, length, Bool-cases, Option-cases,
}
use mathlib.Core.Path.{subst}
use record_node.Dict
use record_node.Dict.{Dict, get-set, get-delete}
use record_node.Dict.Distinct.{IsDistinct-delete}
use record_node.TextSet
use record_node.TextSet.{has-add, has-nil, has-cons}
use record_node.Entry.{HashedEntry}
use record_node.Replication.Orchestrator.{
  MergeOrchestrator, next_of, children_of, forget, drop_children, drop_queue,
}
use record_node.Replication.Orchestrator.Ready.{IsKeyed}
use record_node.Replication.Orchestrator.Links.{has-unlink}

-- Each waiting entry stands under its hash and under each parent that it names, and is not rejected.
pub record IsLinked (o : MergeOrchestrator) : Type 0 where
  pub keyed : IsKeyed o.fetched
  pub linked :
      (k p : Text) (e : HashedEntry)
      → Dict.get k o.fetched ≡ some e
      → TextSet.has p (next_of e) ≡ true
      → TextSet.has k (children_of p o.children) ≡ true
  pub apart : (k : Text) → Dict.has k o.fetched ≡ true → TextSet.has k o.rejected ≡ false

-- A waiting entry names a rejected parent only if the parent was refused when it was added, or is queued,
-- or if it is the parent at hand and the entry is still to be looked at.
abbrev pub Awaits :
    (refused : List Text) → (hash : Text) → (left queue : List Text) → MergeOrchestrator → Type 0
Awaits refused hash left queue o =
    (k p : Text) (e : HashedEntry)
    → Dict.get k o.fetched ≡ some e
    → TextSet.has p (next_of e) ≡ true
    → TextSet.has p refused ≡ false
    → TextSet.has p o.rejected ≡ true
    → (TextSet.has p queue || (text_eq hash p && TextSet.has k left)) ≡ true

pub forget-IsLinked : (e : HashedEntry) (o : MergeOrchestrator) → IsLinked o → IsLinked (forget e o)
unfolding forget
forget-IsLinked e o l = record {
  keyed = record {
    distinct = IsDistinct-delete e.hash o.fetched l.keyed.distinct;
    hashed = λ k d g. ground (arith, get-delete e.hash k o.fetched, l.keyed.hashed k d);
  };
  linked = λ k p d g n. ground (
    arith,
    get-delete e.hash k o.fetched,
    l.linked k p d,
    has-unlink e.hash (next_of e) o.children p k,
    text_eq_iff e.hash k,
  );
  apart = λ k h. ground (arith, get-delete e.hash k o.fetched, l.apart k);
}

dropped : Text → HashedEntry → MergeOrchestrator → MergeOrchestrator
dropped c e o = record (forget e o) { rejected = TextSet.add c o.rejected }

dropped-IsLinked :
    (c : Text) (e : HashedEntry) (o : MergeOrchestrator)
    → Dict.get c o.fetched ≡ some e
    → IsLinked o
    → IsLinked (dropped c e o)
unfolding dropped forget
dropped-IsLinked c e o there l =
    let f = forget-IsLinked e o l in
    let hash = l.keyed.hashed c e there in
    record {
      keyed = f.keyed;
      linked = f.linked;
      apart = λ k h. ground (
        arith,
        f.apart k h,
        get-delete e.hash k o.fetched,
        has-add c k o.rejected,
        text_eq_iff e.hash k,
        text_eq_iff c k,
      );
    }

dropped-Awaits :
    (refused : List Text) (hash c : Text) (e : HashedEntry) (left queue : List Text)
    (o : MergeOrchestrator)
    → Dict.get c o.fetched ≡ some e
    → IsLinked o
    → Awaits refused hash (c ∷ left) queue o
    → Awaits refused hash left (c ∷ queue) (dropped c e o)
unfolding dropped forget
dropped-Awaits refused hash c e left queue o there l a k p d g n u r =
    let same = l.keyed.hashed c e there in
    ground (
      arith,
      a k p d,
      get-delete e.hash k o.fetched,
      has-add c p o.rejected,
      has-cons p c queue,
      has-cons k c left,
      text_eq_iff e.hash k,
      text_eq_iff c p,
      text_eq_iff c k,
    )

length-delete-le : {V : Type 0} (k : Text) (m : Dict V) → length (Dict.delete k m) ≤ length m
unfolding Dict.delete
length-delete-le k [] = omega arith
length-delete-le k ((j, v) ∷ m) = ground (arith, length-delete-le k m)

length-delete :
    {V : Type 0} (k : Text) (m : Dict V)
    → Dict.has k m ≡ true
    → suc (length (Dict.delete k m)) ≤ length m
unfolding Dict.delete Dict.get
length-delete k [] h = cc
length-delete k ((j, v) ∷ m) h = ground (arith, length-delete k m, length-delete-le k m)

-- What the loop over the children keeps, and that each entry that it queues waits no more.
record IsDone (refused : List Text) (hash : Text) (before after : List Text)
    (o o' : MergeOrchestrator) : Type 0 where
  linked : IsLinked o'
  awaits : Awaits refused hash [] after o'
  less : length after + length o'.fetched ≤ length before + length o.fetched

skip_child :
    (c : Text) (cs queue : List Text) (o : MergeOrchestrator)
    → Dict.get c o.fetched ≡ none
    → drop_children (c ∷ cs) queue o ≡ drop_children cs queue o
unfolding drop_children
skip_child c cs queue o gone = rw (gone, drop_children) refl

drop_child :
    (c : Text) (e : HashedEntry) (cs queue : List Text) (o : MergeOrchestrator)
    → Dict.get c o.fetched ≡ some e
    → TextSet.has c o.rejected ≡ false
    → drop_children (c ∷ cs) queue o ≡ drop_children cs (c ∷ queue) (dropped c e o)
unfolding drop_children dropped
drop_child c e cs queue o there new = rw (there, drop_children) (rw new refl)

length-dropped :
    (c : Text) (e : HashedEntry) (o : MergeOrchestrator)
    → Dict.get c o.fetched ≡ some e
    → IsLinked o
    → suc (length (dropped c e o).fetched) ≤ length o.fetched
unfolding dropped forget
length-dropped c e o there l =
    let same = l.keyed.hashed c e there in
    let has : Dict.has e.hash o.fetched ≡ true = ground arith in length-delete e.hash o.fetched has

drop_children-IsDone :
    (refused : List Text) (hash : Text) (cs queue : List Text) (o : MergeOrchestrator)
    → IsLinked o
    → Awaits refused hash cs queue o
    → IsDone refused hash queue (drop_children cs queue o).0 o (drop_children cs queue o).1
unfolding drop_children
drop_children-IsDone refused hash [] queue o l a = record {
  linked = l;
  awaits = a;
  less = omega arith;
}
drop_children-IsDone refused hash (c ∷ cs) queue o l a =
    elim (Option-cases (Dict.get c o.fetched)) [
      | inl gone ↦
          subst (λ r. IsDone refused hash queue r.0 o r.1) (sym (skip_child c cs queue o gone))
            (drop_children-IsDone refused hash cs queue o l
              (λ k p d g n u r. ground (arith, a k p d g n u r, has-cons k c cs, text_eq_iff c k)))
      | inr (e, there) ↦
          let new : TextSet.has c o.rejected ≡ false = l.apart c (ground arith) in
          let d =
            drop_children-IsDone refused hash cs (c ∷ queue) (dropped c e o)
              (dropped-IsLinked c e o there l)
              (dropped-Awaits refused hash c e cs queue o there l a) in
          subst (λ r. IsDone refused hash queue r.0 o r.1)
            (sym (drop_child c e cs queue o there new))
            (record {
              linked = d.linked;
              awaits = d.awaits;
              less = omega (arith, d.less, length-dropped c e o there l);
            })
    ]

-- What waits names no rejected parent but one that was refused when it was added.
pub record IsClear (refused : List Text) (o : MergeOrchestrator) : Type 0 where
  pub linked : IsLinked o
  pub clear :
      (k p : Text) (e : HashedEntry)
      → Dict.get k o.fetched ≡ some e
      → TextSet.has p (next_of e) ≡ true
      → TextSet.has p refused ≡ false
      → TextSet.has p o.rejected ≡ false

pub drop_queue-IsClear :
    (refused : List Text) (fuel : ℕ) (queue : List Text) (o : MergeOrchestrator)
    → length queue + length o.fetched < fuel
    → IsLinked o
    → Awaits refused [] [] queue o
    → IsClear refused (drop_queue fuel queue o)
unfolding drop_queue
drop_queue-IsClear refused zero queue o less l a = absurd (omega arith)
drop_queue-IsClear refused (suc fuel) [] o less l a = record {
  linked = l;
  clear = λ k p e g n u. elim (Bool-cases (TextSet.has p o.rejected)) [
    | inl r ↦ absurd (ground (arith, a k p e g n u r, has-nil p, has-nil k))
    | inr new ↦ new
  ];
}
drop_queue-IsClear refused (suc fuel) (hash ∷ queue) o less l a =
    let cs = children_of hash o.children in
    let d = drop_children-IsDone refused hash cs queue o l (λ k p e g n u r. ground (
      arith,
      a k p e g n u r,
      has-cons p hash queue,
      has-nil k,
      l.linked k p e g n,
      text_eq_iff hash p,
    )) in
    drop_queue-IsClear refused fuel (drop_children cs queue o).0 (drop_children cs queue o).1
      (omega (arith, d.less)) d.linked
      (λ k p e g n u r. ground (arith, d.awaits k p e g n u r, has-nil k))
