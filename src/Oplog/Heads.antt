-- ===== src/Oplog/Heads.antt =====
-- oplog/heads.ts: the heads of a set of entries, which the oplog keeps as entries arrive.
use record_node.Prelude.{
  Text, text_eq, text_eq_iff, ◌≡◌, refl, Bool, true, false, ◌&&◌, ◌||◌, not, Option, none, some,
  List, [], ◌∷◌, ◌++◌, inl, inr, arith, any, In, keep, Bool-cases, is_some,
}
use record_node.Dict
use record_node.Dict.{get-set, any-values_of_get}
use record_node.TextSet
use record_node.TextSet.{has-add_all, has-append, has-nil, has-cons}
use record_node.Entry.{VerifiedEntry, next_of}
use record_node.Oplog.{Oplog, ResolvedAcChain, create_oplog, insert_entry, inserted}
use record_node.Oplog.Index.{
  IsIndexed, cites, is_cited, create_oplog-IsIndexed, insert_entry-IsIndexed, is_cited-inserted,
}

abbrev named_in_next : List VerifiedEntry → List Text
named_in_next [] = []
named_in_next (e ∷ es) = next_of e ++ named_in_next es

abbrev hashes : List VerifiedEntry → List Text
hashes [] = []
hashes (e ∷ es) = e.hash ∷ hashes es

pub compute_heads : List VerifiedEntry → List Text
compute_heads all =
    let referenced = TextSet.add_all (named_in_next all) [] in
    TextSet.add_all (keep (λ h. not (TextSet.has h referenced)) (hashes all)) []

-- Entries that arrive one after the other.
pub insert_all : List VerifiedEntry → Oplog → Oplog
insert_all [] oplog = oplog
insert_all (e ∷ es) oplog = insert_all es (insert_entry e oplog).0

has-named_in_next :
    (h : Text) (es : List VerifiedEntry) → TextSet.has h (named_in_next es) ≡ any (cites h) es
has-named_in_next h [] = has-nil h
has-named_in_next h (e ∷ es) =
    ground (arith, has-append h (next_of e) (named_in_next es), has-named_in_next h es)

has-keep :
    (p : Text → Bool) (h : Text) (ks : List Text)
    → TextSet.has h (keep p ks) ≡ (TextSet.has h ks && p h)
has-keep p h [] = ground (arith, has-nil h)
has-keep p h (k ∷ ks) = ground (
  arith,
  has-keep p h ks,
  has-cons h k ks,
  has-cons h k (keep p ks),
  text_eq_iff k h,
  ap_bool p k h,
)
  where
    ap_bool : (q : Text → Bool) (a b : Text) → a ≡ b → q a ≡ q b
    ap_bool q a b e = cc

has-compute_heads :
    (h : Text) (es : List VerifiedEntry)
    → TextSet.has h (compute_heads es) ≡ (TextSet.has h (hashes es) && not (any (cites h) es))
unfolding compute_heads
has-compute_heads h es =
    let referenced = TextSet.add_all (named_in_next es) [] in
    let kept = keep (λ k. not (TextSet.has k referenced)) (hashes es) in
    ground (
      arith,
      has-add_all kept h [],
      has-nil h,
      has-keep (λ k. not (TextSet.has k referenced)) h (hashes es),
      has-add_all (named_in_next es) h [],
      has-named_in_next h es,
    )

-- One hash names one entry, among those to come and those that the oplog holds.
record IsAgreed (es : List VerifiedEntry) (oplog : Oplog) : Type 0 where
  among : (x y : VerifiedEntry) → In x es → In y es → x.hash ≡ y.hash → x ≡ y
  held : (x y : VerifiedEntry) → In x es → Dict.get x.hash oplog.entries ≡ some y → y ≡ x

IsAgreed-tail :
    (e : VerifiedEntry) (es : List VerifiedEntry) (oplog : Oplog)
    → IsAgreed (e ∷ es) oplog
    → IsAgreed es (insert_entry e oplog).0
unfolding insert_entry inserted
IsAgreed-tail e es oplog a = record {
  among = λ x y m n. a.among x y (inr m) (inr n);
  held = λ x y m g. ground (
    arith,
    get-set e.hash x.hash e oplog.entries,
    text_eq_iff e.hash x.hash,
    a.among e x (inl refl) (inr m),
    a.held x y (inr m),
  );
}

holds_one :
    (e : VerifiedEntry) (es : List VerifiedEntry) (oplog : Oplog) (h : Text)
    → IsAgreed (e ∷ es) oplog
    → Dict.has h (insert_entry e oplog).0.entries ≡ (Dict.has h oplog.entries || text_eq e.hash h)
unfolding insert_entry inserted
holds_one e es oplog h a = ground (arith, get-set e.hash h e oplog.entries, text_eq_iff e.hash h)

held_cites :
    (e : VerifiedEntry) (es : List VerifiedEntry) (oplog : Oplog) (h : Text)
    (o : Option VerifiedEntry)
    → IsAgreed (e ∷ es) oplog
    → Dict.get e.hash oplog.entries ≡ o
    → is_some o ≡ true
    → cites h e ≡ true
    → is_cited oplog h ≡ true
held_cites e es oplog h none a g s c = absurd (cc)
held_cites e es oplog h (some y) a g s c =
    any-values_of_get (cites h) e.hash y oplog.entries g
      (ground (arith, a.held e y (inl refl) g, c))

cites_one :
    (e : VerifiedEntry) (es : List VerifiedEntry) (oplog : Oplog) (h : Text)
    → IsAgreed (e ∷ es) oplog
    → is_cited (insert_entry e oplog).0 h ≡ (is_cited oplog h || cites h e)
unfolding insert_entry
cites_one e es oplog h a = elim (Bool-cases (Dict.has e.hash oplog.entries)) [
  | inl held ↦
      rw held (ground (arith, held_cites e es oplog h (Dict.get e.hash oplog.entries) a refl held))
  | inr absent ↦ rw absent (is_cited-inserted e oplog absent h)
]

insert_all-heads :
    (es : List VerifiedEntry) (oplog : Oplog) (h : Text)
    → IsAgreed es oplog
    → IsIndexed oplog
    → TextSet.has h (insert_all es oplog).heads ≡ (
        (Dict.has h oplog.entries || TextSet.has h (hashes es))
        && not (is_cited oplog h || any (cites h) es))
unfolding insert_all
insert_all-heads [] oplog h a i = ground (arith, i.heads h, has-nil h)
insert_all-heads (e ∷ es) oplog h a i = ground (
  arith,
  insert_all-heads es (insert_entry e oplog).0 h (IsAgreed-tail e es oplog a)
      (insert_entry-IsIndexed e oplog i),
  holds_one e es oplog h a,
  cites_one e es oplog h a,
  has-cons h e.hash (hashes es),
)

-- Inserting entries one after the other into an empty oplog, repeated ones included, leaves exactly the
-- heads that `compute_heads` finds for the list, where one hash names one entry. So the order in which
-- they arrive does not matter.
pub insert_all-eq-compute_heads :
    (chain : ResolvedAcChain) (es : List VerifiedEntry)
    → ((x y : VerifiedEntry) → In x es → In y es → x.hash ≡ y.hash → x ≡ y)
    → (h : Text)
    → TextSet.has h (insert_all es (create_oplog chain)).heads ≡ TextSet.has h (compute_heads es)
insert_all-eq-compute_heads chain es distinct h =
    let o = create_oplog chain in
    let a : IsAgreed es o = record {
      among = distinct;
      held = λ x y m g. absurd (unfold create_oplog Dict.get in cc);
    } in
    let empty : (Dict.has h o.entries ≡ false) × (is_cited o h ≡ false) =
      unfold create_oplog Dict.get in (refl, refl) in
    ground (
      arith,
      insert_all-heads es o h a (create_oplog-IsIndexed chain),
      has-compute_heads h es,
      empty.0,
      empty.1,
    )
