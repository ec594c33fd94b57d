-- ===== src/Oplog/Index.antt =====
-- The indexes of an oplog agree with its entries whatever the order in which they were inserted.
use record_node.Prelude.{
  Bool-cases, inl, inr, Text, text_eq, text_eq_iff, ◌≡◌, refl, Bool, false, ◌&&◌, ◌||◌, not, Option,
  none, some, List, [], ◌∷◌, arith, any,
}
use record_node.Dict
use record_node.Dict.{Dict, get-set, any-values-set}
use record_node.TextSet
use record_node.TextSet.{has-add, has-add_all, has-delete_all, has-nil, has-cons}
use record_node.Entry.{VerifiedEntry, access_put, capability, revocation, next_of}
use record_node.Oplog.{
  Oplog, ResolvedAcChain, create_oplog, insert_entry, inserted, index_keys, index_capability,
  index_revocation, hashes_of, is_write_list_key,
}

-- Whether an entry names `h` in its `next`; whether any entry does.
abbrev pub cites : Text → VerifiedEntry → Bool
cites h e = TextSet.has h (next_of e)

abbrev pub is_cited : Oplog → Text → Bool
is_cited oplog h = any (cites h) (Dict.values oplog.entries)

abbrev pub has_key : Text → Option VerifiedEntry → Bool
has_key key none = false
has_key key (some e) = TextSet.has key e.state_keys

abbrev pub is_outsider : Oplog → Option VerifiedEntry → Bool
is_outsider oplog none = false
is_outsider oplog (some e) = not (is_write_list_key oplog e.entry.key)

abbrev pub only_capability : Option VerifiedEntry → Option VerifiedEntry
only_capability none = none
only_capability (some e) = elim e.operation [ access_put _ capability _ _ ↦ some e | _ ↦ none ]

abbrev pub only_revocation : Option VerifiedEntry → Option VerifiedEntry
only_revocation none = none
only_revocation (some e) = elim e.operation [ access_put _ revocation _ _ ↦ some e | _ ↦ none ]

pub record IsIndexed (oplog : Oplog) : Type 0 where
  pub keyed : (h : Text) (e : VerifiedEntry) → Dict.get h oplog.entries ≡ some e → e.hash ≡ h
  pub referenced : (h : Text) → TextSet.has h oplog.referenced ≡ is_cited oplog h
  pub heads :
      (h : Text) → TextSet.has h oplog.heads ≡ (Dict.has h oplog.entries && not (is_cited oplog h))
  pub keys :
      (key h : Text)
      → TextSet.has h (hashes_of key oplog.key_entries) ≡ has_key key (Dict.get h oplog.entries)
  pub delegated :
      (h : Text) → TextSet.has h oplog.delegated ≡ is_outsider oplog (Dict.get h oplog.entries)
  pub capabilities :
      (h : Text) → Dict.get h oplog.capabilities ≡ only_capability (Dict.get h oplog.entries)
  pub revocations :
      (h : Text) → Dict.get h oplog.revocations ≡ only_revocation (Dict.get h oplog.entries)

has-index_keys :
    (hash : Text) (keys : List Text) (index : Dict (List Text)) (key h : Text)
    → TextSet.has h (hashes_of key (index_keys hash keys index))
      ≡ ((text_eq hash h && TextSet.has key keys) || TextSet.has h (hashes_of key index))
unfolding index_keys hashes_of
has-index_keys hash [] index key h = ground (arith, has-nil key)
has-index_keys hash (k ∷ keys) index key h = ground (
  arith,
  has-index_keys hash keys (Dict.set k (TextSet.add hash (hashes_of k index)) index) key h,
  get-set k key (TextSet.add hash (hashes_of k index)) index,
  has-add hash h (hashes_of k index),
  has-cons key k keys,
  text_eq_iff k key,
)

module _ (e : VerifiedEntry) (oplog : Oplog) (absent : Dict.has e.hash oplog.entries ≡ false) where
  absent_get : Dict.get e.hash oplog.entries ≡ none
  absent_get = ground arith

  pub is_cited-inserted :
      (h : Text) → is_cited (inserted e oplog) h ≡ (is_cited oplog h || cites h e)
  unfolding inserted
  is_cited-inserted h = any-values-set (cites h) e.hash e oplog.entries absent_get

  inserted-keyed :
      IsIndexed oplog
      → (h : Text) (d : VerifiedEntry) → Dict.get h (inserted e oplog).entries ≡ some d
      → d.hash ≡ h
  unfolding inserted
  inserted-keyed i h d g =
      ground (arith, get-set e.hash h e oplog.entries, text_eq_iff e.hash h, i.keyed h d)

  inserted-referenced :
      IsIndexed oplog
      → (h : Text) → TextSet.has h (inserted e oplog).referenced ≡ is_cited (inserted e oplog) h
  inserted-referenced i h = rw (is_cited-inserted h) (
      unfold inserted in ground (arith, has-add_all (next_of e) h oplog.referenced, i.referenced h))

  inserted-heads :
      IsIndexed oplog
      → (h : Text)
      → TextSet.has h (inserted e oplog).heads
        ≡ (Dict.has h (inserted e oplog).entries && not (is_cited (inserted e oplog) h))
  inserted-heads i h = rw (is_cited-inserted h) (
      unfold inserted in
      ground (
        arith,
        has-add_all (next_of e) e.hash oplog.referenced,
        has-delete_all (next_of e) h oplog.heads,
        has-add e.hash h (TextSet.delete_all (next_of e) oplog.heads),
        i.referenced e.hash,
        i.heads h,
        get-set e.hash h e oplog.entries,
        text_eq_iff e.hash h,
        absent,
      ))

  inserted-keys :
      IsIndexed oplog
      → (key h : Text)
      → TextSet.has h (hashes_of key (inserted e oplog).key_entries)
        ≡ has_key key (Dict.get h (inserted e oplog).entries)
  unfolding inserted
  inserted-keys i key h = ground (
    arith,
    has-index_keys e.hash e.state_keys oplog.key_entries key h,
    i.keys key h,
    get-set e.hash h e oplog.entries,
    text_eq_iff e.hash h,
    absent_get,
  )

  inserted-delegated :
      IsIndexed oplog
      → (h : Text)
      → TextSet.has h (inserted e oplog).delegated
        ≡ is_outsider (inserted e oplog) (Dict.get h (inserted e oplog).entries)
  unfolding inserted
  inserted-delegated i h = ground (
    arith,
    has-add e.hash h oplog.delegated,
    i.delegated h,
    get-set e.hash h e oplog.entries,
    text_eq_iff e.hash h,
    absent_get,
  )

  inserted-capabilities :
      IsIndexed oplog
      → (h : Text)
      → Dict.get h (inserted e oplog).capabilities
        ≡ only_capability (Dict.get h (inserted e oplog).entries)
  unfolding inserted index_capability
  inserted-capabilities i h = ground (
    arith,
    get-set e.hash h e oplog.capabilities,
    i.capabilities h,
    get-set e.hash h e oplog.entries,
    text_eq_iff e.hash h,
    absent_get,
  )

  inserted-revocations :
      IsIndexed oplog
      → (h : Text)
      → Dict.get h (inserted e oplog).revocations
        ≡ only_revocation (Dict.get h (inserted e oplog).entries)
  unfolding inserted index_revocation
  inserted-revocations i h = ground (
    arith,
    get-set e.hash h e oplog.revocations,
    i.revocations h,
    get-set e.hash h e oplog.entries,
    text_eq_iff e.hash h,
    absent_get,
  )

  inserted-IsIndexed : IsIndexed oplog → IsIndexed (inserted e oplog)
  inserted-IsIndexed i = record {
    keyed = inserted-keyed i;
    referenced = inserted-referenced i;
    heads = inserted-heads i;
    keys = inserted-keys i;
    delegated = inserted-delegated i;
    capabilities = inserted-capabilities i;
    revocations = inserted-revocations i;
  }

-- An oplog with no entry has empty indexes.
pub create_oplog-IsIndexed : (chain : ResolvedAcChain) → IsIndexed (create_oplog chain)
unfolding create_oplog hashes_of Dict.get TextSet.has
create_oplog-IsIndexed chain = record {
  keyed = λ h e g. cc;
  referenced = λ h. refl;
  heads = λ h. refl;
  keys = λ key h. refl;
  delegated = λ h. refl;
  capabilities = λ h. refl;
  revocations = λ h. refl;
}

-- `insert_entry` keeps every index of an indexed oplog in agreement with its entries, whether it adds
-- the entry or finds it there: heads are the stored hashes that no entry names in `next`, the entries
-- of a state key are those that carry it, the delegated ones are signed outside the write list, and
-- the capability and revocation records are found under their hashes.
pub insert_entry-IsIndexed :
    (e : VerifiedEntry) (oplog : Oplog) → IsIndexed oplog → IsIndexed (insert_entry e oplog).0
unfolding insert_entry
insert_entry-IsIndexed e oplog i = elim (Bool-cases (Dict.has e.hash oplog.entries)) [
  | inl held ↦ rw held i
  | inr absent ↦ rw absent (inserted-IsIndexed e oplog absent i)
]
