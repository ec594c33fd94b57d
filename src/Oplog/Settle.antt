-- ===== src/Oplog/Settle.antt =====
-- What an insertion and `settle` of the merge and the append leave consistent.
use record_node.Prelude.{
  Text, ◌≡◌, refl, Bool, Bool-cases, inl, inr, true, false, ◌&&◌, ◌||◌, List, [], ◌∷◌, arith, any,
}
use record_node.Dict
use record_node.TextSet
use record_node.TextSet.{has-nil, has-add_all}
use record_node.Entry.{VerifiedEntry}
use record_node.Oplog.{
  Oplog, ResolvedAcChain, create_oplog, insert_entry, hashes_of, live_entries, entries_at,
}
use record_node.Oplog.Order.{resolve_current_state, resolve_from}
use record_node.Oplog.Index.{IsIndexed, create_oplog-IsIndexed, insert_entry-IsIndexed}
use record_node.Oplog.Clocks.{IsAfterParents, insert_entry-IsClocked}
use record_node.Oplog.Settled.{IsSettledAt, inserted-IsSettledAt, judge_added-IsSettledAt}
use record_node.Oplog.Refresh.{
  AccessChange, judge_added, with_inert, recompute_effective, revocation_added,
  refresh_access_state, is_empty, no_change,
}
use record_node.Oplog.Merge.{settle, merged_keys}
use record_node.Oplog.Consistent.{IsConsistentBut, IsConsistent, refresh_current_state-IsConsistent}

-- The keys that one of the entries carries.
abbrev pub carried : List VerifiedEntry → Text → Bool
carried es key = any (λ e. TextSet.has key e.state_keys) es

pub create_oplog-IsConsistent : (chain : ResolvedAcChain) → IsConsistent (create_oplog chain)
unfolding create_oplog live_entries hashes_of entries_at Dict.get resolve_current_state resolve_from
create_oplog-IsConsistent chain = record {
  indexed = create_oplog-IsIndexed chain;
  clocked = record { parent = λ h p e g s. absurd (cc) };
  settled = λ key s. refl;
}

insert_entry-IsSettledAt :
    (e : VerifiedEntry) (oplog : Oplog)
    → IsIndexed oplog
    → (key : Text) → TextSet.has key e.state_keys ≡ false
    → IsSettledAt oplog key
    → IsSettledAt (insert_entry e oplog).0 key
unfolding insert_entry
insert_entry-IsSettledAt e oplog i key s h = elim (Bool-cases (Dict.has e.hash oplog.entries)) [
  | inl held ↦ rw held h
  | inr absent ↦ rw absent (inserted-IsSettledAt e oplog absent i key s h)
]

-- An insertion opens the keys of the entry.
pub insert_entry-IsConsistentBut :
    (open_keys : Text → Bool) (e : VerifiedEntry) (oplog : Oplog)
    → IsConsistentBut open_keys oplog
    → IsAfterParents oplog.entries e.hashed
    → IsConsistentBut
        (λ key. open_keys key || TextSet.has key e.state_keys)
        (insert_entry e oplog).0
insert_entry-IsConsistentBut open_keys e oplog c after = record {
  indexed = insert_entry-IsIndexed e oplog c.indexed;
  clocked = insert_entry-IsClocked e oplog c.clocked after;
  settled = λ key s.
      insert_entry-IsSettledAt e oplog c.indexed key (ground arith) (c.settled key (ground arith));
}

recompute_effective-IsConsistentBut :
    (open_keys : Text → Bool) (oplog : Oplog)
    → IsConsistentBut open_keys oplog
    → IsConsistentBut open_keys (recompute_effective oplog)
unfolding recompute_effective live_entries
recompute_effective-IsConsistentBut open_keys oplog c = record {
  indexed = record {
    keyed = c.indexed.keyed;
    referenced = c.indexed.referenced;
    heads = c.indexed.heads;
    keys = c.indexed.keys;
    delegated = c.indexed.delegated;
    capabilities = c.indexed.capabilities;
    revocations = c.indexed.revocations;
  };
  clocked = c.clocked;
  settled = c.settled;
}

judge_added-IsIndexed :
    (oplog : Oplog) (revoking : Bool) (added : List VerifiedEntry)
    → IsIndexed oplog
    → IsIndexed (judge_added oplog revoking added).0
unfolding judge_added with_inert
judge_added-IsIndexed oplog revoking added i = record {
  keyed = i.keyed;
  referenced = i.referenced;
  heads = i.heads;
  keys = i.keys;
  delegated = i.delegated;
  capabilities = i.capabilities;
  revocations = i.revocations;
}

judge_added-entries :
    (oplog : Oplog) (revoking : Bool) (added : List VerifiedEntry)
    → (judge_added oplog revoking added).0.entries ≡ oplog.entries
unfolding judge_added with_inert
judge_added-entries oplog revoking added = refl

-- What the judging leaves consistent: all but the keys that it reports.
abbrev IsRefreshed : (Text → Bool) → Oplog × AccessChange → Type 0
IsRefreshed open_keys (oplog, access) =
    IsConsistentBut (λ key. open_keys key || TextSet.has key access.keys) oplog

judge_added-IsRefreshed :
    (open_keys : Text → Bool) (oplog : Oplog) (revoking : Bool) (added : List VerifiedEntry)
    → IsConsistentBut open_keys oplog
    → IsRefreshed open_keys (judge_added oplog revoking added)
judge_added-IsRefreshed open_keys oplog revoking added c = record {
  indexed = judge_added-IsIndexed oplog revoking added c.indexed;
  clocked = rw (judge_added-entries oplog revoking added) c.clocked;
  settled = λ key s.
      judge_added-IsSettledAt oplog revoking added c.indexed key (ground arith)
        (c.settled key (ground arith));
}

unchanged-IsRefreshed :
    (open_keys : Text → Bool) (oplog : Oplog)
    → IsConsistentBut open_keys oplog
    → IsRefreshed open_keys (oplog, no_change)
unchanged-IsRefreshed open_keys oplog c = record {
  indexed = c.indexed;
  clocked = c.clocked;
  settled = λ key s. c.settled key (ground arith);
}

pub refresh_access_state-IsRefreshed :
    (open_keys : Text → Bool) (oplog : Oplog) (added : List VerifiedEntry)
    → IsConsistentBut open_keys oplog
    → IsRefreshed open_keys (refresh_access_state oplog added)
unfolding refresh_access_state
refresh_access_state-IsRefreshed open_keys oplog added c =
    elim (Bool-cases (revocation_added oplog added)) [
      | inl t ↦ rw t (
          judge_added-IsRefreshed open_keys (recompute_effective oplog) true added
            (recompute_effective-IsConsistentBut open_keys oplog c))
      | inr f ↦ rw f (elim (Bool-cases (is_empty oplog.effective && is_empty oplog.inert)) [
        | inl q ↦ rw q (unchanged-IsRefreshed open_keys oplog c)
        | inr n ↦ rw n (judge_added-IsRefreshed open_keys oplog false added c)
      ])
    ]

has-merged_keys :
    (key : Text) (es : List VerifiedEntry) (keys : List Text)
    → TextSet.has key (merged_keys es keys) ≡ (carried es key || TextSet.has key keys)
unfolding merged_keys
has-merged_keys key [] keys = refl
has-merged_keys key (e ∷ es) keys = ground (
  arith,
  has-merged_keys key es (TextSet.add_all e.state_keys keys),
  has-add_all e.state_keys key keys,
)

-- Once the merged entries are settled, no key is open.
pub settle-IsConsistent :
    (oplog : Oplog) (merged : List VerifiedEntry)
    → IsConsistentBut (carried merged) oplog
    → IsConsistent (settle oplog merged).0
unfolding settle
settle-IsConsistent oplog merged c =
    refresh_current_state-IsConsistent
      (λ key. carried merged key || TextSet.has key (refresh_access_state oplog merged).1.keys)
      (merged_keys merged (refresh_access_state oplog merged).1.keys)
      (refresh_access_state oplog merged).0
      (refresh_access_state-IsRefreshed (carried merged) oplog merged c)
      (λ key o.
        ground (arith, has-merged_keys key merged (refresh_access_state oplog merged).1.keys))
