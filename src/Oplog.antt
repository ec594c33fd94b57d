-- ===== src/Oplog.antt =====
-- oplog/dag.ts: the state of one library's oplog, the insertion of a verified entry, and current-state
-- resolution; ResolvedAcChain of access-control/resolve.ts and AcChainCids of access-control/create.ts.
pub mod Order
pub mod Causal
pub mod Index
pub mod Heads
pub mod Accept
pub mod Refresh
pub mod Merge
pub mod Append
pub mod Clocks
pub mod Settled
pub mod Consistent
pub mod Settle
pub mod Reachable
pub mod Granted
pub mod Authorised
pub mod Verified
pub mod Accounts
pub mod Accounted
pub mod Citing
pub mod Identities
use mathlib.Core.Option.{get_or}
use record_node.Prelude.{
  ℕ, Text, Bool, true, false, Option, none, some, List, [], ◌∷◌, not, if◌then◌else◌, keep, is_some,
}
use record_node.Dict
use record_node.Dict.{Dict}
use record_node.TextSet
use record_node.Entry.{
  LibraryType, EntryPayload, access_put, capability, revocation, track_put, labels_put, about_put,
  opaque, put, identity_put, VerifiedEntry,
}
use record_node.Oplog.Order.{resolve_current_state}

pub record AcChainCids : Type 0 where
  pub manifest : Text
  pub wrapper : Text
  pub write_list : Text

pub record ResolvedAcChain : Type 0 where
  pub address : Text
  pub name : Text
  pub type : LibraryType
  pub write_list : List Text
  pub cids : AcChainCids

pub record Oplog : Type 0 where
  pub chain : ResolvedAcChain
  pub entries : Dict VerifiedEntry
  pub heads : List Text
  pub referenced : List Text
  pub key_entries : Dict (List Text)
  pub current : Dict VerifiedEntry
  pub capabilities : Dict VerifiedEntry
  pub revocations : Dict VerifiedEntry
  pub delegated : List Text
  pub effective : List Text
  pub inert : List Text

unfoldable pub create_oplog : ResolvedAcChain → Oplog
create_oplog chain = record {
  chain = chain;
  entries = [];
  heads = [];
  referenced = [];
  key_entries = [];
  current = [];
  capabilities = [];
  revocations = [];
  delegated = [];
  effective = [];
  inert = [];
}

-- `chain.write_list.includes(key)`.
abbrev pub is_write_list_key : Oplog → Text → Bool
is_write_list_key oplog key = TextSet.has key oplog.chain.write_list

-- `key_entries.get(key) ?? new Set()`.
unfoldable pub hashes_of : Text → Dict (List Text) → List Text
hashes_of key index = get_or (Dict.get key index) []

-- The loop over the state keys of an entry.
unfoldable pub index_keys : Text → List Text → Dict (List Text) → Dict (List Text)
unfolding hashes_of
index_keys hash [] index = index
index_keys hash (key ∷ keys) index =
    index_keys hash keys (Dict.set key (TextSet.add hash (hashes_of key index)) index)

-- `capabilities` and `revocations` after an entry with this operation.
unfoldable pub index_capability :
    VerifiedEntry → EntryPayload → Dict VerifiedEntry → Dict VerifiedEntry
index_capability e (access_put _ capability _ _) index = Dict.set e.hash e index
index_capability e _ index = index

unfoldable pub index_revocation :
    VerifiedEntry → EntryPayload → Dict VerifiedEntry → Dict VerifiedEntry
index_revocation e (access_put _ revocation _ _) index = Dict.set e.hash e index
index_revocation e _ index = index

abbrev with_head : Text → List Text → List Text → List Text
with_head hash referenced heads =
    if TextSet.has hash referenced then heads else TextSet.add hash heads

-- The oplog after an entry whose hash it does not hold.
unfoldable pub inserted : VerifiedEntry → Oplog → Oplog
unfolding index_keys index_capability index_revocation
inserted e oplog =
    let referenced = TextSet.add_all e.entry.next oplog.referenced in
    record oplog {
      entries = Dict.set e.hash e oplog.entries;
      referenced = referenced;
      heads = with_head e.hash referenced (TextSet.delete_all e.entry.next oplog.heads);
      key_entries = index_keys e.hash e.state_keys oplog.key_entries;
      capabilities = index_capability e e.operation oplog.capabilities;
      revocations = index_revocation e e.operation oplog.revocations;
      delegated =
          if is_write_list_key oplog e.entry.key
          then oplog.delegated
          else TextSet.add e.hash oplog.delegated;
    }

unfoldable pub insert_entry : VerifiedEntry → Oplog → Oplog × Bool
unfolding inserted
insert_entry e oplog =
    if Dict.has e.hash oplog.entries then (oplog, false) else (inserted e oplog, true)

-- The entries of these hashes, in order; the index holds no hash that the oplog does not.
unfoldable pub entries_at : Dict VerifiedEntry → List Text → List VerifiedEntry
entries_at entries [] = []
entries_at entries (h ∷ hs) =
    let rest = entries_at entries hs in
    elim (Dict.get h entries) [ none ↦ rest | some e ↦ e ∷ rest ]

-- Every entry of the key that is not inert.
unfoldable pub live_entries : Oplog → Text → List VerifiedEntry
unfolding entries_at hashes_of
live_entries oplog key =
    entries_at oplog.entries
      (keep (λ h. not (TextSet.has h oplog.inert)) (hashes_of key oplog.key_entries))

unfoldable pub store_current : Text → Option VerifiedEntry → Dict VerifiedEntry → Dict VerifiedEntry
store_current key none current = Dict.delete key current
store_current key (some e) current = Dict.set key e current

unfoldable pub refresh_key : Text → Oplog → Oplog
unfolding live_entries store_current
refresh_key key oplog = record oplog {
  current = store_current key (resolve_current_state (live_entries oplog key)) oplog.current;
}

unfoldable pub refresh_current_state : List Text → Oplog → Oplog
unfolding refresh_key
refresh_current_state [] oplog = oplog
refresh_current_state (key ∷ keys) oplog = refresh_current_state keys (refresh_key key oplog)

-- `'op' in operation && operation.op === 'PUT'`.
abbrev pub is_put_op : EntryPayload → Bool
is_put_op (track_put _ _ _) = true
is_put_op (labels_put _ _ _) = true
is_put_op (about_put _ _ _) = true
is_put_op (access_put _ _ _ _) = true
is_put_op (opaque put _ _ _) = true
is_put_op (identity_put _ _) = true
is_put_op _ = false

abbrev live : Option VerifiedEntry → Option VerifiedEntry
live none = none
live (some e) = if is_put_op e.operation then some e else none

-- The current entry for a key if it is a PUT; a current DEL tombstones the key.
unfoldable pub get_live_entry : Oplog → Text → Option VerifiedEntry
get_live_entry oplog key = live (Dict.get key oplog.current)
