-- ===== src/Oplog/Merge.antt =====
-- oplog/merge.ts: merging fetched blocks, and restoring cached ones.
use record_node.Prelude.{
  Text, Bytes, text_lt, Bool, ◌&&◌, ◌||◌, List, [], ◌∷◌, ◌++◌, ◌==◌, if◌then◌else◌, ltb, sort_by,
}
use record_node.Dict
use record_node.TextSet
use record_node.Entry.{HashedEntry, VerifiedEntry}
use record_node.Result.{Result, ok, err, ErrorCode}
use record_node.Host.{Host}
use record_node.Encoding.Cid.{compute_cid_string}
use record_node.Entry.Signed.{decode_signed_entry}
use record_node.Oplog.{Oplog, insert_entry, refresh_current_state}
use record_node.Oplog.Accept.{verify_entry, restore_entry}
use record_node.Oplog.Refresh.{AccessChange, refresh_access_state}

pub record MergeResult : Type 0 where
  pub merged : List VerifiedEntry
  pub rejected : List (Text × ErrorCode)
  pub access : AccessChange

abbrev pub Decoded : Type 0
Decoded = List HashedEntry × List (Text × ErrorCode)

-- A decoded block joins unless the oplog holds it; a refused one is reported under its CID.
unfoldable pub take_block : Host → Oplog → Bytes → Result HashedEntry → Decoded → Decoded
take_block host oplog bytes (err code) (decoded, rejected) =
    (decoded, (compute_cid_string host bytes, code) ∷ rejected)
take_block host oplog bytes (ok hashed) (decoded, rejected) =
    if Dict.has hashed.hash oplog.entries then (decoded, rejected) else (hashed ∷ decoded, rejected)

unfoldable pub decode_blocks : Host → Oplog → List Bytes → Decoded
unfolding take_block
decode_blocks host oplog [] = ([], [])
decode_blocks host oplog (bytes ∷ blocks) =
    take_block host oplog bytes (decode_signed_entry host bytes) (decode_blocks host oplog blocks)

-- By clock, then by hash.
unfoldable pub block_lt : HashedEntry → HashedEntry → Bool
block_lt a b =
    ltb a.entry.clock.time b.entry.clock.time
    || a.entry.clock.time == b.entry.clock.time && text_lt a.hash b.hash

abbrev pub Admit : Type 0
Admit = Oplog → HashedEntry → Result VerifiedEntry

-- The oplog, the entries merged and the rejections, in order.
pub record Batch : Type 0 where
  pub oplog : Oplog
  pub merged : List VerifiedEntry
  pub rejected : List (Text × ErrorCode)

-- The oplog and the reports after one entry that it does not hold.
unfoldable pub take_admitted : HashedEntry → Result VerifiedEntry → Batch → Batch
take_admitted hashed (err code) batch = record batch {
  rejected = batch.rejected ++ (hashed.hash, code) ∷ [];
}
take_admitted hashed (ok e) batch =
    let (oplog, _) = insert_entry e batch.oplog in
    record batch { oplog = oplog; merged = batch.merged ++ e ∷ [] }

unfoldable pub admit_entry : Admit → HashedEntry → Batch → Batch
admit_entry admit hashed batch =
    if Dict.has hashed.hash batch.oplog.entries
    then batch
    else take_admitted hashed (admit batch.oplog hashed) batch

unfoldable pub admit_all : Admit → List HashedEntry → Batch → Batch
admit_all admit [] batch = batch
admit_all admit (hashed ∷ rest) batch = admit_all admit rest (admit_entry admit hashed batch)

-- The state keys of the entries merged.
unfoldable pub merged_keys : List VerifiedEntry → List Text → List Text
merged_keys [] keys = keys
merged_keys (e ∷ es) keys = merged_keys es (TextSet.add_all e.state_keys keys)

-- Re-resolve what the merged entries, and those that changed their effect, touch.
unfoldable pub settle : Oplog → List VerifiedEntry → Oplog × AccessChange
settle oplog merged =
    let (refreshed, access) = refresh_access_state oplog merged in
    (refresh_current_state (merged_keys merged access.keys) refreshed, access)

unfoldable pub admitted_batch : Host → Admit → Oplog → List Bytes → Batch
admitted_batch host admit oplog blocks =
    let (decoded, rejected) = decode_blocks host oplog blocks in
    admit_all admit (sort_by block_lt decoded)
      (record { oplog = oplog; merged = []; rejected = rejected })

unfoldable pub insert_blocks : Host → Admit → Oplog → List Bytes → Oplog × MergeResult
insert_blocks host admit oplog blocks =
    let batch = admitted_batch host admit oplog blocks in
    let (settled, access) = settle batch.oplog batch.merged in
    (settled, record { merged = batch.merged; rejected = batch.rejected; access = access })

unfoldable pub merge_entries : Host → Oplog → List Bytes → Oplog × MergeResult
merge_entries host oplog blocks = insert_blocks host (verify_entry host) oplog blocks

unfoldable pub restore_entries : Host → Oplog → List Bytes → Oplog × MergeResult
restore_entries host oplog blocks = insert_blocks host (restore_entry host) oplog blocks
