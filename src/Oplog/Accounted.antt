-- ===== src/Oplog/Accounted.antt =====
-- oplog/merge.ts: a batch loses no block.
use record_node.Prelude.{Text, Bytes, Bool-cases, inl, inr, List, [], ◌∷◌, In, In-sort_by}
use record_node.Dict
use record_node.Entry.{HashedEntry, VerifiedEntry}
use record_node.Result.{Result, ok, err, ErrorCode}
use record_node.Host.{Host}
use record_node.Encoding.Cid.{compute_cid_string}
use record_node.Entry.Signed.{decode_signed_entry}
use record_node.Oplog.{Oplog}
use record_node.Oplog.Accept.{verify_entry}
use record_node.Oplog.Merge.{
  Admit, Batch, decode_blocks, take_admitted, admit_entry, admit_all, block_lt, admitted_batch,
  settle, insert_blocks, merge_entries,
}
use record_node.Oplog.Reachable.{IsAdmitting, verify_entry-IsAdmitting}
use record_node.Oplog.Accounts.{
  IsAccounted, In-append-left, admit_all-accounts, admit_all-keeps, settle-entries, IsTaken,
  decode_blocks-takes,
}

module _ (admit : Admit) where
  take_admitted-rejected :
      (hashed : HashedEntry) (r : Result VerifiedEntry) (batch : Batch) (x : Text × ErrorCode)
      → In x batch.rejected
      → In x (take_admitted hashed r batch).rejected
  unfolding take_admitted
  take_admitted-rejected hashed (err code) batch x m = In-append-left x batch.rejected _ m
  take_admitted-rejected hashed (ok e) batch x m = m

  admit_entry-rejected :
      (hashed : HashedEntry) (batch : Batch) (x : Text × ErrorCode)
      → In x batch.rejected
      → In x (admit_entry admit hashed batch).rejected
  unfolding admit_entry
  admit_entry-rejected hashed batch x m =
      elim (Bool-cases (Dict.has hashed.hash batch.oplog.entries)) [
        | inl held ↦ rw held m
        | inr absent ↦
            rw absent (take_admitted-rejected hashed (admit batch.oplog hashed) batch x m)
      ]

  admit_all-rejected :
      (es : List HashedEntry) (batch : Batch) (x : Text × ErrorCode)
      → In x batch.rejected
      → In x (admit_all admit es batch).rejected
  unfolding admit_all
  admit_all-rejected [] batch x m = m
  admit_all-rejected (e ∷ es) batch x m =
      admit_all-rejected es (admit_entry admit e batch) x (admit_entry-rejected e batch x m)

-- A block that does not decode is reported under its CID; the entry of one that does is stored, or its
-- hash is reported.
pub IsSettledBlock : Host → Bytes → Result HashedEntry → Oplog → List (Text × ErrorCode) → Type 0
IsSettledBlock host bytes (err code) oplog rejected =
    In (compute_cid_string host bytes, code) rejected
IsSettledBlock host bytes (ok hashed) oplog rejected = IsAccounted hashed.hash oplog rejected

IsTaken-settled :
    (host : Host) (admit : Admit)
    → IsAdmitting admit
    → (oplog : Oplog) (blocks : List Bytes) (bytes : Bytes) (r : Result HashedEntry)
    → IsTaken host oplog bytes r (decode_blocks host oplog blocks)
    → IsSettledBlock host bytes r
        (admitted_batch host admit oplog blocks).oplog
        (admitted_batch host admit oplog blocks).rejected
unfolding admitted_batch IsSettledBlock
IsTaken-settled host admit admitting oplog blocks bytes (err code) t =
    admit_all-rejected admit _ _ _ t
IsTaken-settled host admit admitting oplog blocks bytes (ok hashed) (inl m) =
    admit_all-accounts admit admitting _ _ hashed
      ((In-sort_by block_lt hashed (decode_blocks host oplog blocks).0).1 m)
IsTaken-settled host admit admitting oplog blocks bytes (ok hashed) (inr held) =
    admit_all-keeps admit admitting _ _ hashed.hash (inl held)

IsSettledBlock-settle :
    (host : Host) (bytes : Bytes) (r : Result HashedEntry) (batch : Batch)
    → IsSettledBlock host bytes r batch.oplog batch.rejected
    → IsSettledBlock host bytes r (settle batch.oplog batch.merged).0 batch.rejected
unfolding IsSettledBlock
IsSettledBlock-settle host bytes (err code) batch s = s
IsSettledBlock-settle host bytes (ok hashed) batch (inl held) =
    inl (rw (settle-entries batch.oplog batch.merged) held)
IsSettledBlock-settle host bytes (ok hashed) batch (inr r) = inr r

-- After a merge each block of the batch is accounted for: one that does not decode is reported under its
-- CID with its error, and the entry of one that does is stored, or its hash is reported with an error.
pub merge_entries-IsSettledBlock :
    (host : Host) (oplog : Oplog) (blocks : List Bytes) (bytes : Bytes)
    → In bytes blocks
    → IsSettledBlock host bytes
        (decode_signed_entry host bytes)
        (merge_entries host oplog blocks).0
        (merge_entries host oplog blocks).1.rejected
unfolding merge_entries insert_blocks
merge_entries-IsSettledBlock host oplog blocks bytes m =
    IsSettledBlock-settle host bytes (decode_signed_entry host bytes)
      (admitted_batch host (verify_entry host) oplog blocks)
      (IsTaken-settled host (verify_entry host) (verify_entry-IsAdmitting host) oplog blocks bytes
        (decode_signed_entry host bytes) (decode_blocks-takes host oplog blocks bytes m))
