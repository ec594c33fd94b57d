-- ===== src/Oplog/Reachable.antt =====
-- The histories of an oplog: what create_oplog, merge_entries, restore_entries and
-- append_entry_with_access can make of it; and that each keeps it consistent.
use record_node.Prelude.{
  Bytes, ◌≡◌, refl, Bool-cases, inl, inr, List, [], ◌∷◌, arith, any-append, sort_by,
}
use record_node.Dict
use record_node.TextSet
use record_node.TextSet.{has-nil, has-add_all}
use record_node.Value.{Value}
use record_node.Entry.{HashedEntry, VerifiedEntry, EntryPayload}
use record_node.Result.{Result, ok, err, >>=-eq-ok}
use record_node.Host.{Host}
use record_node.Entry.Operations.{validate_operation}
use record_node.Access.Authorise.{authorise_entry}
use record_node.Oplog.{Oplog, ResolvedAcChain, create_oplog, insert_entry}
use record_node.Oplog.Accept.{check_entry, assert_clock, as_verified, verify_entry, restore_entry}
use record_node.Oplog.Clocks.{IsAfterParents, assert_clock-IsAfterParents}
use record_node.Oplog.Merge.{
  Admit, Batch, take_admitted, admit_entry, admit_all, decode_blocks, block_lt, admitted_batch,
  settle, merged_keys, insert_blocks, merge_entries, restore_entries,
}
use record_node.Entry.Signed.{build_unsigned_entry}
use record_node.Oplog.Append.{
  assert_not_duplicate, KeyPair, Appended, sign_local_entry, append_verified,
  append_entry_with_access,
}
use record_node.Oplog.Consistent.{IsConsistentBut, IsConsistent, none_open}
use record_node.Oplog.Settle.{
  carried, create_oplog-IsConsistent, insert_entry-IsConsistentBut, settle-IsConsistent,
}

-- An entry that passed is the one that was given, and its parents are stored with smaller clocks.
abbrev pub IsAdmitted : Oplog → HashedEntry → VerifiedEntry → Type 0
IsAdmitted oplog hashed e = (e.hashed ≡ hashed) × IsAfterParents oplog.entries hashed

abbrev pub IsAdmitting : Admit → Type 0
IsAdmitting admit =
    (oplog : Oplog) (hashed : HashedEntry) (e : VerifiedEntry)
    → admit oplog hashed ≡ ok e
    → IsAdmitted oplog hashed e

pub verify_entry-IsAdmitting : (host : Host) → IsAdmitting (verify_entry host)
unfolding verify_entry as_verified
verify_entry-IsAdmitting host oplog hashed e h =
    let (operation, _, h2) = >>=-eq-ok (check_entry host oplog.chain hashed) _ h in
    let (_, clock, h3) = >>=-eq-ok (assert_clock oplog hashed) _ h2 in
    let (_, _, h4) = >>=-eq-ok (authorise_entry oplog hashed operation) _ h3 in
    (ground arith, assert_clock-IsAfterParents oplog hashed clock)

abbrev checked_operation : Host → Oplog → HashedEntry → Result EntryPayload
checked_operation host oplog hashed =
    validate_operation host hashed.entry.payload oplog.chain.type
      (TextSet.has hashed.entry.key oplog.chain.write_list)

restore_entry-IsAdmitting : (host : Host) → IsAdmitting (restore_entry host)
unfolding restore_entry as_verified
restore_entry-IsAdmitting host oplog hashed e h =
    let (operation, _, h2) = >>=-eq-ok (checked_operation host oplog hashed) _ h in
    let (_, clock, h3) = >>=-eq-ok (assert_clock oplog hashed) _ h2 in
    (ground arith, assert_clock-IsAfterParents oplog hashed clock)

-- Between two entries of a batch only the keys of the merged ones are open.
abbrev pub IsBatch : Batch → Type 0
IsBatch batch = IsConsistentBut (carried batch.merged) batch.oplog

take_admitted-IsBatch :
    (hashed : HashedEntry) (r : Result VerifiedEntry) (batch : Batch)
    → ((e : VerifiedEntry) → r ≡ ok e → IsAdmitted batch.oplog hashed e)
    → IsBatch batch
    → IsBatch (take_admitted hashed r batch)
unfolding take_admitted
take_admitted-IsBatch hashed (err code) batch admitted c = c
take_admitted-IsBatch hashed (ok e) batch admitted c =
    let (same, after) = admitted e refl in
    let grown =
      insert_entry-IsConsistentBut (carried batch.merged) e batch.oplog c (rw same after) in
    record {
      indexed = grown.indexed;
      clocked = grown.clocked;
      settled = λ key s.
          grown.settled key
            (ground (arith, any-append (λ x. TextSet.has key x.state_keys) batch.merged (e ∷ [])));
    }

pub admit_entry-IsBatch :
    (admit : Admit)
    → IsAdmitting admit
    → (hashed : HashedEntry) (batch : Batch) → IsBatch batch
    → IsBatch (admit_entry admit hashed batch)
unfolding admit_entry
admit_entry-IsBatch admit admitting hashed batch c =
    elim (Bool-cases (Dict.has hashed.hash batch.oplog.entries)) [
      | inl held ↦ rw held c
      | inr absent ↦ rw absent (
          take_admitted-IsBatch hashed (admit batch.oplog hashed) batch
            (admitting batch.oplog hashed) c)
    ]

admit_all-IsBatch :
    (admit : Admit)
    → IsAdmitting admit
    → (es : List HashedEntry) (batch : Batch) → IsBatch batch
    → IsBatch (admit_all admit es batch)
unfolding admit_all
admit_all-IsBatch admit admitting [] batch c = c
admit_all-IsBatch admit admitting (e ∷ es) batch c =
    admit_all-IsBatch admit admitting es (admit_entry admit e batch)
      (admit_entry-IsBatch admit admitting e batch c)

insert_blocks-IsConsistent :
    (host : Host) (admit : Admit)
    → IsAdmitting admit
    → (oplog : Oplog) (blocks : List Bytes) → IsConsistent oplog
    → IsConsistent (insert_blocks host admit oplog blocks).0
unfolding insert_blocks admitted_batch
insert_blocks-IsConsistent host admit admitting oplog blocks c =
    let (decoded, rejected) = decode_blocks host oplog blocks in
    settle-IsConsistent _ _ (
      admit_all-IsBatch admit admitting (sort_by block_lt (decode_blocks host oplog blocks).0)
        (record { oplog = oplog; merged = []; rejected = (decode_blocks host oplog blocks).1 }) c)

append_verified-IsConsistent :
    (oplog : Oplog) (hashed : HashedEntry) (e : VerifiedEntry)
    → IsAdmitted oplog hashed e
    → IsConsistent oplog
    → IsConsistent (append_verified oplog e).oplog
unfolding append_verified settle merged_keys
append_verified-IsConsistent oplog hashed e (same, after) c =
    let grown = insert_entry-IsConsistentBut none_open e oplog c (rw same after) in
    settle-IsConsistent (insert_entry e oplog).0 (e ∷ []) (record {
      indexed = grown.indexed;
      clocked = grown.clocked;
      settled = λ key s. grown.settled key (ground arith);
    })

sign_local_entry-IsAdmitted :
    (host : Host) (oplog : Oplog) (payload : Value) (key_pair : KeyPair) (e : VerifiedEntry)
    → sign_local_entry host oplog payload key_pair ≡ ok e
    → (hashed : HashedEntry) × IsAdmitted oplog hashed e
unfolding sign_local_entry
sign_local_entry-IsAdmitted host oplog payload key_pair e h =
    let (_, _, h2) = >>=-eq-ok (assert_not_duplicate host oplog payload) _ h in
    let (u, _, h3) = >>=-eq-ok (build_unsigned_entry _) _ h2 in
    (_, verify_entry-IsAdmitting host oplog _ e h3)

-- What the operations of the source can make of a new oplog.
pub data Reachable (host : Host) : Oplog → Type 0 where
  created : (chain : ResolvedAcChain) → Reachable host (create_oplog chain)
  merged :
      (oplog : Oplog) (blocks : List Bytes)
      → Reachable host oplog
      → Reachable host (merge_entries host oplog blocks).0
  restored :
      (oplog : Oplog) (blocks : List Bytes)
      → Reachable host oplog
      → Reachable host (restore_entries host oplog blocks).0
  appended :
      (oplog : Oplog) (payload : Value) (key_pair : KeyPair) (result : Appended)
      → append_entry_with_access host oplog payload key_pair ≡ ok result
      → Reachable host oplog
      → Reachable host result.oplog

-- Any sequence of merges, restores and successful appends, from an empty oplog, leaves it consistent:
-- every index agrees with the entries, every parent of an entry is stored with a smaller clock, and the
-- current entry of every key, one that a revocation touched included, is the resolution of its live
-- entries.
pub Reachable-IsConsistent :
    (host : Host) (oplog : Oplog) → Reachable host oplog → IsConsistent oplog
unfolding merge_entries restore_entries append_entry_with_access
Reachable-IsConsistent host _ (created chain) = create_oplog-IsConsistent chain
Reachable-IsConsistent host _ (merged oplog blocks r) =
    insert_blocks-IsConsistent host (verify_entry host) (verify_entry-IsAdmitting host) oplog blocks
      (Reachable-IsConsistent host oplog r)
Reachable-IsConsistent host _ (restored oplog blocks r) =
    insert_blocks-IsConsistent host (restore_entry host) (restore_entry-IsAdmitting host) oplog
      blocks (Reachable-IsConsistent host oplog r)
Reachable-IsConsistent host _ (appended oplog payload key_pair result h r) =
    let (e, signed, same) = >>=-eq-ok (sign_local_entry host oplog payload key_pair) _ h in
    let (hashed, admitted) = sign_local_entry-IsAdmitted host oplog payload key_pair e signed in
    let c =
      append_verified-IsConsistent oplog hashed e admitted (Reachable-IsConsistent host oplog r) in
    let returned : result ≡ append_verified oplog e = cc in rw returned c
