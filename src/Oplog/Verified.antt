-- ===== src/Oplog/Verified.antt =====
-- The histories of an oplog that verify_entry guards: merges and appends, without a restore.
use record_node.Prelude.{Bytes, ◌≡◌, refl, true, Bool-cases, inl, inr, List, [], ◌∷◌, sort_by}
use record_node.Dict
use record_node.Value.{Value}
use record_node.Entry.{EntryPayload, HashedEntry, VerifiedEntry}
use record_node.Result.{Result, ok, err, >>=-eq-ok, require, require-eq-ok, invalid_signature}
use record_node.Host.{Host}
use record_node.Access.Authorise.{authorise_entry}
use record_node.Entry.Signed.{
  build_unsigned_entry, assert_signed_entry_shape, signed_value, verify_entry_signature,
}
use record_node.Entry.Operations.{validate_operation}
use record_node.Encoding.Canonical.{assert_signed_entry_size}
use record_node.TextSet
use record_node.Oplog.{Oplog, ResolvedAcChain, create_oplog, insert_entry}
use record_node.Oplog.Accept.{check_entry, assert_clock, as_verified, verify_entry}
use record_node.Oplog.Causal.{IsClocked}
use record_node.Oplog.Clocks.{assert_clock-IsAfterParents}
use record_node.Oplog.Merge.{
  Batch, take_admitted, admit_entry, admit_all, decode_blocks, block_lt, admitted_batch, settle,
  merged_keys, insert_blocks, merge_entries,
}
use record_node.Oplog.Append.{
  assert_not_duplicate, KeyPair, Appended, sign_local_entry, append_verified,
  append_entry_with_access,
}
use record_node.Oplog.Granted.{authorise_entry-IsGranted}
use record_node.Oplog.Authorised.{
  IsAuthorised, AllGranted, insert_entry-AllGranted, settle-AllGranted,
}
use record_node.Oplog.Consistent.{IsConsistent}
use record_node.Oplog.Reachable.{
  Reachable, created, merged, appended, Reachable-IsConsistent, IsBatch, admit_entry-IsBatch,
  verify_entry-IsAdmitting,
}

check_entry-signed :
    (host : Host) (chain : ResolvedAcChain) (hashed : HashedEntry) (operation : EntryPayload)
    → check_entry host chain hashed ≡ ok operation
    → verify_entry_signature host hashed.entry ≡ true
unfolding check_entry
check_entry-signed host chain hashed operation h =
    let (_, _, h2) = >>=-eq-ok (assert_signed_entry_size hashed.bytes) _ h in
    let (_, _, h3) = >>=-eq-ok (assert_signed_entry_shape (signed_value hashed.entry)) _ h2 in
    let (_, _, h4) =
      >>=-eq-ok
        (validate_operation host hashed.entry.payload chain.type
          (TextSet.has hashed.entry.key chain.write_list))
        _ h3 in
    let (_, signed, _) =
      >>=-eq-ok (require (verify_entry_signature host hashed.entry) invalid_signature) _ h4 in
    require-eq-ok (verify_entry_signature host hashed.entry) invalid_signature signed

verify_entry-IsAuthorised :
    (host : Host) (oplog : Oplog) (hashed : HashedEntry) (e : VerifiedEntry)
    → IsClocked oplog.entries
    → verify_entry host oplog hashed ≡ ok e
    → IsAuthorised host oplog e
unfolding verify_entry as_verified
verify_entry-IsAuthorised host oplog hashed e clocked h =
    let (operation, checked, h2) = >>=-eq-ok (check_entry host oplog.chain hashed) _ h in
    let (_, clock, h3) = >>=-eq-ok (assert_clock oplog hashed) _ h2 in
    let (_, authorised, h4) = >>=-eq-ok (authorise_entry oplog hashed operation) _ h3 in
    let returned : e ≡ as_verified hashed operation = cc in
    rw returned (
      authorise_entry-IsGranted oplog hashed operation clocked
          (assert_clock-IsAfterParents oplog hashed clock) authorised,
      check_entry-signed host oplog.chain hashed operation checked,
    )

take_admitted-AllGranted :
    (host : Host) (hashed : HashedEntry) (r : Result VerifiedEntry) (batch : Batch)
    → ((e : VerifiedEntry) → r ≡ ok e → IsAuthorised host batch.oplog e)
    → AllGranted host batch.oplog
    → AllGranted host (take_admitted hashed r batch).oplog
unfolding take_admitted
take_admitted-AllGranted host hashed (err code) batch granted all = all
take_admitted-AllGranted host hashed (ok e) batch granted all =
    insert_entry-AllGranted host e batch.oplog all (granted e refl)

admit_entry-AllGranted :
    (host : Host) (hashed : HashedEntry) (batch : Batch)
    → IsClocked batch.oplog.entries
    → AllGranted host batch.oplog
    → AllGranted host (admit_entry (verify_entry host) hashed batch).oplog
unfolding admit_entry
admit_entry-AllGranted host hashed batch clocked all =
    elim (Bool-cases (Dict.has hashed.hash batch.oplog.entries)) [
      | inl held ↦ rw held all
      | inr absent ↦ rw absent (
          take_admitted-AllGranted host hashed (verify_entry host batch.oplog hashed) batch
            (λ e. verify_entry-IsAuthorised host batch.oplog hashed e clocked) all)
    ]

admit_all-AllGranted :
    (host : Host) (es : List HashedEntry) (batch : Batch)
    → IsBatch batch
    → AllGranted host batch.oplog
    → AllGranted host (admit_all (verify_entry host) es batch).oplog
unfolding admit_all
admit_all-AllGranted host [] batch c all = all
admit_all-AllGranted host (e ∷ es) batch c all =
    admit_all-AllGranted host es (admit_entry (verify_entry host) e batch)
      (admit_entry-IsBatch (verify_entry host) (verify_entry-IsAdmitting host) e batch c)
      (admit_entry-AllGranted host e batch c.clocked all)

merge_entries-AllGranted :
    (host : Host) (oplog : Oplog) (blocks : List Bytes)
    → IsConsistent oplog
    → AllGranted host oplog
    → AllGranted host (merge_entries host oplog blocks).0
unfolding merge_entries insert_blocks admitted_batch
merge_entries-AllGranted host oplog blocks c all = settle-AllGranted host _ _ (
    admit_all-AllGranted host (sort_by block_lt (decode_blocks host oplog blocks).0)
      (record { oplog = oplog; merged = []; rejected = (decode_blocks host oplog blocks).1 }) c all)

append_verified-AllGranted :
    (host : Host) (oplog : Oplog) (e : VerifiedEntry)
    → AllGranted host oplog
    → IsAuthorised host oplog e
    → AllGranted host (append_verified oplog e).oplog
unfolding append_verified settle merged_keys
append_verified-AllGranted host oplog e all own =
    settle-AllGranted host (insert_entry e oplog).0 (e ∷ [])
      (insert_entry-AllGranted host e oplog all own)

sign_local_entry-IsAuthorised :
    (host : Host) (oplog : Oplog) (payload : Value) (key_pair : KeyPair) (e : VerifiedEntry)
    → IsClocked oplog.entries
    → sign_local_entry host oplog payload key_pair ≡ ok e
    → IsAuthorised host oplog e
unfolding sign_local_entry
sign_local_entry-IsAuthorised host oplog payload key_pair e clocked h =
    let (_, _, h2) = >>=-eq-ok (assert_not_duplicate host oplog payload) _ h in
    let (u, _, h3) = >>=-eq-ok (build_unsigned_entry _) _ h2 in
    verify_entry-IsAuthorised host oplog _ e clocked h3

pub data Verified (host : Host) : Oplog → Type 0 where
  begun : (chain : ResolvedAcChain) → Verified host (create_oplog chain)
  merge_verified :
      (oplog : Oplog) (blocks : List Bytes)
      → Verified host oplog
      → Verified host (merge_entries host oplog blocks).0
  append_signed :
      (oplog : Oplog) (payload : Value) (key_pair : KeyPair) (result : Appended)
      → append_entry_with_access host oplog payload key_pair ≡ ok result
      → Verified host oplog
      → Verified host result.oplog

pub Verified-Reachable : (host : Host) (oplog : Oplog) → Verified host oplog → Reachable host oplog
Verified-Reachable host _ (begun chain) = created chain
Verified-Reachable host _ (merge_verified oplog blocks v) =
    merged oplog blocks (Verified-Reachable host oplog v)
Verified-Reachable host _ (append_signed oplog payload key_pair result h v) =
    appended oplog payload key_pair result h (Verified-Reachable host oplog v)

-- In an oplog that merges and appends alone made, the signature of every stored entry verifies under its
-- key over what the entry says; and that key is in the write list, or the entry is a PUT in a recordstore
-- under a stored capability record that names its key and was issued before it.
pub Verified-AllGranted :
    (host : Host) (oplog : Oplog) → Verified host oplog → AllGranted host oplog
unfolding append_entry_with_access
Verified-AllGranted host _ (begun chain) =
    unfold AllGranted create_oplog Dict.get in λ h e g. absurd (cc)
Verified-AllGranted host _ (merge_verified oplog blocks v) =
    merge_entries-AllGranted host oplog blocks
      (Reachable-IsConsistent host oplog (Verified-Reachable host oplog v))
      (Verified-AllGranted host oplog v)
Verified-AllGranted host _ (append_signed oplog payload key_pair result h v) =
    let (e, signed, same) = >>=-eq-ok (sign_local_entry host oplog payload key_pair) _ h in
    let c = Reachable-IsConsistent host oplog (Verified-Reachable host oplog v) in
    let own = sign_local_entry-IsAuthorised host oplog payload key_pair e c.clocked signed in
    let returned : result ≡ append_verified oplog e = cc in
    rw returned (append_verified-AllGranted host oplog e (Verified-AllGranted host oplog v) own)
