-- ===== src/Replication/Replicator/Checked.antt =====
-- Every entry that a replicator keeps or merges is one that its bytes decode to and that passes the checks
-- of its library.
use record_node.Prelude.{Text, Bytes, text_eq, ◌≡◌, refl, Option, none, some}
use mathlib.Core.Path.{subst}
use record_node.Entry.{EntryPayload, HashedEntry}
use record_node.Result.{Result, ok, err, cid_mismatch, require, >>=-eq-ok}
use record_node.Host.{Host}
use record_node.Encoding.Canonical.{assert_signed_entry_size, decode_canonical}
use record_node.Oplog.{ResolvedAcChain}
use record_node.Oplog.Accept.{check_entry}
use record_node.Entry.Signed.{assert_signed_entry_shape, with_hash, decode_signed_entry}
use record_node.Replication.Traversal.{Traversal}
use record_node.Replication.Orchestrator.{MergeOrchestrator}
use record_node.Replication.Orchestrator.Holds.{Holds, add-Holds}
use record_node.Replication.Replicator.{Replicator, verify_fetched, on_entry, deliver}

module _ (host : Host) where
  pub record IsChecked (chain : ResolvedAcChain) (e : HashedEntry) : Type 0 where
    pub decoded : decode_signed_entry host e.bytes ≡ ok e
    pub operation : EntryPayload
    pub checked : check_entry host chain e ≡ ok operation

  decode_signed_entry-bytes :
      (bytes : Bytes) (e : HashedEntry) → decode_signed_entry host bytes ≡ ok e → e.bytes ≡ bytes
  unfolding decode_signed_entry with_hash
  decode_signed_entry-bytes bytes e h =
      let (_, _, h1) = >>=-eq-ok (assert_signed_entry_size bytes) _ h in
      let (value, _, h2) = >>=-eq-ok (decode_canonical host bytes) _ h1 in
      let (signed, _, h3) = >>=-eq-ok (assert_signed_entry_shape value) _ h2 in
      let same : with_hash host signed bytes ≡ e = cc in
      subst (λ (x : HashedEntry). x.bytes ≡ bytes) same refl

  verify_fetched-IsChecked :
      (chain : ResolvedAcChain) (hash : Text) (bytes : Bytes) (e : HashedEntry)
      → verify_fetched host chain hash bytes ≡ ok e
      → IsChecked chain e
  unfolding verify_fetched
  verify_fetched-IsChecked chain hash bytes e h =
      let (hashed, decoded, h1) = >>=-eq-ok (decode_signed_entry host bytes) _ h in
      let (_, _, h2) = >>=-eq-ok (require (text_eq hashed.hash hash) cid_mismatch) _ h1 in
      let (operation, checked, h3) = >>=-eq-ok (check_entry host chain hashed) _ h2 in
      let same : hashed ≡ e = cc in
      subst (IsChecked chain) same (record {
        decoded = rw (decode_signed_entry-bytes bytes hashed decoded) decoded;
        operation = operation;
        checked = checked;
      })

  pub record IsSoundFor (chain : ResolvedAcChain) (r : Replicator) : Type 0 where
    pub of_chain : r.oplog.chain ≡ chain
    pub held : Holds (IsChecked chain) r.orchestrator

  on_entry-Holds :
      (chain : ResolvedAcChain) (hash : Text) (bytes : Bytes) (result : Result HashedEntry)
      → verify_fetched host chain hash bytes ≡ result
      → (o : MergeOrchestrator) → Holds (IsChecked chain) o
      → Holds (IsChecked chain) (on_entry host result o)
  on_entry-Holds chain hash bytes (err code) verified o h = h
  on_entry-Holds chain hash bytes (ok e) verified o h =
      add-Holds (IsChecked chain) e o (verify_fetched-IsChecked chain hash bytes e verified) h

  pub deliver-Holds :
      (chain : ResolvedAcChain) (hash : Text) (current : Option Traversal) (reply : Option Bytes)
      → (o : MergeOrchestrator) → Holds (IsChecked chain) o
      → Holds (IsChecked chain) (deliver host chain hash current reply o)
  unfolding verify_fetched
  deliver-Holds chain hash none reply o h = h
  deliver-Holds chain hash (some t) none o h = h
  deliver-Holds chain hash (some t) (some bytes) o h =
      on_entry-Holds chain hash bytes (verify_fetched host chain hash bytes) refl o h
