-- ===== src/Oplog/Accept.antt =====
-- oplog/accept.ts: append verification of one entry, and the restoring of an entry verified before.
use record_node.Prelude.{
  ℕ, suc, max, Text, lit, Bool, true, false, ◌||◌, Option, none, some, List, [], ◌∷◌, ◌++◌, ◌==◌,
  map,
}
use record_node.Dict
use record_node.TextSet
use record_node.Entry.{
  LibraryType, recordstore, IdentityRecordType, IdentityRecord, library_record, link_record,
  pin_record, profile_record, EntryPayload, track_put, track_del, labels_put, about_put,
  identity_put, identity_del, HashedEntry, VerifiedEntry, time_of,
}
use record_node.Result.{
  Result, ok, invalid_signature, unauthorised_writer, invalid_clock, ◌>>=◌, ◌>>◌, require, required,
}
use record_node.Host.{Host}
use record_node.Encoding.Canonical.{assert_signed_entry_size}
use record_node.Entry.Signed.{assert_signed_entry_shape, signed_value, verify_entry_signature}
use record_node.Entry.Operations.{validate_operation}
use record_node.Entry.Records.{label_state_key}
use record_node.Oplog.{Oplog, ResolvedAcChain}
use record_node.Access.Authorise.{authorise_entry}

abbrev is_recordstore : LibraryType → Bool
is_recordstore recordstore = true
is_recordstore _ = false

-- The library's type decides the operation; in all but a recordstore only the write list may sign.
unfoldable pub check_entry : Host → ResolvedAcChain → HashedEntry → Result EntryPayload
check_entry host chain hashed = do
  size ← assert_signed_entry_size hashed.bytes
  shape ← assert_signed_entry_shape (signed_value hashed.entry)
  let write_list_signer = TextSet.has hashed.entry.key chain.write_list
  operation ← validate_operation host hashed.entry.payload chain.type write_list_signer
  require (verify_entry_signature host hashed.entry) invalid_signature
  require (is_recordstore chain.type || write_list_signer) unauthorised_writer
  ok operation

unfoldable pub record_type : IdentityRecord → IdentityRecordType
record_type (library_record _ _) = IdentityRecordType.library
record_type (link_record _ _ _) = IdentityRecordType.link
record_type (pin_record _ _) = IdentityRecordType.pin
record_type (profile_record _) = IdentityRecordType.profile

unfoldable pub type_name : IdentityRecordType → Text
type_name IdentityRecordType.library = lit "library"
type_name IdentityRecordType.link = lit "link"
type_name IdentityRecordType.pin = lit "pin"
type_name IdentityRecordType.profile = lit "profile"

abbrev typed_key : IdentityRecordType → Text → Text
typed_key type key = type_name type ++ (b':' ∷ key)

-- Identity records resolve per (type, key), label records per pair, the rest per key.
unfoldable pub state_keys_of : EntryPayload → List Text
unfolding record_type type_name
state_keys_of (identity_put key r) = typed_key (record_type r) key ∷ []
state_keys_of (identity_del key type _) = typed_key type key ∷ []
state_keys_of (labels_put _ value _) = map label_state_key (value.set ++ value.unset)
state_keys_of (track_put key _ _) = key ∷ []
state_keys_of (track_del key _ _) = key ∷ []
state_keys_of (about_put key _ _) = key ∷ []
state_keys_of _ = []

-- The greatest clock of the parents; `none` when the oplog does not hold one of them.
unfoldable pub greatest_clock : Dict.Dict VerifiedEntry → ℕ → List Text → Option ℕ
greatest_clock entries most [] = some most
greatest_clock entries most (h ∷ next) = elim (Dict.get h entries) [
  | none ↦ none
  | some parent ↦ greatest_clock entries (max most (time_of parent)) next
]

abbrev pub one_more : Option ℕ → Option ℕ
one_more none = none
one_more (some n) = some (suc n)

-- One more than the greatest clock of the parents, or 1 with none.
unfoldable pub expected_clock_time : Oplog → List Text → Option ℕ
expected_clock_time oplog next = one_more (greatest_clock oplog.entries 0 next)

unfoldable pub assert_clock : Oplog → HashedEntry → Result (Unit {0})
assert_clock oplog hashed = do
  expected ← required (expected_clock_time oplog hashed.entry.next) invalid_clock
  require (hashed.entry.clock.time == expected) invalid_clock

unfoldable pub as_verified : HashedEntry → EntryPayload → VerifiedEntry
as_verified hashed operation = record {
  hashed = hashed;
  operation = operation;
  state_keys = state_keys_of operation;
}

unfoldable pub verify_entry : Host → Oplog → HashedEntry → Result VerifiedEntry
verify_entry host oplog hashed = do
  operation ← check_entry host oplog.chain hashed
  clock ← assert_clock oplog hashed
  authorised ← authorise_entry oplog hashed operation
  ok (as_verified hashed operation)

-- The signature and the authorisation are not checked again; the clock is.
unfoldable pub restore_entry : Host → Oplog → HashedEntry → Result VerifiedEntry
restore_entry host oplog hashed = do
  let write_list_signer = TextSet.has hashed.entry.key oplog.chain.write_list
  operation ← validate_operation host hashed.entry.payload oplog.chain.type write_list_signer
  clock ← assert_clock oplog hashed
  ok (as_verified hashed operation)
