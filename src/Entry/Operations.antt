-- ===== src/Entry/Operations.antt =====
-- entry/operations.ts: the operation check of append verification, per type of library.
use record_node.Prelude.{
  ℕ, Text, lit, text_eq, Bool, true, false, ◌&&◌, ◌||◌, not, Option, none, some, List, [], ◌∷◌,
  ◌==◌, every, is_some, if◌then◌else◌, length,
}
use record_node.Value.{
  Value, Fields, text, uint, map_of, get_field, field_names, as_text, as_uint, as_record, is_uint,
  is_text, includes,
}
use record_node.Entry.{
  LibraryType, recordstore, labels, listens, identity, Envelope, LabelsRecord, AboutRecord,
  AccessRecordType, EntryPayload, put, del, track_put, track_del, labels_put, about_put, access_put,
  opaque,
}
use record_node.Result.{
  Result, ok, err, invalid_shape, invalid_operation, ◌>>=◌, ◌>>◌, require, required,
}
use record_node.Host.{Host}
use record_node.Identity.{is_track_id}
use record_node.Access.Filter.Shapes.{fields_of}
use record_node.Access.Records.{access_record_type, record_key, validate_access_record}
use record_node.Entry.Payloads.{validate_envelope, validate_listen_payload}
use record_node.Entry.Records.{
  validate_labels_record, validate_about_record, build_labels_record, build_about_record,
  labels_value, about_key,
}
use record_node.Entry.Identities.{validate_identity_operation, by_op}

unfoldable pub build_put_operation : Envelope → Option Text → EntryPayload
build_put_operation envelope capability_id = track_put envelope.id envelope capability_id

unfoldable pub build_record_put_operation :
    Text → AccessRecordType → Fields → Option Text → EntryPayload
build_record_put_operation key type value capability_id = access_put key type value capability_id

unfoldable pub build_labels_put : Host → LabelsRecord → Option Text → Result EntryPayload
build_labels_put host r capability_id = do
  value ← build_labels_record host r
  ok (labels_put (record_key host (map_of (labels_value value))) value capability_id)

unfoldable pub build_about_put : Host → AboutRecord → Option Text → Result EntryPayload
build_about_put host r capability_id = do
  value ← build_about_record host r
  ok (about_put (about_key host) value capability_id)

abbrev del_value_fields : List Text
del_value_fields = lit "type" ∷ lit "timestamp" ∷ []

-- Exactly {type: "track", timestamp}; with the timestamp.
unfoldable pub validate_del_value : Option Fields → Result ℕ
validate_del_value v = do
  value ← required v invalid_operation
  require (length (field_names value) == 2 && every (includes (field_names value)) del_value_fields)
      invalid_operation
  require (is_text (lit "track") (get_field (lit "type") value)) invalid_operation
  required (as_uint (get_field (lit "timestamp") value)) invalid_operation

unfoldable pub build_del_operation : Text → ℕ → Result EntryPayload
unfolding validate_del_value
build_del_operation key timestamp = do
  at ← validate_del_value (
      some (
        Fields.field (lit "type") (text (lit "track"))
          (Fields.field (lit "timestamp") (uint timestamp) Fields.end)))
  ok (track_del key at none)

-- The Log and About envelopes that version 1 wrote.
unfoldable pub is_v1_envelope : Fields → Bool
is_v1_envelope value =
    let type = get_field (lit "type") value in
    (is_text (lit "log") type || is_text (lit "about") type)
    && is_some (as_text (get_field (lit "id") value))
    && is_some (as_text (get_field (lit "content") value))
    && is_uint 1 (get_field (lit "v") value)
    && is_some (as_uint (get_field (lit "timestamp") value))

module _ (host : Host) (key : Text) (value : Fields) (capability_id : Option Text) where
  put_track : Result EntryPayload
  put_track = do
    envelope ← validate_envelope value
    require (text_eq key envelope.id) invalid_operation
    ok (track_put key envelope capability_id)

  put_labels : Result EntryPayload
  put_labels = do
    checked ← validate_labels_record host key value
    ok (labels_put key checked capability_id)

  put_about : Result EntryPayload
  put_about = do
    checked ← validate_about_record host key value
    ok (about_put key checked capability_id)

  put_access : AccessRecordType → Result EntryPayload
  put_access type =
      validate_access_record host type key value >> ok (access_put key type value capability_id)

  -- A PUT that a recordstore admits by its type; one of an undefined type merges with no effect.
  recordstore_put : Text → Option AccessRecordType → Result EntryPayload
  unfolding put_track put_labels put_about put_access
  recordstore_put type (some access) = put_access access
  recordstore_put type none =
      if text_eq type (lit "labels")
      then put_labels
      else if text_eq type (lit "about")
      then put_about
      else if text_eq type (lit "track")
      then put_track
      else ok (opaque put key value capability_id)

  -- A labels library admits its two record types and nothing else.
  labels_put_of : Option Text → Result EntryPayload
  unfolding put_labels put_about
  labels_put_of none = err invalid_operation
  labels_put_of (some type) =
      if text_eq type (lit "labels")
      then put_labels
      else if text_eq type (lit "about")
      then put_about
      else err invalid_operation

  recordstore_typed : Option Text → Result EntryPayload
  unfolding recordstore_put
  recordstore_typed none = err invalid_shape
  recordstore_typed (some type) = recordstore_put type (access_record_type type)

  -- `is_labels` is whether the library is a labels library rather than a recordstore.
  unfoldable pub validate_record_put : (is_labels write_list_signer : Bool) → Result EntryPayload
  unfolding recordstore_typed labels_put_of
  validate_record_put true write_list_signer =
      labels_put_of (as_text (get_field (lit "type") value))
  validate_record_put false write_list_signer =
      if write_list_signer && is_v1_envelope value
      then ok (opaque put key value capability_id)
      else recordstore_typed (as_text (get_field (lit "type") value))

-- A version 1 Log DEL.
abbrev is_log_del : Option Fields → Option Fields
is_log_del none = none
is_log_del (some value) =
    if is_text (lit "log") (get_field (lit "type") value) then some value else none

abbrev log_del : Bool → Text → Option Fields → Result EntryPayload → Result EntryPayload
log_del true key (some value) other = ok (opaque del key value none)
log_del write_list_signer key v other = other

unfoldable pub validate_record_del :
    (is_labels write_list_signer : Bool) → Text → Option Fields → Option Text → Result EntryPayload
validate_record_del true write_list_signer key v capability_id = err invalid_operation
validate_record_del false write_list_signer key v capability_id =
    log_del write_list_signer key (is_log_del v) (do
      require (is_track_id key) invalid_operation
      timestamp ← validate_del_value v
      ok (track_del key timestamp capability_id))

unfoldable pub validate_record_operation :
    Host → (is_labels write_list_signer : Bool) → Option Fields → Result EntryPayload
unfolding by_op
validate_record_operation host is_labels write_list_signer payload = do
  fields ← required payload invalid_operation
  key ← required (as_text (get_field (lit "key") fields)) invalid_operation
  require (not (is_labels && is_some (get_field (lit "capability_id") fields))) invalid_operation
  let capability_id = as_text (get_field (lit "capability_id") fields)
  let value = fields_of (get_field (lit "value") fields)
  by_op (get_field (lit "op") fields)
      (do
        put_value ← required value invalid_shape
        validate_record_put host key put_value capability_id is_labels write_list_signer)
      (validate_record_del is_labels write_list_signer key value capability_id)

abbrev carries_capability : Option Fields → Bool
carries_capability none = false
carries_capability (some fields) = is_some (get_field (lit "capability_id") fields)

-- `write_list_signer` admits the entries of version 1; a local write never does.
unfoldable pub validate_operation :
    Host → Value → LibraryType → (write_list_signer : Bool) → Result EntryPayload
validate_operation host payload identity write_list_signer =
    validate_identity_operation host (as_record payload)
validate_operation host payload recordstore write_list_signer =
    validate_record_operation host false write_list_signer (as_record payload)
validate_operation host payload labels write_list_signer =
    validate_record_operation host true write_list_signer (as_record payload)
validate_operation host payload listens write_list_signer = do
  require (not (carries_capability (as_record payload))) invalid_operation
  validate_listen_payload (as_record payload)
