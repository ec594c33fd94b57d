-- ===== src/Entry/Identities.antt =====
-- entry/identity-record.ts: the records of an identity library and their operations.
use record_node.Prelude.{
  ℕ, Text, lit, text_eq, Bool, false, ◌&&◌, not, Option, none, some, List, [], ◌∷◌, ◌++◌, ◌==◌,
  every, is_some, if◌then◌else◌, leb, ltb, length, utf8,
}
use record_node.Value.{
  Value, Fields, get_field, field_names, as_text, as_uint, is_uint, is_text, includes,
}
use record_node.Entry.{
  IdentityRecordType, IdentityRecord, library_record, link_record, pin_record, profile_record,
  ProfileRecord, EntryPayload, put, del, identity_put, identity_del, opaque,
}
use record_node.Result.{
  Result, ok, err, invalid_shape, invalid_operation, invalid_cid, ◌>>=◌, ◌>>◌, require, required,
}
use record_node.Host.{Host}
use record_node.Identity.{sha256_hex}
use record_node.Encoding.LibraryAddress.{is_library_address}
use record_node.Access.Filter.Shapes.{has_extra_fields, fields_of}

abbrev alias_max_bytes : ℕ
alias_max_bytes = 128

abbrev profile_name_max_bytes : ℕ
profile_name_max_bytes = 128

abbrev profile_bio_max_bytes : ℕ
profile_bio_max_bytes = 1024

-- `IDENTITY_RECORD_TYPES.includes(value)`, with the type that it is.
unfoldable pub identity_record_type : Text → Option IdentityRecordType
identity_record_type t =
    if text_eq t (lit "library")
    then some IdentityRecordType.library
    else if text_eq t (lit "link")
    then some IdentityRecordType.link
    else if text_eq t (lit "pin")
    then some IdentityRecordType.pin
    else if text_eq t (lit "profile")
    then some IdentityRecordType.profile
    else none

unfoldable pub canonical_cid : Host → Text → Result Text
canonical_cid host cid = required (host.canonical_cid cid) invalid_cid

-- sha256 of the address, of the cid of a pin, or of "profile".
unfoldable pub identity_record_key : Host → IdentityRecord → Text
identity_record_key host (library_record _ address) = sha256_hex host address
identity_record_key host (link_record _ address _) = sha256_hex host address
identity_record_key host (pin_record _ cid) = sha256_hex host cid
identity_record_key host (profile_record _) = sha256_hex host (lit "profile")

-- A field that is missing, or a string whose UTF-8 length is in the bounds; with what it reads as.
unfoldable pub optional_bounded : ℕ → ℕ → Option Value → Result (Option Text)
optional_bounded least most none = ok none
optional_bounded least most (some v) = do
  t ← required (as_text (some v)) invalid_shape
  require (leb least (length (utf8 t)) && leb (length (utf8 t)) most) invalid_shape
  ok (some t)

same_cid : Host → Text → Option Text → Bool
same_cid host cid none = false
same_cid host cid (some canonical) = text_eq canonical cid

optional_cid : Host → Option Value → Result (Option Text)
unfolding same_cid
optional_cid host none = ok none
optional_cid host (some v) = do
  cid ← required (as_text (some v)) invalid_shape
  require (same_cid host cid (host.canonical_cid cid)) invalid_shape
  ok (some cid)

-- A v 1 profile keeps the fields that are defined and drops the rest.
unfoldable pub validate_profile : Host → Fields → Result ProfileRecord
unfolding optional_cid
validate_profile host value = do
  timestamp ← required (as_uint (get_field (lit "timestamp") value)) invalid_shape
  name ← optional_bounded 1 profile_name_max_bytes (get_field (lit "name") value)
  bio ← optional_bounded 0 profile_bio_max_bytes (get_field (lit "bio") value)
  avatar ← optional_cid host (get_field (lit "avatar") value)
  ok (record { timestamp = timestamp; name = name; bio = bio; avatar = avatar })

abbrev later_version : Option ℕ → Bool
later_version none = false
later_version (some v) = ltb 1 v

unfoldable pub is_later_profile : Fields → Bool
is_later_profile value =
    is_text (lit "profile") (get_field (lit "type") value)
    && later_version (as_uint (get_field (lit "v") value))

abbrev has_fields : Fields → List Text → Bool
has_fields value names = every (includes (field_names value)) names

-- The fields, the version and the timestamp of a record other than a profile.
unfoldable pub check_record : (names optional : List Text) → Fields → Result ℕ
check_record names optional value = do
  require (has_fields value names && not (has_extra_fields value (names ++ optional))) invalid_shape
  require (is_uint 1 (get_field (lit "v") value)) invalid_shape
  required (as_uint (get_field (lit "timestamp") value)) invalid_shape

abbrev record_fields : Text → List Text
record_fields last = lit "type" ∷ lit "v" ∷ lit "timestamp" ∷ last ∷ []

checked_address : Host → Fields → Result Text
checked_address host value = do
  require (is_library_address host (get_field (lit "address") value)) invalid_shape
  required (as_text (get_field (lit "address") value)) invalid_shape

-- The record of a value with this type.
unfoldable pub validate_record : Host → IdentityRecordType → Fields → Result IdentityRecord
unfolding checked_address
validate_record host IdentityRecordType.profile value = do
  require (is_uint 1 (get_field (lit "v") value)) invalid_shape
  profile ← validate_profile host value
  ok (profile_record profile)
validate_record host IdentityRecordType.pin value = do
  timestamp ← check_record (record_fields (lit "cid")) [] value
  cid ← required (as_text (get_field (lit "cid") value)) invalid_shape
  canonical ← canonical_cid host cid
  require (text_eq canonical cid) invalid_shape
  ok (pin_record timestamp cid)
validate_record host IdentityRecordType.library value = do
  timestamp ← check_record (record_fields (lit "address")) [] value
  address ← checked_address host value
  ok (library_record timestamp address)
validate_record host IdentityRecordType.link value = do
  timestamp ← check_record (record_fields (lit "address")) (lit "alias" ∷ []) value
  address ← checked_address host value
  alias ← optional_bounded 0 alias_max_bytes (get_field (lit "alias") value)
  ok (link_record timestamp address alias)

-- A PUT of an undefined record type, or of a later profile, merges with no effect.
unfoldable pub validate_identity_put :
    Host → Text → Fields → Option IdentityRecordType → Result EntryPayload
validate_identity_put host key value none = ok (opaque put key value none)
validate_identity_put host key value (some type) =
    let checked = (do
      checked_record ← validate_record host type value
      require (text_eq key (identity_record_key host checked_record)) invalid_shape
      ok (identity_put key checked_record)) in
    if is_later_profile value then ok (opaque put key value none) else checked

unfoldable pub identity_del_of : Text → Fields → ℕ → Option IdentityRecordType → Result EntryPayload
identity_del_of key value timestamp none = ok (opaque del key value none)
identity_del_of key value timestamp (some IdentityRecordType.profile) = err invalid_shape
identity_del_of key value timestamp (some type) = ok (identity_del key type timestamp)

unfoldable pub validate_identity_del : Text → Fields → Text → Result EntryPayload
unfolding identity_del_of
validate_identity_del key value type = do
  require (length (field_names value) == 2 && includes (field_names value) (lit "timestamp"))
      invalid_shape
  timestamp ← required (as_uint (get_field (lit "timestamp") value)) invalid_shape
  identity_del_of key value timestamp (identity_record_type type)

-- What the operation does, by its `op`.
unfoldable pub by_op :
    Option Value → Result EntryPayload → Result EntryPayload → Result EntryPayload
by_op op on_put on_del =
    if is_text (lit "PUT") op
    then on_put
    else if is_text (lit "DEL") op
    then on_del
    else err invalid_operation

-- The operation check for an identity library; `none` is a payload that is not a map.
unfoldable pub validate_identity_operation : Host → Option Fields → Result EntryPayload
unfolding validate_identity_put validate_identity_del by_op
validate_identity_operation host payload = do
  fields ← required payload invalid_operation
  require (not (is_some (get_field (lit "capability_id") fields))) invalid_operation
  key ← required (as_text (get_field (lit "key") fields)) invalid_operation
  value ← required (fields_of (get_field (lit "value") fields)) invalid_shape
  type ← required (as_text (get_field (lit "type") value)) invalid_shape
  by_op (get_field (lit "op") fields)
      (validate_identity_put host key value (identity_record_type type))
      (validate_identity_del key value type)
