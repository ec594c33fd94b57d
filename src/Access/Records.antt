-- ===== src/Access/Records.antt =====
-- access-control/capability-record.ts: the shapes of capability and revocation records, and whom and
-- when a capability serves.
use record_node.Prelude.{
  ℕ, Text, lit, text_eq, Bool, true, false, ◌&&◌, not, Option, none, some, List, [], ◌∷◌, map, any,
  every, is_some, if◌then◌else◌,
}
use record_node.Value.{
  Value, Fields, Items, null, map_of, text, array, uint, get_field, as_text, as_array, as_uint,
  is_uint, is_text, includes,
}
use record_node.Entry.{AccessRecordType, capability, revocation}
use record_node.Result.{Result, invalid_shape, ◌>>◌, require}
use record_node.Host.{Host}
use record_node.Identity.{is_compressed_pubkey, hex}
use record_node.Access.Filter.Shapes.{
  Shape, sound, unknown, malformed, worst_shape, filter_shape, has_extra_fields, fields_of, sized,
  max_spec_depth,
}

abbrev pub actions : List Text
actions =
    lit "library.append_track"
    ∷ lit "library.write_label"
    ∷ lit "library.update_about"
    ∷ lit "library.grant_capability"
    ∷ []

abbrev pub capability_fields : List Text
capability_fields =
    lit "type"
    ∷ lit "v"
    ∷ lit "timestamp"
    ∷ lit "grantee"
    ∷ lit "actions"
    ∷ lit "filter"
    ∷ lit "conditions"
    ∷ []

abbrev pub revocation_fields : List Text
revocation_fields = lit "type" ∷ lit "v" ∷ lit "timestamp" ∷ lit "revokes" ∷ []

-- `ACCESS_RECORD_TYPES.includes(value)`, with the type that it is.
unfoldable pub access_record_type : Text → Option AccessRecordType
access_record_type t =
    if text_eq t (lit "capability")
    then some capability
    else if text_eq t (lit "revocation")
    then some revocation
    else none

-- The operation key of a record: lowercase-hex sha256 of its dag-cbor value.
unfoldable pub record_key : Host → Value → Text
record_key host value = hex (host.sha256 (host.encode value))

abbrev unknown_if : Bool → Shape
unknown_if extra = if extra then unknown else sound

abbrev pubkeys : Option (List Value) → Bool
pubkeys none = false
pubkeys (some keys) = sized 1 256 keys && every (λ k. is_compressed_pubkey (some k)) keys

grantee_of_type : Fields → Option Text → Shape
grantee_of_type grantee none = malformed
grantee_of_type grantee (some type) =
    if text_eq type (lit "key")
    then if is_compressed_pubkey (get_field (lit "key") grantee)
      then unknown_if (has_extra_fields grantee (lit "type" ∷ lit "key" ∷ []))
      else malformed
    else if text_eq type (lit "key_set")
    then if pubkeys (as_array (get_field (lit "keys") grantee))
      then unknown_if (has_extra_fields grantee (lit "type" ∷ lit "keys" ∷ []))
      else malformed
    else unknown

unfoldable pub grantee_shape : Option Fields → Shape
unfolding grantee_of_type
grantee_shape none = malformed
grantee_shape (some grantee) = grantee_of_type grantee (as_text (get_field (lit "type") grantee))

condition_of_type : Fields → Option Text → Shape
condition_of_type condition none = malformed
condition_of_type condition (some type) =
    if text_eq type (lit "expires_at")
    then if is_some (as_uint (get_field (lit "at") condition))
      then unknown_if (has_extra_fields condition (lit "type" ∷ lit "at" ∷ []))
      else malformed
    else unknown

condition_fields : Option Fields → Shape
unfolding condition_of_type
condition_fields none = malformed
condition_fields (some condition) =
    condition_of_type condition (as_text (get_field (lit "type") condition))

unfoldable pub condition_shape : Value → Shape
unfolding condition_fields
condition_shape v = condition_fields (fields_of (some v))

-- `record.conditions ?? []`, when it is an array.
abbrev pub conditions_of : Option Value → Option (List Value)
conditions_of none = some []
conditions_of (some null) = some []
conditions_of (some v) = as_array (some v)

abbrev texts : Option (List Value) → Bool
texts none = false
texts (some vs) = sized 1 16 vs && every (λ v. is_some (as_text (some v))) vs

abbrev optional_filter : Option Value → Shape
optional_filter none = sound
optional_filter (some filter) = filter_shape max_spec_depth (some filter)

conditioned_shape : Fields → Option (List Value) → Shape
conditioned_shape value none = malformed
conditioned_shape value (some conditions) =
    let well_formed =
      is_uint 1 (get_field (lit "v") value)
      && is_some (as_uint (get_field (lit "timestamp") value))
      && texts (as_array (get_field (lit "actions") value))
      && sized 0 16 conditions in
    if well_formed
    then worst_shape (
        unknown_if (has_extra_fields value capability_fields)
        ∷ grantee_shape (fields_of (get_field (lit "grantee") value))
        ∷ optional_filter (get_field (lit "filter") value)
        ∷ map condition_shape conditions)
    else malformed

unfoldable pub capability_shape : Fields → Shape
unfolding conditioned_shape
capability_shape value =
    conditioned_shape value (conditions_of (get_field (lit "conditions") value))

unfoldable pub revocation_well_formed : Fields → Bool
revocation_well_formed value =
    is_uint 1 (get_field (lit "v") value)
    && is_some (as_uint (get_field (lit "timestamp") value))
    && is_some (as_text (get_field (lit "revokes") value))
    && not (has_extra_fields value revocation_fields)

abbrev not_malformed : Shape → Bool
not_malformed malformed = false
not_malformed _ = true

unfoldable pub access_well_formed : AccessRecordType → Fields → Bool
unfolding capability_shape revocation_well_formed
access_well_formed capability value = not_malformed (capability_shape value)
access_well_formed revocation value = revocation_well_formed value

-- Rejects a record that breaks its shape or whose operation key is not derived from it.
unfoldable pub validate_access_record : Host → AccessRecordType → Text → Fields → Result (Unit {0})
unfolding access_well_formed
validate_access_record host type key value = do
  require (text_eq key (record_key host (map_of value))) invalid_shape
  require (access_well_formed type value) invalid_shape

-- `key` is the grantee's one key, or among its keys.
abbrev names_key : Text → Option (List Value) → Bool
names_key key none = false
names_key key (some vs) = any (λ v. is_text key (some v)) vs

grants_to : Text → Shape → Fields → Bool
grants_to key sound grantee =
    if is_text (lit "key") (get_field (lit "type") grantee)
    then is_text key (get_field (lit "key") grantee)
    else names_key key (as_array (get_field (lit "keys") grantee))
grants_to key _ grantee = false

unfoldable pub grantee_matches : Option Fields → Text → Bool
unfolding grants_to
grantee_matches none key = false
grantee_matches (some grantee) key = grants_to key (grantee_shape (some grantee)) grantee

-- A capability carrying a field this version does not define authorises nothing.
unfoldable pub capability_fails_closed : Fields → Bool
capability_fails_closed value = has_extra_fields value capability_fields

abbrev is_action : Value → Bool
is_action (text t) = includes actions t
is_action _ = false

abbrev sound_shape : Shape → Bool
sound_shape sound = true
sound_shape _ = false

abbrev known_actions : Option (List Value) → Bool
known_actions none = false
known_actions (some vs) = every is_action vs

-- A capability a node issues must be one it can verify writes under.
unfoldable pub assert_issuable_capability : Fields → Result (Unit {0})
assert_issuable_capability value = do
  require (sound_shape (capability_shape value)) invalid_shape
  require (known_actions (as_array (get_field (lit "actions") value))) invalid_shape

unfoldable pub array_of : List Value → Items
array_of [] = Items.nil
array_of (v ∷ vs) = Items.item v (array_of vs)

abbrev field_if : Text → Option Value → Fields → Fields
field_if name none rest = rest
field_if name (some v) rest = Fields.field name v rest

-- `conditions === undefined || conditions.length === 0` leaves the field out.
abbrev some_if_any : List Value → Option Value
some_if_any [] = none
some_if_any (v ∷ vs) = some (array (array_of (v ∷ vs)))

unfoldable pub build_capability_record :
    (timestamp : ℕ) (grantee : Value) (granted : List Text) (filter : Option Value)
    (conditions : List Value)
    → Fields
build_capability_record timestamp grantee granted filter conditions =
    Fields.field (lit "type") (text (lit "capability")) (
      Fields.field (lit "v") (uint 1) (
        Fields.field (lit "timestamp") (uint timestamp) (
          Fields.field (lit "grantee") grantee (
            Fields.field (lit "actions") (array (array_of (map text granted))) (
              field_if (lit "filter") filter
                (field_if (lit "conditions") (some_if_any conditions) Fields.end))))))

unfoldable pub build_revocation_record : (timestamp : ℕ) → (revokes : Text) → Fields
build_revocation_record timestamp revokes = Fields.field (lit "type") (text (lit "revocation")) (
    Fields.field (lit "v") (uint 1) (
      Fields.field (lit "timestamp") (uint timestamp)
        (Fields.field (lit "revokes") (text revokes) Fields.end)))
