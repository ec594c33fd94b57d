-- ===== src/Entry/Records.antt =====
-- entry/records.ts, and `assert_label` of encoding/size-bounds.ts: label records and the About record.
use record_node.Prelude.{
  ℕ, ◌+◌, Text, lit, text_eq, Bool, ◌&&◌, ◌||◌, not, Option, some, List, [], ◌∷◌, ◌++◌, map, any,
  leb, ltb, ◌==◌, length, take, drop, utf8,
}
use record_node.TextSet
use record_node.Value.{
  Value, Fields, map_of, text, array, uint, get_field, as_text, as_array, as_uint, is_uint, is_text,
}
use record_node.Entry.{LabelPair, LabelsRecord, AboutRecord}
use record_node.Result.{
  Result, ok, err, invalid_shape, size_exceeded, ◌>>=◌, ◌>>◌, require, required,
}
use record_node.Host.{Host}
use record_node.Identity.{is_track_id, sha256_hex}
use record_node.Access.Filter.Shapes.{has_extra_fields}
use record_node.Access.Records.{record_key, array_of}

abbrev pub label_max_bytes : ℕ
label_max_bytes = 128

abbrev pub about_name_max_bytes : ℕ
about_name_max_bytes = 128

-- `\p{Cc}`: the control characters below 32 and from 127 to 159.
abbrev is_control : ℕ → Bool
is_control u = ltb u 32 || leb 127 u && leb u 159

-- A label is a non-empty string in NFC of at most 128 UTF-8 bytes with no control character.
unfoldable pub assert_label : Host → Option Value → Result Text
assert_label host v = do
  label ← required (as_text v) invalid_shape
  require (leb 1 (length label)) invalid_shape
  require (text_eq (host.normalize label) label) invalid_shape
  require (not (any is_control label)) invalid_shape
  require (leb (length (utf8 label)) label_max_bytes) size_exceeded
  ok label

abbrev pub label_key_prefix : Text
label_key_prefix = lit "label:"

-- The slot one pair resolves under: `label:<track id>:<label>`.
unfoldable pub label_state_key : LabelPair → Text
label_state_key (track_id, label) = label_key_prefix ++ (track_id ++ (b':' ∷ label))

unfoldable pub is_label_key : Text → Bool
is_label_key key = text_eq (take 6 key) label_key_prefix

-- The pair a label state key names; a track id is 64 long.
unfoldable pub label_pair_of : Text → LabelPair
label_pair_of key = (take 64 (drop 6 key), drop 71 key)

-- Whether a label record sets the pair under the key, rather than unsetting it.
unfoldable pub applies_label : LabelsRecord → Text → Bool
applies_label value key = TextSet.has key (map label_state_key value.set)

pair_of_two : Host → List Value → Result LabelPair
pair_of_two host (t ∷ l ∷ []) = do
  track_id ← required (as_text (some t)) invalid_shape
  require (is_track_id track_id) invalid_shape
  label ← assert_label host (some l)
  ok (track_id, label)
pair_of_two host _ = err invalid_shape

unfoldable pub validate_pair : Host → Value → Result LabelPair
unfolding pair_of_two
validate_pair host v = do pair ← required (as_array (some v)) invalid_shape; pair_of_two host pair

-- `pairs.map(validate_pair)`, which throws at the first bad pair.
unfoldable pub validate_each : Host → List Value → Result (List LabelPair)
validate_each host [] = ok []
validate_each host (v ∷ vs) =
    let rest = validate_each host vs in
    do pair ← validate_pair host v; pairs ← rest; ok (pair ∷ pairs)

unfoldable pub validate_pairs : Host → Option Value → Result (List LabelPair)
unfolding validate_each
validate_pairs host v = do vs ← required (as_array v) invalid_shape; validate_each host vs

abbrev labels_fields : List Text
labels_fields = lit "type" ∷ lit "v" ∷ lit "timestamp" ∷ lit "set" ∷ lit "unset" ∷ []

abbrev about_fields : List Text
about_fields = lit "type" ∷ lit "v" ∷ lit "timestamp" ∷ lit "name" ∷ []

-- Each pair once across set and unset, and at least one pair.
unfoldable pub validate_labels_record : Host → Text → Fields → Result LabelsRecord
validate_labels_record host key value = do
  require (is_text (lit "labels") (get_field (lit "type") value)) invalid_shape
  require (not (has_extra_fields value labels_fields)) invalid_shape
  require (is_uint 1 (get_field (lit "v") value)) invalid_shape
  timestamp ← required (as_uint (get_field (lit "timestamp") value)) invalid_shape
  set ← validate_pairs host (get_field (lit "set") value)
  unset ← validate_pairs host (get_field (lit "unset") value)
  require (leb 1 (length set + length unset)) invalid_shape
  let keys = TextSet.add_all (map label_state_key (set ++ unset)) []
  require (length keys == length set + length unset) invalid_shape
  require (text_eq key (record_key host (map_of value))) invalid_shape
  ok (record { timestamp = timestamp; set = set; unset = unset })

unfoldable pub about_key : Host → Text
about_key host = sha256_hex host (lit "about")

unfoldable pub validate_about_record : Host → Text → Fields → Result AboutRecord
validate_about_record host key value = do
  require (is_text (lit "about") (get_field (lit "type") value)) invalid_shape
  require (not (has_extra_fields value about_fields)) invalid_shape
  require (is_uint 1 (get_field (lit "v") value)) invalid_shape
  timestamp ← required (as_uint (get_field (lit "timestamp") value)) invalid_shape
  name ← required (as_text (get_field (lit "name") value)) invalid_shape
  require (leb 1 (length name) && leb (length (utf8 name)) about_name_max_bytes) invalid_shape
  require (text_eq key (about_key host)) invalid_shape
  ok (record { timestamp = timestamp; name = name })

abbrev pair_value : LabelPair → Value
pair_value (track_id, label) = array (array_of (text track_id ∷ text label ∷ []))

unfoldable pub labels_value : LabelsRecord → Fields
labels_value r = Fields.field (lit "type") (text (lit "labels")) (
    Fields.field (lit "v") (uint 1) (
      Fields.field (lit "timestamp") (uint r.timestamp) (
        Fields.field (lit "set") (array (array_of (map pair_value r.set)))
          (Fields.field (lit "unset") (array (array_of (map pair_value r.unset))) Fields.end))))

unfoldable pub build_labels_record : Host → LabelsRecord → Result LabelsRecord
build_labels_record host r =
    validate_labels_record host (record_key host (map_of (labels_value r))) (labels_value r)

unfoldable pub about_value : AboutRecord → Fields
about_value r = Fields.field (lit "type") (text (lit "about")) (
    Fields.field (lit "v") (uint 1) (
      Fields.field (lit "timestamp") (uint r.timestamp)
        (Fields.field (lit "name") (text r.name) Fields.end)))

unfoldable pub build_about_record : Host → AboutRecord → Result AboutRecord
build_about_record host r = validate_about_record host (about_key host) (about_value r)
