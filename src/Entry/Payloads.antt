-- ===== src/Entry/Payloads.antt =====
-- entry/envelope.ts and entry/listen.ts: track envelopes and listen payloads.
use record_node.Prelude.{ℕ, Text, lit, not, Option, none, some, is_some, leb, length}
use record_node.Value.{Fields, text, uint, get_field, as_text, as_uint, is_uint, is_text}
use record_node.Entry.{Envelope, EntryPayload, listen}
use record_node.Result.{
  Result, ok, err, invalid_shape, invalid_operation, ◌>>=◌, ◌>>◌, require, required,
}
use record_node.Identity.{is_track_id}
use record_node.Encoding.Cid.{is_protocol_cid}

-- Validates a received envelope, which is a map, and returns its read view: extras are not copied.
unfoldable pub validate_envelope : Fields → Result Envelope
validate_envelope value = do
  id ← required (as_text (get_field (lit "id") value)) invalid_shape
  require (is_track_id id) invalid_shape
  timestamp ← required (as_uint (get_field (lit "timestamp") value)) invalid_shape
  require (is_uint 1 (get_field (lit "v") value)) invalid_shape
  require (is_text (lit "track") (get_field (lit "type") value)) invalid_shape
  require (is_protocol_cid (get_field (lit "content") value)) invalid_shape
  content ← required (as_text (get_field (lit "content") value)) invalid_shape
  ok (record { id = id; timestamp = timestamp; content = content })

-- The map that the envelope is written as.
unfoldable pub envelope_value : Envelope → Fields
envelope_value e = Fields.field (lit "id") (text e.id) (
    Fields.field (lit "timestamp") (uint e.timestamp) (
      Fields.field (lit "v") (uint 1) (
        Fields.field (lit "type") (text (lit "track"))
          (Fields.field (lit "content") (text e.content) Fields.end))))

unfoldable pub build_track_envelope : (id content_cid : Text) → (timestamp : ℕ) → Result Envelope
unfolding validate_envelope envelope_value
build_track_envelope id content_cid timestamp =
    validate_envelope
      (envelope_value (record { id = id; timestamp = timestamp; content = content_cid }))

unfoldable pub validate_listen_payload : Option Fields → Result EntryPayload
validate_listen_payload none = err invalid_operation
validate_listen_payload (some value) = do
  require (not (is_some (get_field (lit "op") value))) invalid_operation
  track_id ← required (as_text (get_field (lit "trackId") value)) invalid_operation
  require (leb 1 (length track_id)) invalid_operation
  address ← required (as_text (get_field (lit "address") value)) invalid_operation
  timestamp ← required (as_uint (get_field (lit "timestamp") value)) invalid_operation
  ok (listen track_id address timestamp)

unfoldable pub build_listen_payload :
    (track_id address : Text) → (timestamp : ℕ) → Result EntryPayload
unfolding validate_listen_payload
build_listen_payload track_id address timestamp = validate_listen_payload (
    some (
      Fields.field (lit "trackId") (text track_id) (
        Fields.field (lit "address") (text address)
          (Fields.field (lit "timestamp") (uint timestamp) Fields.end))))
