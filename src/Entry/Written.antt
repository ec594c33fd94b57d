-- ===== src/Entry/Written.antt =====
-- entry/operations.ts: a builder and the check that a receiver runs on what was written agree.
use record_node.Prelude.{
  Text, lit, text_eq, ◌≡◌, refl, ◌∙◌, Bool, true, false, Option, text_eq_refl, none, some,
}
use record_node.Value.{
  Value, Fields, text, map_of, get_field, as_text, as_record, is_text, is_uint, as_uint,
}
use record_node.Entry.Payloads.{validate_envelope, envelope_value, build_track_envelope}
use record_node.Encoding.Cid.{is_protocol_cid}
use record_node.Identity.{is_track_id}
use record_node.Entry.{AboutRecord, Envelope, track_put, recordstore, EntryPayload}
use record_node.Result.{
  Result, ok, err, require, required, invalid_shape, invalid_operation, ◌>>=◌, ◌>>◌, >>=-eq-ok,
}
use record_node.Host.{Host}
use record_node.Access.Records.{access_record_type}
use record_node.Entry.Records.{about_key, about_value, build_about_record}
use record_node.Entry.Identities.{by_op}
use record_node.Entry.Operations.{
  build_put_operation, build_about_put, validate_operation, validate_record_operation,
  validate_record_put, is_v1_envelope,
}

abbrev capability_field : Option Text → Fields
capability_field none = Fields.end
capability_field (some id) = Fields.field (lit "capability_id") (text id) Fields.end

-- The payload that a PUT is written as.
pub put_value : Text → Fields → Option Text → Value
put_value key value capability_id = map_of (
    Fields.field (lit "op") (text (lit "PUT")) (
      Fields.field (lit "key") (text key)
        (Fields.field (lit "value") (map_of value) (capability_field capability_id))))

-- For every About record, well formed or not, and whoever signs, build_about_put returns just what the
-- check of a recordstore returns for the operation as it is written: the same operation, or the same
-- refusal.
pub validate-about_put :
    (host : Host) (r : AboutRecord) (capability_id : Option Text) (write_list_signer : Bool)
    → validate_operation host
        (put_value (about_key host) (about_value r) capability_id)
        recordstore
        write_list_signer
      ≡ build_about_put host r capability_id
unfolding validate_operation validate_record_operation validate_record_put build_about_put
    build_about_record put_value by_op is_v1_envelope get_field as_text as_record is_text text_eq
    access_record_type about_value
validate-about_put host r none true = refl
validate-about_put host r none false = refl
validate-about_put host r (some id) true = refl
validate-about_put host r (some id) false = refl

written_id :
    (e : Envelope) (id : Text)
    → required (as_text (get_field (lit "id") (envelope_value e))) invalid_shape ≡ ok id
    → id ≡ e.id
unfolding envelope_value get_field as_text text_eq
written_id e id h = cc

validate_envelope-id : (e v : Envelope) → validate_envelope (envelope_value e) ≡ ok v → v.id ≡ e.id
unfolding validate_envelope
validate_envelope-id e v h =
    let (id, found, h1) =
      >>=-eq-ok (required (as_text (get_field (lit "id") (envelope_value e))) invalid_shape) _ h in
    let (_, _, h2) = >>=-eq-ok (require (is_track_id id) invalid_shape) _ h1 in
    let (_, _, h3) =
      >>=-eq-ok (required (as_uint (get_field (lit "timestamp") (envelope_value e))) invalid_shape)
        _ h2 in
    let (_, _, h4) =
      >>=-eq-ok (require (is_uint 1 (get_field (lit "v") (envelope_value e))) invalid_shape) _ h3 in
    let (_, _, h5) =
      >>=-eq-ok
        (require (is_text (lit "track") (get_field (lit "type") (envelope_value e))) invalid_shape)
        _ h4 in
    let (_, _, h6) =
      >>=-eq-ok
        (require (is_protocol_cid (get_field (lit "content") (envelope_value e))) invalid_shape) _
        h5 in
    let (_, _, h7) =
      >>=-eq-ok (required (as_text (get_field (lit "content") (envelope_value e))) invalid_shape) _
        h6 in
    let written : id ≡ e.id = written_id e id found in ok-id h7 ∙ written
  where
    ok-id : {a b : Envelope} → ok a ≡ ok b → b.id ≡ a.id
    ok-id q = cc

-- A test that what was built passes changes nothing.
passing_test :
    (id : Text) (built : Result Envelope) (write : Text → Envelope → EntryPayload)
    → ((v : Envelope) → built ≡ ok v → v.id ≡ id)
    → (built >>= λ v. require (text_eq id v.id) invalid_operation >> ok (write id v))
      ≡ (built >>= λ v. ok (write v.id v))
passing_test id (err code) write same = refl
passing_test id (ok v) write same = rw (same v refl, text_eq_refl id) refl

-- For every track envelope, the check of a recordstore on the PUT as it is written returns the operation
-- that build_put_operation makes of what build_track_envelope returns, or the refusal of the latter.
pub validate-track_put :
    (host : Host) (e : Envelope) (capability_id : Option Text) (write_list_signer : Bool)
    → validate_operation host
        (put_value e.id (envelope_value e) capability_id)
        recordstore
        write_list_signer
      ≡ (build_track_envelope e.id e.content e.timestamp >>= λ built.
          ok (build_put_operation built capability_id))
unfolding validate_operation validate_record_operation validate_record_put build_track_envelope
    build_put_operation put_value by_op is_v1_envelope envelope_value get_field as_text as_record
    is_text text_eq access_record_type
validate-track_put host e none true =
    passing_test e.id (validate_envelope (envelope_value e)) (λ k v. track_put k v none)
      (validate_envelope-id e)
validate-track_put host e none false =
    passing_test e.id (validate_envelope (envelope_value e)) (λ k v. track_put k v none)
      (validate_envelope-id e)
validate-track_put host e (some id) true =
    passing_test e.id (validate_envelope (envelope_value e)) (λ k v. track_put k v (some id))
      (validate_envelope-id e)
validate-track_put host e (some id) false =
    passing_test e.id (validate_envelope (envelope_value e)) (λ k v. track_put k v (some id))
      (validate_envelope-id e)
