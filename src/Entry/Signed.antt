-- ===== src/Entry/Signed.antt =====
-- entry/signed.ts and entry/build.ts: the signed entry at rest and on the wire; identity/signing.ts and
-- identity/verification.ts: its signature.
use record_node.Prelude.{
  ℕ, Text, Bytes, lit, Bool, ◌&&◌, Option, some, List, [], ◌∷◌, ◌==◌, map, every, leb, length,
}
use record_node.Value.{
  Value, Fields, map_of, text, array, uint, get_field, field_names, as_text, as_array, as_uint,
  as_record, is_uint, includes,
}
use record_node.Entry.{LamportClock, UnsignedEntry, SignedEntry, HashedEntry}
use record_node.Result.{
  Result, ok, invalid_shape, size_exceeded, invalid_public_key, ◌>>=◌, ◌>>◌, require, required,
}
use record_node.Host.{Host}
use record_node.Identity.{is_compressed_pubkey}
use record_node.Encoding.Cid.{is_protocol_cid, multihash_of, compute_cid_string}
use record_node.Encoding.Canonical.{assert_signed_entry_size, decode_canonical}
use record_node.Access.Filter.Shapes.{fields_of}
use record_node.Access.Records.{array_of}

abbrev pub max_entry_pointers : ℕ
max_entry_pointers = 256

pointer : Value → Result Text
pointer v = do
  require (is_protocol_cid (some v)) invalid_shape
  required (as_text (some v)) invalid_shape

pointers : List Value → Result (List Text)
unfolding pointer
pointers [] = ok []
pointers (v ∷ vs) = let rest = pointers vs in do p ← pointer v; ps ← rest; ok (p ∷ ps)

-- An array of at most 256 entry hashes.
unfoldable pub assert_pointers : Option Value → Result (List Text)
unfolding pointers
assert_pointers v = do
  vs ← required (as_array v) invalid_shape
  require (leb (length vs) max_entry_pointers) size_exceeded
  pointers vs

unfoldable pub assert_clock : Option Value → Result LamportClock
assert_clock v = do
  fields ← required (fields_of v) invalid_shape
  require (length (field_names fields) == 2) invalid_shape
  require (is_compressed_pubkey (get_field (lit "id") fields)) invalid_shape
  id ← required (as_text (get_field (lit "id") fields)) invalid_shape
  time ← required (as_uint (get_field (lit "time") fields)) invalid_shape
  ok (record { id = id; time = time })

-- The six signed fields of a decoded entry.
unfoldable pub assert_unsigned_fields : Fields → Result UnsignedEntry
unfolding assert_pointers assert_clock
assert_unsigned_fields value = do
  id ← required (as_text (get_field (lit "id") value)) invalid_shape
  payload ← required (get_field (lit "payload") value) invalid_shape
  require (is_uint 2 (get_field (lit "v") value)) invalid_shape
  next ← assert_pointers (get_field (lit "next") value)
  refs ← assert_pointers (get_field (lit "refs") value)
  clock ← assert_clock (get_field (lit "clock") value)
  ok (record { id = id; payload = payload; next = next; refs = refs; clock = clock })

abbrev signed_entry_fields : List Text
signed_entry_fields =
    lit "id"
    ∷ lit "payload"
    ∷ lit "next"
    ∷ lit "refs"
    ∷ lit "v"
    ∷ lit "clock"
    ∷ lit "key"
    ∷ lit "sig"
    ∷ []

unfoldable pub assert_signed_entry_shape : Value → Result SignedEntry
unfolding assert_unsigned_fields
assert_signed_entry_shape v = do
  value ← required (as_record v) invalid_shape
  require
      (length (field_names value) == 8 && every (includes (field_names value)) signed_entry_fields)
      invalid_shape
  require (is_compressed_pubkey (get_field (lit "key") value)) invalid_public_key
  sig ← required (as_text (get_field (lit "sig") value)) invalid_shape
  unsigned ← assert_unsigned_fields value
  key ← required (as_text (get_field (lit "key") value)) invalid_public_key
  ok (record { unsigned = unsigned; key = key; sig = sig })

abbrev clock_value : LamportClock → Value
clock_value clock = map_of (
    Fields.field (lit "id") (text clock.id)
      (Fields.field (lit "time") (uint clock.time) Fields.end))

abbrev hashes_value : List Text → Value
hashes_value hashes = array (array_of (map text hashes))

abbrev unsigned_onto : UnsignedEntry → Fields → Fields
unsigned_onto e rest = Fields.field (lit "id") (text e.id) (
    Fields.field (lit "payload") e.payload (
      Fields.field (lit "next") (hashes_value e.next) (
        Fields.field (lit "refs") (hashes_value e.refs) (
          Fields.field (lit "v") (uint 2)
            (Fields.field (lit "clock") (clock_value e.clock) rest)))))

-- `unsigned_fields`, as the value that is encoded for signing.
unfoldable pub unsigned_value : UnsignedEntry → Value
unsigned_value e = map_of (unsigned_onto e Fields.end)

unfoldable pub signed_value : SignedEntry → Value
signed_value e = map_of (
    unsigned_onto e.unsigned
      (Fields.field (lit "key") (text e.key) (Fields.field (lit "sig") (text e.sig) Fields.end)))

-- `build_unsigned_entry`, which checks the fields that it is given as those of a received entry.
unfoldable pub build_unsigned_entry : UnsignedEntry → Result UnsignedEntry
build_unsigned_entry e = assert_unsigned_fields (unsigned_onto e Fields.end)

unfoldable pub with_hash : Host → SignedEntry → Bytes → HashedEntry
with_hash host entry bytes = record {
  hash = compute_cid_string host bytes;
  multihash = multihash_of host bytes;
  bytes = bytes;
  entry = entry;
}

unfoldable pub hash_signed_entry : Host → SignedEntry → HashedEntry
unfolding with_hash
hash_signed_entry host entry = with_hash host entry (host.encode (signed_value entry))

-- Size first, then canonical form, then shape.
unfoldable pub decode_signed_entry : Host → Bytes → Result HashedEntry
unfolding with_hash
decode_signed_entry host bytes = do
  require_size ← assert_signed_entry_size bytes
  value ← decode_canonical host bytes
  entry ← assert_signed_entry_shape value
  ok (with_hash host entry bytes)

unfoldable pub signing_digest : Host → UnsignedEntry → Bytes
signing_digest host e = host.sha256 (host.encode (unsigned_value e))

unfoldable pub sign_entry : Host → UnsignedEntry → (private_key : Bytes) → SignedEntry
sign_entry host e private_key = record {
  unsigned = e;
  key = host.public_key private_key;
  sig = host.sign (signing_digest host e) private_key;
}

unfoldable pub verify_entry_signature : Host → SignedEntry → Bool
verify_entry_signature host e = host.verify e.sig (signing_digest host e.unsigned) e.key
