-- ===== src/Examples.antt =====
-- Concrete values for the witnesses and the tests: a host whose codec knows one block, and the entry in it.
use record_node.Prelude.{
  false, Option, ℕ, zero, suc, Text, Bytes, lit, true, none, some, List, [], ◌∷◌,
}
use record_node.Value.{Value, Fields, map_of, text, array, uint}
use record_node.Entry.{
  identity_put, identity_del, library_record, library, Envelope, AboutRecord, recordstore,
  access_put, listen, capability, SignedEntry, HashedEntry, VerifiedEntry,
}
use record_node.Host.{Host}
use record_node.Encoding.Cid.{format_protocol_cid}
use record_node.Access.Chain.{AcChain, build_ac_chain, write_list_value, manifest_value}
use record_node.Access.Chain.ReadBack.{wrapper_read}
use record_node.Access.Records.{array_of}
use record_node.Entry.Signed.{signed_value, with_hash}
use record_node.Oplog.{ResolvedAcChain, Oplog, create_oplog, insert_entry}
use record_node.Result.{ok}
use record_node.Replication.Traversal.{Setting, Traversal, create_traversal, enqueue}
use record_node.Oplog.Merge.{merge_entries}

abbrev pub owner : Text
owner = lit "02aaaaaaaaaaaaaaaaaaaaaaaaaaaaaaaaaaaaaaaaaaaaaaaaaaaaaaaaaaaaaaaa"

abbrev pub grantee : Text
grantee = lit "03bbbbbbbbbbbbbbbbbbbbbbbbbbbbbbbbbbbbbbbbbbbbbbbbbbbbbbbbbbbbbbbb"

abbrev pub grant_value : Fields
grant_value = Fields.field (lit "type") (text (lit "capability")) (
    Fields.field (lit "v") (uint 1) (
      Fields.field (lit "timestamp") (uint 5) (
        Fields.field (lit "grantee")
          (map_of (
            Fields.field (lit "type") (text (lit "key"))
              (Fields.field (lit "key") (text grantee) Fields.end)))
          (Fields.field (lit "actions") (array (array_of (text (lit "library.append_track") ∷ [])))
            Fields.end))))

abbrev pub grant_payload : Value
grant_payload = map_of (
    Fields.field (lit "op") (text (lit "PUT")) (
      Fields.field (lit "key") (text (lit "01"))
        (Fields.field (lit "value") (map_of grant_value) Fields.end)))

abbrev pub grant_signed : SignedEntry
grant_signed = record {
  unsigned = record {
    id = lit "library";
    payload = grant_payload;
    next = [];
    refs = [];
    clock = record { id = owner; time = 1 };
  };
  key = owner;
  sig = lit "s";
}

abbrev pub grant_block : Bytes
grant_block = 0xa8 ∷ []

abbrev pub zeros_of : ℕ → Bytes
zeros_of zero = []
zeros_of (suc n) = 7 ∷ zeros_of n

abbrev pub host : Host
host = record {
  encode = λ v. grant_block;
  decode = λ bytes. some (signed_value grant_signed);
  sha256 = λ bytes. 1 ∷ [];
  sha3_512 = λ bytes. zeros_of 64;
  verify = λ sig digest key. true;
  public_key = λ private_key. owner;
  sign = λ digest private_key. lit "s";
  normalize = λ t. t;
  is_cid = λ t. true;
  canonical_cid = λ t. some t;
}

abbrev pub chain : ResolvedAcChain
chain = record {
  address = lit "/record/zm/name";
  name = lit "name";
  type = recordstore;
  write_list = owner ∷ [];
  cids = record { manifest = lit "zm"; wrapper = lit "zw"; write_list = lit "zl" };
}

abbrev pub grant_hashed : HashedEntry
grant_hashed = with_hash host grant_signed grant_block

abbrev pub grant_entry : VerifiedEntry
grant_entry = record {
  hashed = grant_hashed;
  operation = access_put (lit "01") capability grant_value none;
  state_keys = [];
}

abbrev pub granting : Oplog
granting = (merge_entries host (create_oplog chain) (grant_block ∷ [])).0

-- A listen entry under this hash.
abbrev pub listen_entry : Text → List Text → ℕ → VerifiedEntry
listen_entry hash next time = record {
  hashed = record {
    hash = hash;
    multihash = hash;
    bytes = hash;
    entry = record {
      unsigned = record {
        id = lit "listens";
        payload = Value.null;
        next = next;
        refs = [];
        clock = record { id = owner; time = time };
      };
      key = owner;
      sig = lit "s";
    };
  };
  operation = listen (lit "t") (lit "a") 3;
  state_keys = [];
}

abbrev pub first_listen : VerifiedEntry
first_listen = listen_entry (lit "a") [] 1

abbrev pub second_listen : VerifiedEntry
second_listen = listen_entry (lit "b") (lit "a" ∷ []) 2

-- `{type: "match", fields: {type: "track"}}`, and a subject that it matches.
abbrev pub track_filter : Value
track_filter = map_of (
    Fields.field (lit "type") (text (lit "match")) (
      Fields.field (lit "fields")
        (map_of (Fields.field (lit "type") (text (lit "track")) Fields.end)) Fields.end))

abbrev pub track_subject : Value
track_subject = map_of (Fields.field (lit "type") (text (lit "track")) Fields.end)

-- Two fetches at once, every block verifies with no pointer, and nothing has landed.
abbrev pub two_at_once : Setting
two_at_once = record {
  verify = λ hash bytes. ok (record { next = []; refs = [] });
  is_landed = λ hash. false;
  concurrency = 2;
}

abbrev pub three_told : Traversal
three_told = enqueue two_at_once (lit "a" ∷ lit "b" ∷ lit "c" ∷ []) create_traversal

-- A host whose codec knows the three objects of one chain, and whose hash is the block itself.
abbrev pub block_cid : Bytes → Text
block_cid bytes = format_protocol_cid (0x01 ∷ 0x71 ∷ 0x14 ∷ 64 ∷ bytes)

abbrev pub chain_block : Value → Bytes
chain_block (map_of (Fields.field name v Fields.end)) = 9 ∷ []
chain_block (map_of (Fields.field name v (Fields.field type w Fields.end))) = 9 ∷ 9 ∷ []
chain_block v = 9 ∷ 9 ∷ 9 ∷ []

abbrev pub block_value : Bytes → Option Value
block_value (x ∷ []) = some (write_list_value (owner ∷ []))
block_value (x ∷ y ∷ []) = some (wrapper_read (block_cid (9 ∷ [])))
block_value (x ∷ y ∷ z ∷ []) =
    some (manifest_value (lit "music") recordstore (block_cid (9 ∷ 9 ∷ [])))
block_value bytes = none

abbrev pub chain_host : Host
chain_host = record {
  encode = chain_block;
  decode = block_value;
  sha256 = λ bytes. bytes;
  sha3_512 = λ bytes. bytes;
  verify = λ sig digest key. true;
  public_key = λ private_key. owner;
  sign = λ digest private_key. lit "s";
  normalize = λ t. t;
  is_cid = λ t. true;
  canonical_cid = λ t. some t;
}

abbrev pub music_chain : AcChain
music_chain = build_ac_chain chain_host (lit "music") recordstore (owner ∷ [])

abbrev pub track_id : Text
track_id = lit "00112233445566778899aabbccddeeff00112233445566778899aabbccddeeff"

abbrev pub track : Envelope
track = record { id = track_id; timestamp = 7; content = block_cid (zeros_of 64) }

abbrev pub about : AboutRecord
about = record { timestamp = 7; name = lit "music" }

-- An identity library in which a library is claimed, and then retired.
abbrev pub claim_entry : VerifiedEntry
claim_entry = record (listen_entry (lit "claim") [] 1) {
  operation = identity_put (lit "k") (library_record 3 (lit "music"));
  state_keys = lit "k" ∷ [];
}

abbrev pub retire_entry : VerifiedEntry
retire_entry = record (listen_entry (lit "retire") (lit "claim" ∷ []) 2) {
  operation = identity_del (lit "k") library 4;
  state_keys = lit "k" ∷ [];
}

abbrev pub retiring : Oplog
retiring = (insert_entry retire_entry (insert_entry claim_entry (create_oplog chain)).0).0
