-- ===== src/Encoding/Cid.antt =====
-- encoding/cid.ts: the string of a protocol-object CID, and which strings are one.
use record_node.Prelude.{
  ℕ, ◌+◌, Text, Bytes, Bool, false, ◌&&◌, Option, none, some, [], ◌∷◌, ◌==◌, length, take, text_eq,
}
use record_node.Value.{Value, as_text}
use record_node.Host.{Host}
use record_node.Encoding.Base58.{decode_base58btc}
use record_node.Encoding.Base58.Encoder.{encode_base58btc}

abbrev pub sha3_512_length : ℕ
sha3_512_length = 64

-- CIDv1, dag-cbor, sha3-512, a digest of 64 bytes.
abbrev pub protocol_cid_prefix : Bytes
protocol_cid_prefix = 0x01 ∷ 0x71 ∷ 0x14 ∷ sha3_512_length ∷ []

-- The multihash of a block: the code of sha3-512, the length, the digest.
unfoldable pub multihash_of : Host → Bytes → Bytes
multihash_of host bytes = 0x14 ∷ sha3_512_length ∷ host.sha3_512 bytes

-- The bytes of a CIDv1 with the dag-cbor codec.
unfoldable pub compute_cid : Host → Bytes → Bytes
unfolding multihash_of
compute_cid host bytes = 0x01 ∷ 0x71 ∷ multihash_of host bytes

unfoldable pub format_protocol_cid : Bytes → Text
unfolding encode_base58btc
format_protocol_cid cid = b'z' ∷ encode_base58btc cid

unfoldable pub compute_cid_string : Host → Bytes → Text
unfolding format_protocol_cid compute_cid
compute_cid_string host bytes = format_protocol_cid (compute_cid host bytes)

abbrev of_profile : Option Bytes → Bool
of_profile none = false
of_profile (some bytes) =
    length bytes == length protocol_cid_prefix + sha3_512_length
    && text_eq (take (length protocol_cid_prefix) bytes) protocol_cid_prefix

-- A string with the multibase prefix `z` whose bytes have the profile.
unfoldable pub is_protocol_cid_text : Text → Bool
is_protocol_cid_text [] = false
is_protocol_cid_text (c ∷ rest) = c == b'z' && of_profile (decode_base58btc rest)

abbrev protocol_test : Option Text → Bool
protocol_test none = false
protocol_test (some t) = is_protocol_cid_text t

unfoldable pub is_protocol_cid : Option Value → Bool
unfolding is_protocol_cid_text
is_protocol_cid v = protocol_test (as_text v)

-- `is_cid_string`: any CID that multiformats parses.
cid_test : Host → Option Text → Bool
cid_test host none = false
cid_test host (some t) = host.is_cid t

unfoldable pub is_cid_string : Host → Option Value → Bool
unfolding cid_test
is_cid_string host v = cid_test host (as_text v)
