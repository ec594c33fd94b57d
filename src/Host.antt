-- ===== src/Host.antt =====
-- What the program takes from packages outside the repository: dag-cbor, the hashes and secp256k1 of
-- noble and node:crypto, multiformats' CID parser; and Unicode normalisation, a table of the runtime.
use record_node.Prelude.{Text, Bytes, Bool, Option}
use record_node.Value.{Value}

pub record Host : Type 0 where
  -- `encode` and `decode` of @ipld/dag-cbor; `none` is a throw.
  pub encode : Value → Bytes
  pub decode : Bytes → Option Value
  pub sha256 : Bytes → Bytes
  pub sha3_512 : Bytes → Bytes
  -- Whether a hex DER signature over a digest verifies under a hex public key; a throw is false.
  pub verify : (sig : Text) → (digest : Bytes) → (key : Text) → Bool
  -- The hex public key of a private key, and the hex DER signature of a digest under it.
  pub public_key : Bytes → Text
  pub sign : (digest : Bytes) → (private_key : Bytes) → Text
  -- `String.prototype.normalize('NFC')`.
  pub normalize : Text → Text
  -- Whether `CID.parse(text, base58btc)` returns; `CID.parse(text).toV1().toString(base32)`.
  pub is_cid : Text → Bool
  pub canonical_cid : Text → Option Text
