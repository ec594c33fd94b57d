-- ===== src/Fabric/Blocks.antt =====
-- fabric/block.ts: the digest check of a block and the walk over the blocks under one, and the Map of
-- adapter/memory/content-store.ts that holds them, by the text of a CID. Import of a blob is a
-- package's.
pub mod Walk
pub mod Fuel
use record_node.Prelude.{
  ℕ, zero, suc, Text, Bytes, Bool, true, false, ◌||◌, not, Option, none, some, List, [], ◌∷◌, ◌++◌,
  ◌==◌, if◌then◌else◌, text_eq,
}
use record_node.Dict
use record_node.Dict.{Dict}
use record_node.Value.{
  Value, null, bool, num, bigint, text, bytes, link, array, map_of, Items, Fields,
}
use record_node.Result.{
  Result, ok, err, invalid_cid, cid_mismatch, content_unavailable, malformed_encoding, ◌>>=◌, ◌>>◌,
  require, required,
}
use record_node.Host.{Host}

-- A parsed CID.
pub record Cid : Type 0 where
  pub version : ℕ
  pub codec : ℕ
  pub hash_code : ℕ
  pub digest : Bytes

-- What a multihash tells: the hash function, and the digest.
abbrev pub multihash : Cid → Text
multihash c = c.hash_code ∷ c.digest

-- multiformats' `CID.parse` and `toString(base58btc)`, the CID of a dag-cbor link, and the links that
-- @ipld/dag-pb decodes.
pub record CidHost : Type 0 where
  pub parse : Text → Option Cid
  pub format : Cid → Text
  pub of_link : Bytes → Cid
  pub pb_links : Bytes → Option (List Cid)

abbrev pub format_cid : CidHost → Cid → Text
format_cid cids cid = cids.format cid

abbrev pub raw_code : ℕ
raw_code = 0x55

abbrev pub dag_pb_code : ℕ
dag_pb_code = 0x70

abbrev pub dag_cbor_code : ℕ
dag_cbor_code = 0x71

abbrev sha2_256_code : ℕ
sha2_256_code = 0x12

abbrev sha3_512_code : ℕ
sha3_512_code = 0x14

unfoldable pub parse_content_cid : CidHost → Text → Result Cid
parse_content_cid cids t = required (cids.parse t) invalid_cid

unfoldable pub digest_of : Host → ℕ → Bytes → Option Bytes
digest_of host code block =
    if code == sha2_256_code
    then some (host.sha256 block)
    else if code == sha3_512_code
    then some (host.sha3_512 block)
    else none

unfoldable pub verify_block : Host → Cid → Bytes → Result (Unit {0})
verify_block host cid block = do
  digest ← required (digest_of host cid.hash_code block) invalid_cid
  require (text_eq digest cid.digest) cid_mismatch

unfoldable mutual
  pub cbor_links : CidHost → Value → List Cid
  cbor_links cids null = []
  cbor_links cids (bool _) = []
  cbor_links cids (num _) = []
  cbor_links cids (bigint _ _) = []
  cbor_links cids (text _) = []
  cbor_links cids (bytes _) = []
  cbor_links cids (link b) = cids.of_link b ∷ []
  cbor_links cids (array vs) = cbor_item_links cids vs
  cbor_links cids (map_of fs) = cbor_field_links cids fs

  pub cbor_item_links : CidHost → Items → List Cid
  cbor_item_links cids Items.nil = []
  cbor_item_links cids (Items.item v vs) = cbor_links cids v ++ cbor_item_links cids vs

  pub cbor_field_links : CidHost → Fields → List Cid
  cbor_field_links cids Fields.end = []
  cbor_field_links cids (Fields.field _ v fs) = cbor_links cids v ++ cbor_field_links cids fs

-- A block that its decoder refuses makes the walk fail.
unfoldable pub links_of : Host → CidHost → Cid → Bytes → Result (List Cid)
links_of host cids cid block =
    if cid.codec == raw_code
    then ok []
    else if cid.codec == dag_pb_code
    then required (cids.pb_links block) malformed_encoding
    else if cid.codec == dag_cbor_code
    then (required (host.decode block) malformed_encoding >>= λ v. ok (cbor_links cids v))
    else err invalid_cid

-- The blocks of the store: `read` and `has` are `get` and `has` of this map.
abbrev pub Blocks : Type 0
Blocks = Dict Bytes

-- The loop over the links of a block.
unfoldable pub visit_all :
    (Cid → Dict Cid → Result (Dict Cid)) → List Cid → Dict Cid → Result (Dict Cid)
visit_all visit [] visited = ok visited
visit_all visit (c ∷ cs) visited = visit c visited >>= λ after. visit_all visit cs after

module _ (host : Host) (cids : CidHost) (blocks : Blocks) (recursive : Bool) where
  -- Runs on fuel, one for each block on the path from the root; it fails where the fuel ends.
  unfoldable pub visit : ℕ → Cid → Dict Cid → Result (Dict Cid)
  unfolding visit_all
  visit zero next visited = err content_unavailable
  visit (suc fuel) next visited =
      let under = (λ (block : Bytes). links_of host cids next block >>= λ links.
      visit_all (visit fuel) links (Dict.set (format_cid cids next) next visited)) in
      if Dict.has (format_cid cids next) visited
      then ok visited
      else if not recursive || next.codec == raw_code
      then (require (Dict.has (format_cid cids next) blocks) content_unavailable
          >> ok (Dict.set (format_cid cids next) next visited))
      else (required (Dict.get (format_cid cids next) blocks) content_unavailable >>= under)

unfoldable pub walk_blocks : Host → CidHost → Blocks → ℕ → Cid → Bool → Result (List Cid)
unfolding visit
walk_blocks host cids blocks fuel cid recursive = do
  visited ← visit host cids blocks recursive fuel cid []
  ok (Dict.values visited)

-- `put` of the store.
unfoldable pub put : Host → CidHost → Cid → Bytes → Blocks → Result Blocks
unfolding verify_block digest_of
put host cids cid block blocks =
    verify_block host cid block >> ok (Dict.set (format_cid cids cid) block blocks)
