-- ===== src/Access/Chain.antt =====
-- access-control/create.ts and access-control/resolve.ts, and build_ac_chain of
-- encoding/library-address.ts: the three objects behind a library's address.
pub mod ReadBack
pub mod RoundTrip
use record_node.Prelude.{
  ℕ, Text, Bytes, lit, text_eq, Bool, true, false, ◌&&◌, not, Option, none, some, List, [], ◌∷◌,
  ◌==◌, map, every, if◌then◌else◌, length,
}
use record_node.Dict
use record_node.Dict.{Dict}
use record_node.Value.{
  Value, Fields, map_of, text, array, get_field, field_names, as_text, as_array, as_record,
  includes,
}
use record_node.Entry.{LibraryType, recordstore, labels, listens, identity}
use record_node.Result.{
  Result, ok, err, ErrorCode, library_rejected, library_unopenable, unsupported_ac_type,
  invalid_public_key, ◌>>=◌, ◌>>◌, require, required,
}
use record_node.Host.{Host}
use record_node.Identity.{is_pubkey_text}
use record_node.Encoding.Cid.{compute_cid_string}
use record_node.Encoding.Canonical.{decode_canonical}
use record_node.Encoding.LibraryAddress.{
  build_library_address, parse_library_address, validate_library_name,
}
use record_node.Access.Filter.Shapes.{fields_of}
use record_node.Access.Records.{array_of}
use record_node.Oplog.{ResolvedAcChain, AcChainCids}

unfoldable pub type_text : LibraryType → Text
type_text recordstore = lit "recordstore"
type_text labels = lit "labels"
type_text listens = lit "listens"
type_text identity = lit "identity"

-- `LIBRARY_TYPES.includes(type)`, with the type that it is.
unfoldable pub type_of_text : Text → Option LibraryType
type_of_text t =
    if text_eq t (lit "recordstore")
    then some recordstore
    else if text_eq t (lit "labels")
    then some labels
    else if text_eq t (lit "listens")
    then some listens
    else if text_eq t (lit "identity")
    then some identity
    else none

pub record AcChainObject : Type 0 where
  pub cid : Text
  pub bytes : Bytes

unfoldable pub object : Host → Value → AcChainObject
object host value = record {
  cid = compute_cid_string host (host.encode value);
  bytes = host.encode value;
}

abbrev pub write_list_value : List Text → Value
write_list_value keys =
    map_of (Fields.field (lit "write") (array (array_of (map text keys))) Fields.end)

abbrev pub wrapper_value : Text → Value
wrapper_value address = map_of (
    Fields.field (lit "params") (map_of (Fields.field (lit "address") (text address) Fields.end))
      (Fields.field (lit "type") (text (lit "static")) Fields.end))

abbrev pub manifest_value : Text → LibraryType → Text → Value
manifest_value name type access_controller = map_of (
    Fields.field (lit "name") (text name) (
      Fields.field (lit "type") (text (type_text type))
        (Fields.field (lit "accessController") (text access_controller) Fields.end)))

pub record AcChain : Type 0 where
  pub address : Text
  pub write_list : AcChainObject
  pub wrapper : AcChainObject
  pub manifest : AcChainObject

unfoldable pub build_ac_chain :
    Host → (name : Text) → LibraryType → (write_keys : List Text) → AcChain
build_ac_chain host name type write_keys =
    let write_list = object host (write_list_value write_keys) in
    let wrapper = object host (wrapper_value write_list.cid) in
    let manifest = object host (manifest_value name type wrapper.cid) in
    record {
      address = build_library_address manifest.cid name;
      write_list = write_list;
      wrapper = wrapper;
      manifest = manifest;
    }

unfoldable pub derive_library_address :
    Host → (key : Text) → LibraryType → (discriminator : Text) → Text
derive_library_address host key type discriminator =
    (build_ac_chain host discriminator type (key ∷ [])).address

unfoldable pub identity_library_address : Host → Text → Text
identity_library_address host key = derive_library_address host key identity (lit "identity")

abbrev pub put_object : AcChainObject → Dict Bytes → Dict Bytes
put_object o store = Dict.set o.cid o.bytes store

abbrev pub cids_of : AcChain → AcChainCids
cids_of chain = record {
  manifest = chain.manifest.cid;
  wrapper = chain.wrapper.cid;
  write_list = chain.write_list.cid;
}

-- The store after the three puts, and the chain that was put.
unfoldable pub create_ac_chain :
    Host
    → (name : Text) → LibraryType
    → (write_keys : List Text) → Dict Bytes
    → Result (Dict Bytes × AcChain)
create_ac_chain host name type write_keys store = do
  checked ← validate_library_name name
  require (every is_pubkey_text write_keys) invalid_public_key
  let chain = build_ac_chain host name type write_keys
  ok (
    put_object chain.manifest (put_object chain.wrapper (put_object chain.write_list store)),
    chain,
  )

-- An object that does not decode is refused whatever the reason.
abbrev pub or_rejected : Result Value → Result Value
or_rejected (err _) = err library_rejected
or_rejected (ok value) = ok value

-- `get` of a block store, where a throw is a miss.
abbrev pub BlockGet : Type 0
BlockGet = Text → Option Bytes

unfoldable pub fetch_object : Host → BlockGet → Text → Result Value
fetch_object host get cid = do
  bytes ← required (get cid) library_unopenable
  or_rejected (decode_canonical host bytes)

unfoldable pub has_exact_fields : Fields → List Text → Bool
has_exact_fields value fields =
    length (field_names value) == length fields && every (includes (field_names value)) fields

abbrev pub exact : List Text → Option Fields → Result Fields
exact names none = err library_rejected
exact names (some fields) = require (has_exact_fields fields names) library_rejected >> ok fields

unfoldable pub read_manifest : Value → Result (Text × (LibraryType × Text))
read_manifest v = do
  manifest ← exact (lit "name" ∷ lit "type" ∷ lit "accessController" ∷ []) (as_record v)
  name ← required (as_text (get_field (lit "name") manifest)) library_rejected
  type_name ← required (as_text (get_field (lit "type") manifest)) library_rejected
  type ← required (type_of_text type_name) library_rejected
  access_controller ←
      required (as_text (get_field (lit "accessController") manifest)) library_rejected
  ok (name, (type, access_controller))

unfoldable pub read_wrapper : Value → Result Text
read_wrapper v = do
  wrapper ← exact (lit "params" ∷ lit "type" ∷ []) (as_record v)
  type ← required (as_text (get_field (lit "type") wrapper)) library_rejected
  params ← exact (lit "address" ∷ []) (fields_of (get_field (lit "params") wrapper))
  address ← required (as_text (get_field (lit "address") params)) library_rejected
  require (text_eq type (lit "static")) unsupported_ac_type
  ok address

-- Every element is a public key.
unfoldable pub read_keys : List Value → Result (List Text)
read_keys [] = ok []
read_keys (v ∷ vs) =
    let rest = read_keys vs in
    do
      key ← required (as_text (some v)) library_rejected
      require (is_pubkey_text key) library_rejected
      keys ← rest
      ok (key ∷ keys)

unfoldable pub read_write_list : Value → Result (List Text)
read_write_list v = do
  fields ← exact (lit "write" ∷ []) (as_record v)
  vs ← required (as_array (get_field (lit "write") fields)) library_rejected
  read_keys vs

unfoldable pub resolve_parts : Host → BlockGet → Text → Text → Text → Result ResolvedAcChain
resolve_parts host get library_address manifest_cid name = do
  manifest ← fetch_object host get manifest_cid
  (manifest_name, (type, wrapper_cid)) ← read_manifest manifest
  require (text_eq manifest_name name) library_rejected
  wrapper ← fetch_object host get wrapper_cid
  write_list_cid ← read_wrapper wrapper
  write_list ← fetch_object host get write_list_cid
  keys ← read_write_list write_list
  ok (record {
    address = library_address;
    name = name;
    type = type;
    write_list = keys;
    cids = record { manifest = manifest_cid; wrapper = wrapper_cid; write_list = write_list_cid };
  })

unfoldable pub resolve_ac_chain : Host → BlockGet → Text → Result ResolvedAcChain
resolve_ac_chain host get library_address = do
  (manifest_cid, name) ← parse_library_address host library_address
  resolve_parts host get library_address manifest_cid name
