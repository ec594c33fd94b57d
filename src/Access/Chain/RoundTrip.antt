-- ===== src/Access/Chain/RoundTrip.antt =====
-- A library that create_ac_chain made opens as what it was made with.
use record_node.Prelude.{
  Text, Bytes, text_eq, text_eq_refl, ◌≡◌, refl, ap, ◌∙◌, true, false, Option, some, List, arith,
  every,
}
use record_node.Dict
use record_node.Dict.{Dict, get-set}
use record_node.Value.{text}
use record_node.Entry.{LibraryType}
use record_node.Result.{
  ok, require, ◌>>◌, invalid_library_name, invalid_public_key, >>=-eq-ok, require-eq-ok,
}
use record_node.Host.{Host}
use record_node.Identity.{is_pubkey_text}
use record_node.Encoding.Cid.{is_cid_string}
use record_node.Encoding.LibraryAddress.{
  validate_library_name, has_separator, is_name_char, parse_library_address, build_library_address,
}
use record_node.Encoding.LibraryAddress.RoundTrip.{parse-build}
use record_node.Oplog.{ResolvedAcChain}
use record_node.Access.Chain.{
  AcChainObject, object, write_list_value, wrapper_value, manifest_value, AcChain, build_ac_chain,
  put_object, cids_of, create_ac_chain, fetch_object, resolve_parts, resolve_ac_chain,
}
use record_node.Access.Chain.ReadBack.{
  wrapper_read, fetch_object-stored, name-separator, read_manifest-value, read_wrapper-value,
  read_write_list-value,
}

-- The store gives back the three objects of a chain, and they decode to what was encoded.
record IsKept (host : Host) (name : Text) (type : LibraryType) (keys : List Text)
    (get : Text → Option Bytes) : Type 0 where
  write_list :
      fetch_object host get (build_ac_chain host name type keys).write_list.cid
      ≡ ok (write_list_value keys)
  wrapper :
      fetch_object host get (build_ac_chain host name type keys).wrapper.cid
      ≡ ok (wrapper_read (build_ac_chain host name type keys).write_list.cid)
  manifest :
      fetch_object host get (build_ac_chain host name type keys).manifest.cid
      ≡ ok (manifest_value name type (build_ac_chain host name type keys).wrapper.cid)

-- What opens: the name, the type and the keys that a chain was built of, under its address.
abbrev pub opened : Host → Text → LibraryType → List Text → ResolvedAcChain
opened host name type keys =
    let chain = build_ac_chain host name type keys in
    record {
      address = chain.address;
      name = name;
      type = type;
      write_list = keys;
      cids = cids_of chain;
    }

resolve_parts-IsKept :
    (host : Host) (name : Text) (type : LibraryType) (keys : List Text) (get : Text → Option Bytes)
    → every is_pubkey_text keys ≡ true
    → IsKept host name type keys get
    → resolve_parts host get
        (build_ac_chain host name type keys).address
        (build_ac_chain host name type keys).manifest.cid
        name
      ≡ ok (opened host name type keys)
unfolding resolve_parts
resolve_parts-IsKept host name type keys get valid kept =
    let chain = build_ac_chain host name type keys in
    rw kept.manifest (
      rw (read_manifest-value name type chain.wrapper.cid) (
        rw (text_eq_refl name) (
          rw kept.wrapper (
            rw (read_wrapper-value chain.write_list.cid)
              (rw kept.write_list (rw (read_write_list-value keys valid) refl))))))

-- The codec on the three objects of a chain: each decodes from its encoding with its keys in the codec's
-- order, and the wrapper, whose keys are not built in that order, encodes alike in either.
pub record IsReadBack (host : Host) (name : Text) (type : LibraryType) (keys : List Text)
    : Type 0 where
  pub write_list : host.decode (host.encode (write_list_value keys)) ≡ some (write_list_value keys)
  pub wrapper :
      let cid = (build_ac_chain host name type keys).write_list.cid in
      host.decode (host.encode (wrapper_value cid)) ≡ some (wrapper_read cid)
  pub wrapper_order :
      let cid = (build_ac_chain host name type keys).write_list.cid in
      host.encode (wrapper_read cid) ≡ host.encode (wrapper_value cid)
  pub manifest :
      let value = manifest_value name type (build_ac_chain host name type keys).wrapper.cid in
      host.decode (host.encode value) ≡ some value

-- The CIDs of the three objects differ, and that of the manifest parses and has no separator.
pub record AreDistinct (host : Host) (chain : AcChain) : Type 0 where
  pub write_list_wrapper : text_eq chain.wrapper.cid chain.write_list.cid ≡ false
  pub write_list_manifest : text_eq chain.manifest.cid chain.write_list.cid ≡ false
  pub wrapper_manifest : text_eq chain.manifest.cid chain.wrapper.cid ≡ false
  pub parses : is_cid_string host (some (text chain.manifest.cid)) ≡ true
  pub whole : has_separator chain.manifest.cid ≡ false

-- The store after the three puts.
abbrev pub put_all : AcChain → Dict Bytes → Dict Bytes
put_all made store =
    put_object made.manifest (put_object made.wrapper (put_object made.write_list store))

get_put :
    (o : AcChainObject) (store : Dict Bytes) → Dict.get o.cid (put_object o store) ≡ some o.bytes
get_put o store = ground (arith, get-set o.cid o.cid o.bytes store, text_eq_refl o.cid)

get_put_other :
    (o : AcChainObject) (cid : Text) (store : Dict Bytes)
    → text_eq o.cid cid ≡ false
    → Dict.get cid (put_object o store) ≡ Dict.get cid store
get_put_other o cid store d = ground (arith, get-set o.cid cid o.bytes store)

module _ (host : Host) (name : Text) (type : LibraryType) (keys : List Text) where
  abbrev chain : AcChain
  chain = build_ac_chain host name type keys

  write_list-bytes : chain.write_list.bytes ≡ host.encode (write_list_value keys)
  unfolding build_ac_chain object
  write_list-bytes = refl

  wrapper-bytes : chain.wrapper.bytes ≡ host.encode (wrapper_value chain.write_list.cid)
  unfolding build_ac_chain object
  wrapper-bytes = refl

  manifest-bytes : chain.manifest.bytes ≡ host.encode (manifest_value name type chain.wrapper.cid)
  unfolding build_ac_chain object
  manifest-bytes = refl

  chain-address : chain.address ≡ build_library_address chain.manifest.cid name
  unfolding build_ac_chain object
  chain-address = refl

stored-IsKept :
    (host : Host) (name : Text) (type : LibraryType) (keys : List Text) (store : Dict Bytes)
    → IsReadBack host name type keys
    → AreDistinct host (build_ac_chain host name type keys)
    → IsKept host name type keys
        (λ cid. Dict.get cid (put_all (build_ac_chain host name type keys) store))
stored-IsKept host name type keys store back apart =
    let built = build_ac_chain host name type keys in
    let first = put_object built.write_list store in
    let second = put_object built.wrapper first in
    let get : Text → Option Bytes = λ cid. Dict.get cid (put_object built.manifest second) in
    record {
      write_list =
          fetch_object-stored host get (write_list_value keys) (write_list_value keys)
            built.write_list.cid
            (get_put_other built.manifest built.write_list.cid second apart.write_list_manifest
              ∙ get_put_other built.wrapper built.write_list.cid first apart.write_list_wrapper
              ∙ get_put built.write_list store
              ∙ ap some (write_list-bytes host name type keys))
            back.write_list refl;
      wrapper =
          fetch_object-stored host get (wrapper_value built.write_list.cid)
            (wrapper_read built.write_list.cid) built.wrapper.cid
            (get_put_other built.manifest built.wrapper.cid second apart.wrapper_manifest
              ∙ get_put built.wrapper first
              ∙ ap some (wrapper-bytes host name type keys))
            back.wrapper back.wrapper_order;
      manifest =
          fetch_object-stored host get (manifest_value name type built.wrapper.cid)
            (manifest_value name type built.wrapper.cid) built.manifest.cid
            (get_put built.manifest second ∙ ap some (manifest-bytes host name type keys))
            back.manifest refl;
    }

resolve-IsKept :
    (host : Host) (name : Text) (type : LibraryType) (keys : List Text) (get : Text → Option Bytes)
    → every is_name_char name ≡ true
    → every is_pubkey_text keys ≡ true
    → AreDistinct host (build_ac_chain host name type keys)
    → IsKept host name type keys get
    → resolve_ac_chain host get (build_ac_chain host name type keys).address
      ≡ ok (opened host name type keys)
unfolding resolve_ac_chain
resolve-IsKept host name type keys get named valid apart kept =
    let built = build_ac_chain host name type keys in
    let parsed : parse_library_address host built.address ≡ ok (built.manifest.cid, name) =
      ap (parse_library_address host) (chain-address host name type keys)
      ∙ parse-build host built.manifest.cid name apart.parses apart.whole
          (name-separator name named) in
    rw parsed (resolve_parts-IsKept host name type keys get valid kept)

-- If the encodings of a new chain's three objects decode to them with their keys in the codec's order,
-- their CIDs differ and that of the manifest is a CID string without a separator, then the address that
-- create_ac_chain made resolves, against the store that it wrote, to a chain with the name, the type and
-- the write list that were given.
pub create-resolve :
    (host : Host) (name : Text) (type : LibraryType) (keys : List Text) (store : Dict Bytes)
    (stored : Dict Bytes) (made : AcChain)
    → create_ac_chain host name type keys store ≡ ok (stored, made)
    → IsReadBack host name type keys
    → AreDistinct host (build_ac_chain host name type keys)
    → resolve_ac_chain host (λ cid. Dict.get cid stored) made.address
      ≡ ok (opened host name type keys)
unfolding create_ac_chain resolve_ac_chain validate_library_name
create-resolve host name type keys store stored made h back apart =
    let (_, checked, h2) =
      >>=-eq-ok (require (every is_name_char name) invalid_library_name >> ok name) _ h in
    let (_, named, _) =
      >>=-eq-ok (require (every is_name_char name) invalid_library_name) _ checked in
    let (_, valid, h3) = >>=-eq-ok (require (every is_pubkey_text keys) invalid_public_key) _ h2 in
    let made_built : made ≡ build_ac_chain host name type keys = cc in
    let stored_all : stored ≡ put_all (build_ac_chain host name type keys) store = cc in
    rw made_built (
      rw stored_all (
        resolve-IsKept host name type keys
          (λ cid. Dict.get cid (put_all (build_ac_chain host name type keys) store))
          (require-eq-ok (every is_name_char name) invalid_library_name named)
          (require-eq-ok (every is_pubkey_text keys) invalid_public_key valid) apart
          (stored-IsKept host name type keys store back apart)))
