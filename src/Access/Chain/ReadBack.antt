-- ===== src/Access/Chain/ReadBack.antt =====
-- What reads back of each object of a chain that was written.
use record_node.Prelude.{
  Text, lit, Bytes, text_eq, text_eq_refl, ◌≡◌, refl, ap, true, false, Option, some, List, [], ◌∷◌,
  arith, every, map,
}
use record_node.Value.{
  Value, Fields, map_of, items, text, get_field, field_names, as_text, as_array, as_record,
  includes,
}
use record_node.Entry.{LibraryType, recordstore, labels, listens, identity}
use record_node.Result.{ok}
use record_node.Host.{Host}
use record_node.Identity.{is_pubkey_text}
use record_node.Encoding.Canonical.{decode_canonical}
use record_node.Encoding.LibraryAddress.{has_separator, is_name_char}
use record_node.Access.Records.{array_of}
use record_node.Access.Chain.{
  type_text, type_of_text, write_list_value, manifest_value, fetch_object, has_exact_fields,
  read_manifest, read_wrapper, read_keys, read_write_list,
}

type_of_text-type_text : (t : LibraryType) → type_of_text (type_text t) ≡ some t
unfolding type_of_text type_text text_eq
type_of_text-type_text recordstore = refl
type_of_text-type_text labels = refl
type_of_text-type_text listens = refl
type_of_text-type_text identity = refl

pub items-array_of : (vs : List Value) → items (array_of vs) ≡ vs
unfolding items array_of
items-array_of [] = refl
items-array_of (v ∷ vs) = ap (◌∷◌ v) (items-array_of vs)

read_keys-map :
    (keys : List Text) → every is_pubkey_text keys ≡ true → read_keys (map text keys) ≡ ok keys
unfolding read_keys as_text
read_keys-map [] h = refl
read_keys-map (k ∷ keys) h = ground (arith, read_keys-map keys)

pub read_write_list-value :
    (keys : List Text)
    → every is_pubkey_text keys ≡ true
    → read_write_list (write_list_value keys) ≡ ok keys
unfolding read_write_list as_record as_array get_field text_eq has_exact_fields field_names includes
read_write_list-value keys h = rw (items-array_of (map text keys)) (read_keys-map keys h)

-- The wrapper as the decoder returns it: dag-cbor orders the keys of a map, shorter keys first.
abbrev pub wrapper_read : Text → Value
wrapper_read address = map_of (
    Fields.field (lit "type") (text (lit "static")) (
      Fields.field (lit "params") (map_of (Fields.field (lit "address") (text address) Fields.end))
        Fields.end))

pub read_wrapper-value : (address : Text) → read_wrapper (wrapper_read address) ≡ ok address
unfolding read_wrapper as_record as_text get_field text_eq has_exact_fields field_names includes
read_wrapper-value address = refl

pub read_manifest-value :
    (name : Text) (type : LibraryType) (cid : Text)
    → read_manifest (manifest_value name type cid) ≡ ok (name, (type, cid))
unfolding read_manifest as_record as_text get_field text_eq has_exact_fields field_names includes
read_manifest-value name type cid = rw (type_of_text-type_text type) refl

pub fetch_object-stored :
    (host : Host) (get : Text → Option Bytes) (value read : Value) (cid : Text)
    → get cid ≡ some (host.encode value)
    → host.decode (host.encode value) ≡ some read
    → host.encode read ≡ host.encode value
    → fetch_object host get cid ≡ ok read
unfolding fetch_object decode_canonical
fetch_object-stored host get value read cid g d e =
    rw g (rw d (rw e (rw (text_eq_refl (host.encode value)) refl)))

pub name-separator : (name : Text) → every is_name_char name ≡ true → has_separator name ≡ false
name-separator [] h = refl
name-separator (c ∷ name) h = ground (arith, name-separator name)
