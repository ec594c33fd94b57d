-- ===== src/Tests/Announced.antt =====
-- An announcement that is encoded, read back and verified on small inputs, and the theorems there.
use record_node.Prelude.{
  ℕ, Text, Bytes, lit, ◌≡◌, refl, sym, ◌⊎◌, inl, inr, Bool, true, false, Option, some, none, List,
  [], ◌∷◌, In, arith,
}
use mathlib.Core.Path.{subst}
use record_node.Dict
use record_node.Value.{Value, Fields, text, map_of}
use record_node.Entry.{SignedEntry, recordstore}
use record_node.Entry.Records.{about_key, about_value}
use record_node.Entry.Signed.{signed_value, hash_signed_entry}
use record_node.Access.Chain.{resolve_ac_chain}
use record_node.Access.Chain.RoundTrip.{put_all, opened}
use record_node.Replication.Heads.{Data}
use record_node.Replication.Announcements.{VerifiedLibrary, verify_announced_library}
use record_node.Replication.Announcements.Trusted.{
  IsTrustedLibrary, verify_announced_library-IsTrusted,
}
use record_node.Replication.AnnouncementMessages.{
  AnnouncedLibrary, Announcement, announced_entry, announcement_data, encode_announcement,
  decode_announcement,
}
use record_node.Replication.AnnouncementMessages.Fitting.{IsFitting, encode_announcement-IsFitting}
use record_node.Replication.AnnouncementMessages.RoundTrip.{IsSendable, decode-announcement_data}
use record_node.Examples.{chain_host, music_chain, owner, about}

abbrev about_payload : Value
about_payload = map_of (
    Fields.field (lit "op") (text (lit "PUT")) (
      Fields.field (lit "key") (text (about_key chain_host))
        (Fields.field (lit "value") (map_of (about_value about)) Fields.end)))

abbrev about_signed : SignedEntry
about_signed = record {
  unsigned = record {
    id = music_chain.address;
    payload = about_payload;
    next = [];
    refs = [];
    clock = record { id = owner; time = 1 };
  };
  key = owner;
  sig = lit "s";
}

abbrev blocks : Text → Option Bytes
blocks cid = Dict.get cid (put_all music_chain [])

abbrev music_library : VerifiedLibrary
music_library = record {
  chain = opened chain_host (lit "music") recordstore (owner ∷ []);
  about = some (record { hashed = hash_signed_entry chain_host about_signed; value = about });
}

music_library-verified :
    verify_announced_library chain_host blocks music_chain.address
      (some (announced_entry about_signed))
    ≡ some music_library
unfolding Dict.get Dict.set about_key about_value hash_signed_entry
    record_node.Access.Chain.build_ac_chain record_node.Access.Chain.fetch_object
    record_node.Access.Chain.has_exact_fields record_node.Access.Chain.object
    record_node.Access.Chain.read_keys record_node.Access.Chain.read_manifest
    record_node.Access.Chain.read_wrapper record_node.Access.Chain.read_write_list
    record_node.Access.Chain.resolve_ac_chain record_node.Access.Chain.resolve_parts
    record_node.Access.Chain.type_of_text record_node.Access.Chain.type_text
    record_node.Access.Records.access_record_type record_node.Access.Records.array_of
    record_node.Access.Records.record_key record_node.Access.Records.validate_access_record
    record_node.Encoding.Canonical.assert_signed_entry_size
    record_node.Encoding.Canonical.decode_canonical record_node.Encoding.Cid.compute_cid_string
    record_node.Encoding.Cid.is_cid_string record_node.Encoding.LibraryAddress.after_prefix
    record_node.Encoding.LibraryAddress.at_separator
    record_node.Encoding.LibraryAddress.build_library_address
    record_node.Encoding.LibraryAddress.check_parts
    record_node.Encoding.LibraryAddress.parse_library_address
    record_node.Encoding.LibraryAddress.split_address record_node.Entry.Operations.is_v1_envelope
    record_node.Entry.Operations.validate_operation
    record_node.Entry.Operations.validate_record_operation
    record_node.Entry.Operations.validate_record_put record_node.Entry.Records.validate_about_record
    record_node.Entry.Signed.assert_signed_entry_shape
    record_node.Entry.Signed.verify_entry_signature record_node.Entry.Signed.with_hash
    record_node.Identity.hex record_node.Identity.is_compressed_pubkey
    record_node.Identity.is_pubkey_text record_node.Identity.sha256_hex
    record_node.Oplog.Accept.check_entry record_node.Prelude.text_eq
    record_node.Replication.Announcements.verified_entry record_node.TextSet.add_all
    record_node.TextSet.has record_node.Value.as_array record_node.Value.as_record
    record_node.Value.as_text record_node.Value.field_names record_node.Value.get_field
    record_node.Value.includes record_node.Value.is_text record_node.Value.is_uint
    record_node.Value.uint signed_value verify_announced_library record_node.Prelude.utf8
    record_node.Access.Filter.Shapes.has_extra_fields
music_library-verified = refl

verify_announced_library-IsTrusted_example :
    IsTrustedLibrary chain_host blocks music_chain.address music_library
verify_announced_library-IsTrusted_example =
    verify_announced_library-IsTrusted chain_host blocks music_chain.address
      (some (announced_entry about_signed)) music_library music_library-verified

abbrev music : AnnouncedLibrary
music = record { address = music_chain.address; about = some (announced_entry about_signed) }

abbrev announcement : Announcement
announcement = record { libraries = music ∷ []; profiles = [] }

encode_announcement-IsFitting_example :
    IsFitting
      (music ∷ music ∷ [])
      (about_signed ∷ [])
      []
      (λ m. 9)
      1
      (encode_announcement (music ∷ music ∷ []) (about_signed ∷ []) [] (λ m. 9) 1)
encode_announcement-IsFitting_example =
    encode_announcement-IsFitting (music ∷ music ∷ []) (about_signed ∷ []) [] (λ m. 9) 1

abbrev cid_json : Bytes → Value
cid_json cid = map_of (Fields.field (lit "/") (text (lit "z")) Fields.end)

music-IsSendable : IsSendable chain_host music
unfolding record_node.Replication.AnnouncementMessages.Plain.is_plain about_key about_value
    record_node.Value.uint record_node.Value.as_record record_node.Access.Chain.build_ac_chain
    record_node.Access.Chain.object record_node.Encoding.Cid.compute_cid_string
    record_node.Encoding.Cid.is_cid_string record_node.Encoding.LibraryAddress.after_prefix
    record_node.Encoding.LibraryAddress.at_separator
    record_node.Encoding.LibraryAddress.build_library_address
    record_node.Encoding.LibraryAddress.check_parts
    record_node.Encoding.LibraryAddress.parse_library_address
    record_node.Encoding.LibraryAddress.split_address record_node.Value.as_text
music-IsSendable = record {
  addressed = refl;
  about_sent = record { entry = about_signed; carried = refl; mapped = refl; plain = refl };
}

decode-announcement_data_example :
    (sent : Data) × (announcement_data cid_json (λ m. 9) announcement ≡ some sent)
    × (decode_announcement chain_host sent ≡ some announcement)
decode-announcement_data_example =
    decode-announcement_data chain_host cid_json (λ m. 9) announcement (omega arith)
      (λ l m. elim m [
        | inl same ↦ subst (IsSendable chain_host) (sym same) music-IsSendable
        | inr none_left ↦ absurd none_left
      ])
      (λ v m. absurd m)
