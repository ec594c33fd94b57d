-- ===== src/Tests/Encoded.antt =====
-- Filters, addresses, chains and operations on small inputs, and the theorems there.
use record_node.Prelude.{
  ℕ, Text, lit, ◌≡◌, refl, sym, ap, ◌∙◌, Bool, true, false, Option, some, none, List, [], ◌∷◌, In,
  inl, inr, ◌↔◌, ◌≤◌, ◌<◌, arith, any, length, text_eq,
}
use record_node.Dict
use record_node.Value.{Value}
use record_node.Entry.{recordstore}
use record_node.Result.{ok, ◌>>=◌}
use record_node.Access.Filter.Shapes.{max_spec_depth}
use record_node.Access.Filter.Evaluate.{filter_matches}
use record_node.Access.Filter.FailClosed.{top, IsKnown, filter_matches-IsKnown}
use record_node.Encoding.LibraryAddress.{build_library_address, parse_library_address}
use record_node.Encoding.LibraryAddress.RoundTrip.{IsParts, parse-build, build-parse}
use record_node.Access.Chain.{create_ac_chain, resolve_ac_chain}
use record_node.Access.Chain.RoundTrip.{put_all, opened, IsReadBack, AreDistinct, create-resolve}
use record_node.Entry.Records.{label_state_key, label_pair_of, about_key, about_value}
use record_node.Entry.LabelKeys.{label_pair_of-label_state_key}
use record_node.Entry.Payloads.{envelope_value, build_track_envelope}
use record_node.Entry.Operations.{build_about_put, build_put_operation, validate_operation}
use record_node.Entry.Written.{put_value, validate-about_put, validate-track_put}
use record_node.Examples.{
  track_id, track, about, music_chain, chain_host, owner, host, track_filter, track_subject,
}

track_filter-matches : filter_matches (some track_filter) track_subject ≡ true
unfolding record_node.Prelude.text_eq record_node.Prelude.split_at
    record_node.Access.Filter.Shapes.known record_node.Access.Filter.Shapes.match_shape
    record_node.Access.Filter.Shapes.filter_shape record_node.Access.Filter.Evaluate.evaluate
    record_node.Access.Filter.Evaluate.filter_matches record_node.Value.get_field
    record_node.Value.field_names record_node.Value.field_values record_node.Value.as_record
    record_node.Value.as_text record_node.Value.includes record_node.Value.scalar_eq
    record_node.Value.is_scalar
track_filter-matches = refl

filter_matches-IsKnown_example : (0 < max_spec_depth) × IsKnown track_filter
filter_matches-IsKnown_example =
    filter_matches-IsKnown track_filter track_subject track_filter 0 track_filter-matches top

parse-build_example :
    parse_library_address host (build_library_address (lit "zm") (lit "name"))
    ≡ ok (lit "zm", lit "name")
parse-build_example =
    parse-build host (lit "zm") (lit "name")
      (unfold record_node.Encoding.Cid.is_cid_string record_node.Value.as_text in refl) refl refl

address_parses : parse_library_address host (lit "/record/zm/name") ≡ ok (lit "zm", lit "name")
unfolding record_node.Value.as_text record_node.Encoding.LibraryAddress.after_prefix
    record_node.Encoding.LibraryAddress.at_separator
    record_node.Encoding.LibraryAddress.split_address
    record_node.Encoding.LibraryAddress.check_parts
    record_node.Encoding.LibraryAddress.parse_library_address record_node.Encoding.Cid.is_cid_string
address_parses = refl

build-parse_example :
    (lit "/record/zm/name" ≡ build_library_address (lit "zm") (lit "name"))
    × IsParts host (lit "zm") (lit "name")
build-parse_example =
    build-parse host (lit "/record/zm/name") (lit "zm") (lit "name") address_parses

music_chain-made :
    create_ac_chain chain_host (lit "music") recordstore (owner ∷ []) []
    ≡ ok (put_all music_chain [], music_chain)
unfolding record_node.Encoding.LibraryAddress.validate_library_name
    record_node.Access.Chain.create_ac_chain record_node.Identity.is_compressed_pubkey
music_chain-made = refl

music_chain-IsReadBack : IsReadBack chain_host (lit "music") recordstore (owner ∷ [])
unfolding record_node.Encoding.Cid.compute_cid_string record_node.Access.Chain.object
    record_node.Access.Chain.build_ac_chain
music_chain-IsReadBack = record {
  write_list = refl;
  wrapper = refl;
  wrapper_order = refl;
  manifest = refl;
}

music_chain-AreDistinct : AreDistinct chain_host music_chain
unfolding record_node.Encoding.Cid.compute_cid_string record_node.Encoding.Cid.is_cid_string
    record_node.Access.Chain.object record_node.Access.Chain.build_ac_chain
    record_node.Prelude.text_eq record_node.Value.as_text
music_chain-AreDistinct = record {
  write_list_wrapper = refl;
  write_list_manifest = refl;
  wrapper_manifest = refl;
  parses = refl;
  whole = refl;
}

create-resolve_example :
    resolve_ac_chain chain_host (λ cid. Dict.get cid (put_all music_chain [])) music_chain.address
    ≡ ok (opened chain_host (lit "music") recordstore (owner ∷ []))
create-resolve_example =
    create-resolve chain_host (lit "music") recordstore (owner ∷ []) [] (put_all music_chain [])
      music_chain music_chain-made music_chain-IsReadBack music_chain-AreDistinct

label_pair_of-label_state_key_example :
    label_pair_of (label_state_key (track_id, lit "live")) ≡ (track_id, lit "live")
label_pair_of-label_state_key_example =
    label_pair_of-label_state_key track_id (lit "live")
      (unfold record_node.Identity.is_track_id in refl)

validate-about_put_example :
    validate_operation host (put_value (about_key host) (about_value about) none) recordstore true
    ≡ build_about_put host about none
validate-about_put_example = validate-about_put host about none true

validate-track_put_example :
    validate_operation host
      (put_value track.id (envelope_value track) (some (lit "c")))
      recordstore
      false
    ≡ (build_track_envelope track.id track.content track.timestamp >>= λ built.
        ok (build_put_operation built (some (lit "c"))))
validate-track_put_example = validate-track_put host track (some (lit "c")) false
