-- ===== src/Tests.antt =====
-- Runs of the model on small inputs, and the theorems at such inputs.
mod Encoded
mod Store
mod Exchange
mod Announced
mod Guards
use record_node.Prelude.{
  ◌+◌, zero, ℕ, Text, lit, ◌≡◌, refl, sym, ap, ◌∙◌, Bool, true, false, Option, some, none, List, [],
  ◌∷◌, In, inl, inr, ◌↔◌, ◌≤◌, ◌<◌, arith, any, length, text_eq,
}
use record_node.Dict
use record_node.TextSet
use record_node.Value.{Value, text, as_text}
use record_node.Encoding.Cid.{is_cid_string}
use record_node.Entry.{VerifiedEntry, recordstore}
use record_node.Result.{ok, ◌>>=◌}
use record_node.Oplog.{create_oplog, insert_entry}
use record_node.Oplog.Order.{resolve_current_state}
use record_node.Oplog.Identities.{RecordedLibrary, identity_library_state}
use record_node.Oplog.Identities.Recorded.{IsRecordedIn, identity_library_state-IsRecordedIn}
use record_node.Oplog.Order.Resolve.{resolve_order_independent}
use record_node.Oplog.Causal.{in_causal_past, Past}
use record_node.Oplog.Causal.Decides.{in_causal_past_decides}
use record_node.Oplog.Index.{IsIndexed, create_oplog-IsIndexed, insert_entry-IsIndexed}
use record_node.Oplog.Heads.{compute_heads, insert_all, insert_all-eq-compute_heads}
use record_node.Oplog.Append.{select_next, reaches, max_cited_heads}
use record_node.Oplog.Citing.{select_next-heads}
use record_node.Oplog.Merge.{merge_entries}
use record_node.Oplog.Consistent.{IsConsistent}
use record_node.Oplog.Reachable.{created, merged, Reachable-IsConsistent}
use record_node.Oplog.Verified.{Verified, begun, merge_verified, Verified-AllGranted}
use record_node.Oplog.Authorised.{AllGranted}
use record_node.Oplog.Accounted.{IsSettledBlock, merge_entries-IsSettledBlock}
use record_node.Entry.Signed.{decode_signed_entry}
use record_node.Access.Capability.{capability_chain, capability_value}
use record_node.Access.Delegation.{Stored, IsDelegation, capability_chain-IsDelegation}
use record_node.Access.Filter.Shapes.{max_spec_depth}
use record_node.Access.Filter.Evaluate.{filter_matches}
use record_node.Access.Filter.FailClosed.{top, IsKnown, filter_matches-IsKnown}
use record_node.Encoding.LibraryAddress.{build_library_address, parse_library_address}
use record_node.Encoding.LibraryAddress.RoundTrip.{IsParts, parse-build, build-parse}
use record_node.Replication.Traversal.{create_traversal, enqueue, on_answer}
use record_node.Replication.Traversal.Invariant.{IsSound}
use record_node.Replication.Traversal.Runs.{Run, enqueued, answered, Run-IsSound}
use record_node.Access.Chain.{create_ac_chain, resolve_ac_chain}
use record_node.Access.Chain.RoundTrip.{put_all, opened, IsReadBack, AreDistinct, create-resolve}
use record_node.Entry.Records.{label_state_key, label_pair_of, about_key, about_value}
use record_node.Entry.LabelKeys.{label_pair_of-label_state_key}
use record_node.Entry.Payloads.{envelope_value, build_track_envelope}
use record_node.Entry.Operations.{build_about_put, build_put_operation, validate_operation}
use record_node.Entry.Written.{put_value, validate-about_put, validate-track_put}
use record_node.Replication.Heads.{overhead, json_bytes, encode_heads_batches, receive_all}
use record_node.Replication.Heads.Assembled.{receive_all-encode}
use record_node.Examples.{
  claim_entry, retiring, track_id, track, about, music_chain, chain_host, owner, two_at_once,
  three_told, host, chain, granting, grant_block, grant_value, grant_entry, first_listen,
  second_listen, track_filter, track_subject,
}

granting-holds : Dict.get grant_entry.hash granting.entries ≡ some grant_entry
unfolding record_node.Prelude.text_eq record_node.Prelude.sort_by
    record_node.Oplog.Merge.decode_blocks record_node.Oplog.Merge.take_admitted
    record_node.Oplog.Merge.admit_entry record_node.Oplog.Merge.admit_all
    record_node.Oplog.Merge.merged_keys record_node.Oplog.Merge.settle
    record_node.Oplog.Merge.admitted_batch record_node.Oplog.Merge.insert_blocks
    record_node.Oplog.Merge.merge_entries record_node.Oplog.Accept.check_entry
    record_node.Oplog.Accept.state_keys_of record_node.Oplog.Accept.greatest_clock
    record_node.Oplog.Accept.expected_clock_time record_node.Oplog.Accept.assert_clock
    record_node.Oplog.Accept.as_verified record_node.Oplog.Accept.verify_entry
    record_node.Oplog.Refresh.refresh_access_state record_node.Oplog.create_oplog
    record_node.Oplog.insert_entry record_node.Oplog.refresh_current_state
    record_node.Entry.Signed.assert_signed_entry_shape record_node.Entry.Signed.signed_value
    record_node.Entry.Signed.decode_signed_entry record_node.Entry.Signed.verify_entry_signature
    record_node.Entry.Operations.is_v1_envelope record_node.Entry.Operations.validate_record_put
    record_node.Entry.Operations.validate_record_operation
    record_node.Entry.Operations.validate_operation
    record_node.Encoding.Canonical.assert_signed_entry_size
    record_node.Encoding.Canonical.decode_canonical record_node.Encoding.Cid.compute_cid_string
    record_node.Access.Records.access_record_type record_node.Access.Records.record_key
    record_node.Access.Records.grantee_shape record_node.Access.Records.validate_access_record
    record_node.Access.Records.array_of record_node.Access.Filter.Shapes.worst_shape
    record_node.Access.Filter.Shapes.known record_node.Identity.is_compressed_pubkey
    record_node.Identity.hex record_node.Value.uint record_node.Value.get_field
    record_node.Value.field_names record_node.Value.as_record record_node.Value.as_array
    record_node.Value.is_uint record_node.Value.is_text record_node.Value.includes
    record_node.Dict.get record_node.Dict.set record_node.TextSet.has record_node.TextSet.add_all
    record_node.Access.Authorise.authorise_entry
granting-holds = refl

grant-Stored : Stored granting grant_entry.hash grant_entry grant_value
unfolding capability_value
grant-Stored = record { held = granting-holds; is_capability = refl }

granting-Verified : Verified host granting
granting-Verified = merge_verified (create_oplog chain) (grant_block ∷ []) (begun chain)

Reachable-IsConsistent_example : IsConsistent granting
Reachable-IsConsistent_example =
    Reachable-IsConsistent host granting
      (merged (create_oplog chain) (grant_block ∷ []) (created chain))

Verified-AllGranted_example : AllGranted host granting
Verified-AllGranted_example = Verified-AllGranted host granting granting-Verified

capability_chain-IsDelegation_example :
    IsDelegation granting grant_entry.hash (capability_chain granting (some grant_entry.hash))
capability_chain-IsDelegation_example =
    capability_chain-IsDelegation host granting granting-Verified grant_entry.hash grant_entry
      grant_value grant-Stored

merge_entries-IsSettledBlock_example :
    IsSettledBlock host grant_block
      (decode_signed_entry host grant_block)
      granting
      (merge_entries host (create_oplog chain) (grant_block ∷ [])).1.rejected
merge_entries-IsSettledBlock_example =
    merge_entries-IsSettledBlock host (create_oplog chain) (grant_block ∷ []) grant_block (inl refl)

swapped :
    (x : VerifiedEntry)
    → In x (first_listen ∷ second_listen ∷ []) ↔ In x (second_listen ∷ first_listen ∷ [])
swapped x = ground arith

apart : lit "a" ≡ lit "b" → ⊥
unfolding record_node.Prelude.text_eq
apart h = let tests : true ≡ false = ap (λ t. text_eq t (lit "a")) h in absurd (cc (tests))

one_of_two :
    (x y : VerifiedEntry)
    → In x (first_listen ∷ second_listen ∷ [])
    → In y (first_listen ∷ second_listen ∷ [])
    → x.multihash ≡ y.multihash
    → x ≡ y
one_of_two x y (inl e) (inl f) h = cc
one_of_two x y (inl e) (inr (inl f)) h =
    absurd (apart (sym (ap (λ z. z.multihash) e) ∙ h ∙ ap (λ z. z.multihash) f))
one_of_two x y (inr (inl e)) (inl f) h =
    absurd (apart (sym (ap (λ z. z.multihash) f) ∙ sym h ∙ ap (λ z. z.multihash) e))
one_of_two x y (inr (inl e)) (inr (inl f)) h = cc
one_of_two x y (inr (inr e)) n h = absurd e
one_of_two x y n (inr (inr e)) h = absurd e

resolve_order_independent_example :
    resolve_current_state (first_listen ∷ second_listen ∷ [])
    ≡ resolve_current_state (second_listen ∷ first_listen ∷ [])
resolve_order_independent_example =
    resolve_order_independent (first_listen ∷ second_listen ∷ [])
      (second_listen ∷ first_listen ∷ []) swapped one_of_two

in_causal_past_decides_example :
    (in_causal_past granting.entries grant_entry.hash (grant_entry.hash ∷ []) ≡ true)
    ↔ ∥ Past granting.entries (grant_entry.hash ∷ []) grant_entry.hash ∥₁
in_causal_past_decides_example =
    in_causal_past_decides granting.entries grant_entry.hash (grant_entry.hash ∷ [])
      (Reachable-IsConsistent_example.clocked) (rw granting-holds refl)

one_hash :
    (x y : VerifiedEntry)
    → In x (first_listen ∷ second_listen ∷ [])
    → In y (first_listen ∷ second_listen ∷ [])
    → x.hash ≡ y.hash
    → x ≡ y
one_hash x y (inl e) (inl f) h = cc
one_hash x y (inl e) (inr (inl f)) h =
    absurd (apart (sym (ap (λ z. z.hash) e) ∙ h ∙ ap (λ z. z.hash) f))
one_hash x y (inr (inl e)) (inl f) h =
    absurd (apart (sym (ap (λ z. z.hash) f) ∙ sym h ∙ ap (λ z. z.hash) e))
one_hash x y (inr (inl e)) (inr (inl f)) h = cc
one_hash x y (inr (inr e)) n h = absurd e
one_hash x y n (inr (inr e)) h = absurd e

insert_all-eq-compute_heads_example :
    TextSet.has
      (lit "b")
      (insert_all (first_listen ∷ second_listen ∷ []) (create_oplog chain)).heads
    ≡ TextSet.has (lit "b") (compute_heads (first_listen ∷ second_listen ∷ []))
insert_all-eq-compute_heads_example =
    insert_all-eq-compute_heads chain (first_listen ∷ second_listen ∷ []) one_hash (lit "b")

select_next-heads_example :
    (length (select_next granting none) ≤ max_cited_heads)
    × ((h : Text) → In h (select_next granting none) → In h granting.heads)
    × ((h : Text)
        → In h granting.heads
        → reaches granting none h ≡ true
        → any (reaches granting none) (select_next granting none) ≡ true)
select_next-heads_example = select_next-heads granting none

three_told-starts_two : length three_told.in_flight ≡ 2
unfolding enqueue record_node.Replication.Traversal.add record_node.Replication.Traversal.add_one
    record_node.Replication.Traversal.pump record_node.Replication.Traversal.pump_queue
    record_node.Replication.Traversal.start create_traversal Dict.get Dict.set TextSet.has
    TextSet.add record_node.Prelude.text_eq
three_told-starts_two = refl

Run-IsSound_example : IsSound two_at_once (on_answer two_at_once (lit "a") 0 (some []) three_told)
Run-IsSound_example =
    Run-IsSound two_at_once (on_answer two_at_once (lit "a") 0 (some []) three_told) (
      answered two_at_once three_told (lit "a") 0 (some []) (
        enqueued two_at_once create_traversal (lit "a" ∷ lit "b" ∷ lit "c" ∷ [])
          (Run.created two_at_once)))

abbrev two_cids : List Text
two_cids = lit "zabcdef" ∷ lit "zghijkl" ∷ []

two_cids-are : (h : Text) → In h two_cids → is_cid_string chain_host (some (text h)) ≡ true
unfolding is_cid_string as_text
two_cids-are h m = refl

two_cids-fit : (h : Text) → In h two_cids → overhead + json_bytes h ≤ 60
unfolding json_bytes record_node.Prelude.code_points record_node.Prelude.utf8_point
two_cids-fit h m = elim m [
  | inl same ↦ rw same (omega arith)
  | inr (inl same) ↦ rw same (omega arith)
  | inr (inr nowhere) ↦ absurd nowhere
]

receive_all-encode_example :
    receive_all chain_host (lit "peer") (encode_heads_batches 60 two_cids) [] ≡ two_cids ∷ []
receive_all-encode_example =
    receive_all-encode chain_host 60 (lit "peer") two_cids [] (omega arith) (omega arith)
      two_cids-fit two_cids-are (unfold record_node.Replication.Heads.pending_of Dict.get in refl)
      (omega arith)

abbrev retired_library : RecordedLibrary
retired_library = record { retired = true; first_put = claim_entry }

identity_library_state-retiring :
    Dict.get (lit "music") (identity_library_state retiring).libraries ≡ some retired_library
unfolding identity_library_state Dict.get record_node.Oplog.Order.least_entry insert_entry
    create_oplog Dict.set text_eq record_node.Oplog.entries_at TextSet.add
identity_library_state-retiring = refl

identity_library_state-IsRecordedIn_example :
    IsRecordedIn retiring retiring.key_entries (lit "music") retired_library
identity_library_state-IsRecordedIn_example =
    identity_library_state-IsRecordedIn retiring (lit "music") retired_library
      identity_library_state-retiring
