-- ===== src/Access/Authorise.antt =====
-- access-control/capability.ts: `authorise_entry`, for an entry about to join the oplog: its parents
-- are in the oplog, and the entry is not.
use record_node.Prelude.{
  ℕ, Text, lit, text_eq, Bool, true, false, ◌&&◌, ◌||◌, not, Option, none, some, List, [], ◌∷◌,
  ◌++◌, map, any, every, keep, is_some, if◌then◌else◌, leb, ltb, length,
}
use record_node.Dict
use record_node.Value.{Value, Fields, text, map_of, get_field, as_text, as_array, as_uint, is_text}
use record_node.Entry.{EntryPayload, LibraryType, recordstore, HashedEntry, VerifiedEntry}
use record_node.Result.{
  Result, ok, unauthorised_writer, capability_denied, capability_revoked, capability_expired, ◌>>=◌,
  ◌>>◌, require, required,
}
use record_node.Oplog.{Oplog, is_write_list_key, is_put_op}
use record_node.Oplog.Causal.{in_causal_past}
use record_node.Access.Filter.Shapes.{fields_of}
use record_node.Access.Filter.Evaluate.{filter_matches, list_at, text_at, is_sound}
use record_node.Access.Records.{condition_shape, grantee_matches, capability_fails_closed}
use record_node.Access.Capability.{
  capability_record, cited_capability, capability_chain, effective_revocations, includes_some,
  revoked_capability, max_chain_length,
}

-- The action that authorises a PUT, read from the value as signed.
unfoldable pub covering_action : Text → Option Text
covering_action type =
    if text_eq type (lit "track")
    then some (lit "library.append_track")
    else if text_eq type (lit "labels")
    then some (lit "library.write_label")
    else if text_eq type (lit "about")
    then some (lit "library.update_about")
    else if text_eq type (lit "capability")
    then some (lit "library.grant_capability")
    else none

abbrev first_two : List Value → Fields
first_two [] = Fields.end
first_two (t ∷ []) = Fields.field (lit "track_id") t Fields.end
first_two (t ∷ l ∷ _) = Fields.field (lit "track_id") t (Fields.field (lit "label") l Fields.end)

abbrev pair_of : Option (List Value) → Fields
pair_of none = Fields.end
pair_of (some vs) = first_two vs

-- `{ type: 'label', op, track_id, label }` for one pair.
unfoldable pub label_subject : Text → Value → Value
label_subject op pair = map_of (
    Fields.field (lit "type") (text (lit "label"))
      (Fields.field (lit "op") (text op) (pair_of (as_array (some pair)))))

-- What a capability's filter is evaluated against.
unfoldable pub filter_subjects : Fields → List Value
unfolding label_subject
filter_subjects value =
    let type = text_at (lit "type") value in
    if text_eq type (lit "track") || text_eq type (lit "about")
    then map_of value ∷ []
    else if text_eq type (lit "labels")
    then map (label_subject (lit "set")) (list_at (lit "set") value)
      ++ map (label_subject (lit "unset")) (list_at (lit "unset") value)
    else []

abbrev past : ℕ → Option ℕ → Bool
past timestamp none = false
past timestamp (some at) = ltb at timestamp

abbrev past_any : Option ℕ → Option ℕ → Bool
past_any none at = false
past_any (some t) at = past t at

-- `timestamp > condition.at`.
unfoldable pub expires_before : Option ℕ → Value → Bool
expires_before timestamp condition = elim (fields_of (some condition)) [
  | none ↦ false
  | some fs ↦ past_any timestamp (as_uint (get_field (lit "at") fs))
]

-- Conditions of an unknown type deny; an expired one is its own refusal.
unfoldable pub check_conditions : List Value → Option ℕ → Result (Unit {0})
check_conditions conditions timestamp = do
  require (every (λ c. is_sound (condition_shape c)) conditions) capability_denied
  require (not (any (expires_before timestamp) conditions)) capability_expired

abbrev grants_action : Fields → Option Text → Bool
grants_action value none = false
grants_action value (some action) =
    any (λ v. is_text action (some v)) (list_at (lit "actions") value)

-- Step 5 against one capability of the chain, for a PUT of this value.
unfoldable pub check_capability : Fields → Fields → Result (Unit {0})
unfolding check_conditions
check_capability put value = do
  require (not (capability_fails_closed value)) capability_denied
  require (grants_action value (covering_action (text_at (lit "type") put))) capability_denied
  require (every (filter_matches (get_field (lit "filter") value)) (filter_subjects put))
      capability_denied
  check_conditions (list_at (lit "conditions") value) (as_uint (get_field (lit "timestamp") put))

module _ (oplog : Oplog) where
  abbrev pub record_at : Text → Option Fields
  record_at h = capability_record (Dict.get h oplog.entries)

  -- The loop of step 5. Every hash of a chain names a capability record.
  unfoldable pub check_chain : Fields → List Text → Result (Unit {0})
  check_chain put [] = ok tt
  check_chain put (h ∷ chain) =
      let rest = check_chain put chain in
      do value ← required (record_at h) capability_denied; check_capability put value; rest

  abbrev signed_by : Text → Text → Bool
  signed_by key h = elim (Dict.get h oplog.entries) [
    | none ↦ false
    | some e ↦ text_eq e.entry.key key
  ]

  -- The signer issued the target or a capability above it, in the causal past.
  unfoldable pub revocation_in_scope : Text → List Text → Option Text → Bool
  revocation_in_scope key next none = false
  revocation_in_scope key next (some target) =
      is_some (record_at target)
      && in_causal_past oplog.entries target next
      && any (signed_by key) (capability_chain oplog (some target))

  -- The effective revocations over the causal past alone.
  unfoldable pub past_effective : List Text → List VerifiedEntry
  past_effective next =
      effective_revocations oplog
        (keep (λ r. in_causal_past oplog.entries r.hash next) (Dict.values oplog.revocations))

  abbrev is_revocation_value : Fields → Bool
  is_revocation_value value = is_text (lit "revocation") (get_field (lit "type") value)

  -- A revocation is checked by scope, not by actions, filters, or conditions.
  unfoldable pub authorise_value : Text → List Text → List Text → Fields → Result (Unit {0})
  unfolding check_chain
  authorise_value key next chain value =
      if is_revocation_value value
      then require (revocation_in_scope key next (as_text (get_field (lit "revokes") value)))
          capability_denied
      else check_chain value chain

  -- Steps 2 to 6 under a cited capability.
  unfoldable pub authorise_cited : Text → List Text → Text → Fields → Result (Unit {0})
  authorise_cited key next id value = do
    cited ← required (record_at id) capability_denied
    require (in_causal_past oplog.entries id next) capability_denied
    require (grantee_matches (fields_of (get_field (lit "grantee") cited)) key) capability_denied
    let chain = capability_chain oplog (some id)
    require (leb (length chain) max_chain_length) capability_denied
    require (not (any (λ r. includes_some chain (revoked_capability r)) (past_effective next)))
        capability_revoked
    authorise_value key next chain value

  abbrev pub is_recordstore : LibraryType → Bool
  is_recordstore recordstore = true
  is_recordstore _ = false

  -- `payload.value`, which the operation check has found to be a map.
  abbrev pub value_of : Value → Fields
  value_of payload = elim (fields_of (some payload)) [
    | none ↦ Fields.end
    | some fs ↦ elim (fields_of (get_field (lit "value") fs)) [ none ↦ Fields.end | some v ↦ v ]
  ]

  unfoldable pub authorise_entry : HashedEntry → EntryPayload → Result (Unit {0})
  authorise_entry hashed operation =
      let key = hashed.entry.key in
      let delegated = (do
        require (is_recordstore oplog.chain.type) unauthorised_writer
        require (is_put_op operation) unauthorised_writer
        id ← required (cited_capability operation) unauthorised_writer
        authorise_cited key hashed.entry.next id (value_of hashed.entry.payload)) in
      if is_write_list_key oplog key then ok tt else delegated
