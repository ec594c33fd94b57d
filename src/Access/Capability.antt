-- ===== src/Access/Capability.antt =====
-- access-control/capability.ts: the chain of a capability, inertness, the effective revocations, and
-- the authorisation of an entry over its causal past.
use mathlib.Core.Option.{get_or}
use record_node.Prelude.{
  ℕ, zero, suc, Text, lit, text_lt, Bool, false, ◌&&◌, ◌||◌, not, Option, none, some, List, [], ◌∷◌,
  ◌++◌, any, keep, if◌then◌else◌, leb, ltb, ◌==◌, length, sort_by,
}
use record_node.Dict
use record_node.Dict.{Dict}
use record_node.TextSet
use record_node.Value.{Fields, get_field, as_text}
use record_node.Entry.{
  EntryPayload, track_put, track_del, labels_put, about_put, access_put, opaque, capability,
  VerifiedEntry, next_of, time_of,
}
use record_node.Oplog.{Oplog, is_write_list_key}
use record_node.Oplog.Causal.{in_causal_past}
use record_node.Oplog.Order.{envelope_timestamp}

abbrev pub max_chain_length : ℕ
max_chain_length = 8

-- The value of a capability record.
unfoldable pub capability_value : EntryPayload → Option Fields
capability_value (access_put _ capability value _) = some value
capability_value _ = none

abbrev pub capability_record : Option VerifiedEntry → Option Fields
capability_record none = none
capability_record (some e) = capability_value e.operation

unfoldable pub cited_capability : EntryPayload → Option Text
cited_capability (track_put _ _ c) = c
cited_capability (track_del _ _ c) = c
cited_capability (labels_put _ _ c) = c
cited_capability (about_put _ _ c) = c
cited_capability (access_put _ _ _ c) = c
cited_capability (opaque _ _ _ c) = c
cited_capability _ = none

abbrev pub cons_to : Text → Option (List Text) → Option (List Text)
cons_to h none = none
cons_to h (some chain) = some (h ∷ chain)

module _ (oplog : Oplog) where
  -- One step of the loop, given the rest of the chain.
  abbrev pub chain_step :
      Text → Option VerifiedEntry → (Option Text → Option (List Text)) → Option (List Text)
  chain_step h none rest = some []
  chain_step h (some e) rest = elim (capability_value e.operation) [
    | none ↦ some []
    | some _ ↦
        if is_write_list_key oplog e.entry.key
        then some (h ∷ [])
        else cons_to h (rest (cited_capability e.operation))
  ]

  -- The loop of `capability_chain`; `none` is a spent fuel.
  unfoldable pub chain_from : ℕ → Option Text → Option (List Text)
  chain_from fuel none = some []
  chain_from zero (some h) = none
  chain_from (suc fuel) (some h) = chain_step h (Dict.get h oplog.entries) (chain_from fuel)

  -- The clock of an entry; each capability of a chain was issued later than the one that it cites.
  abbrev pub clock_of : Text → ℕ
  clock_of h = elim (Dict.get h oplog.entries) [ none ↦ 0 | some e ↦ time_of e ]

  abbrev pub chain_rounds : Option Text → ℕ
  chain_rounds none = 0
  chain_rounds (some h) = suc (clock_of h)

  unfoldable pub capability_chain : Option Text → List Text
  unfolding chain_from
  capability_chain id = get_or (chain_from (chain_rounds id) id) []

  -- The capabilities an entry depends on: the chain of the one it cites.
  unfoldable pub dependencies : VerifiedEntry → List Text
  dependencies e =
      if is_write_list_key oplog e.entry.key
      then []
      else capability_chain (cited_capability e.operation)

abbrev pub includes_some : List Text → Option Text → Bool
includes_some hashes none = false
includes_some hashes (some h) = TextSet.has h hashes

abbrev revokes_of : EntryPayload → Option Text
revokes_of (access_put _ _ value _) = as_text (get_field (lit "revokes") value)
revokes_of _ = none

unfoldable pub revoked_capability : VerifiedEntry → Option Text
revoked_capability e = revokes_of e.operation

module _ (oplog : Oplog) where
  -- The revocation names a capability of the chain, and does not have the entry in its causal past.
  abbrev pub disables : List Text → Text → VerifiedEntry → Bool
  disables chain hash revoking =
      includes_some chain (revoked_capability revoking)
      && not (in_causal_past oplog.entries hash (next_of revoking))

  -- An empty chain includes nothing, so the source's test of its length changes nothing.
  unfoldable pub inert_under : VerifiedEntry → List VerifiedEntry → Bool
  inert_under e effective =
      let chain = dependencies oplog e in
      leb 1 (length chain) && any (disables chain e.hash) effective

  unfoldable pub self_referential : VerifiedEntry → Bool
  self_referential revoking =
      includes_some (capability_chain oplog (cited_capability revoking.operation))
        (revoked_capability revoking)

  -- By (clock.time, value timestamp, hash bytes) ascending.
  unfoldable pub revocation_lt : VerifiedEntry → VerifiedEntry → Bool
  revocation_lt a b =
      let s = envelope_timestamp a.hashed in
      let t = envelope_timestamp b.hashed in
      ltb (time_of a) (time_of b)
      || time_of a == time_of b && (ltb s t || s == t && text_lt a.multihash b.multihash)

  -- The loop over the delegated revocations.
  unfoldable pub take_effect : List VerifiedEntry → List VerifiedEntry → List VerifiedEntry
  take_effect [] effective = effective
  take_effect (r ∷ rs) effective = take_effect rs (
      if not (self_referential r) && not (inert_under r effective)
      then effective ++ r ∷ []
      else effective)

  abbrev pub is_write_list_signed : VerifiedEntry → Bool
  is_write_list_signed e = is_write_list_key oplog e.entry.key

  unfoldable pub effective_revocations : List VerifiedEntry → List VerifiedEntry
  unfolding take_effect
  effective_revocations all =
      take_effect (sort_by revocation_lt (keep (λ r. not (is_write_list_signed r)) all))
        (keep is_write_list_signed all)
