-- ===== src/Oplog/Refresh.antt =====
-- oplog/dag.ts: `refresh_access_state`, which brings the effective and the inert set up to date.
use record_node.Prelude.{
  Text, Bool, true, false, ◌&&◌, not, List, [], ◌∷◌, ◌++◌, map, any, keep, if◌then◌else◌,
}
use record_node.Dict
use record_node.TextSet
use record_node.Entry.{VerifiedEntry}
use record_node.Oplog.{Oplog, entries_at}
use record_node.Access.Capability.{inert_under, effective_revocations}

-- Entries that became inert, and the state keys whose resolution they touch.
pub record AccessChange : Type 0 where
  pub inert : List VerifiedEntry
  pub keys : List Text

abbrev pub bool_differs : Bool → Bool → Bool
bool_differs true b = not b
bool_differs false b = b

abbrev pub hash_of : VerifiedEntry → Text
hash_of e = e.hash

-- A revocation's own effect is decided only by the effective set.
unfoldable pub is_inert_now : Oplog → List VerifiedEntry → VerifiedEntry → Bool
is_inert_now oplog effective e =
    if Dict.has e.hash oplog.revocations
    then not (TextSet.has e.hash oplog.effective)
    else inert_under oplog e effective

abbrev pub inert_onto : Bool → VerifiedEntry → List VerifiedEntry → List VerifiedEntry
inert_onto true e rest = rest ++ e ∷ []
inert_onto false e rest = rest

-- The inert set and what changed, after judging one entry.
unfoldable pub judge :
    Oplog → List VerifiedEntry → VerifiedEntry → List Text × AccessChange → List Text × AccessChange
judge oplog effective e (inert, change) =
    let now = is_inert_now oplog effective e in
    let moved : List Text × AccessChange = (
      (if now then TextSet.add e.hash inert else TextSet.delete e.hash inert),
      record {
        inert = inert_onto now e change.inert;
        keys = TextSet.add_all e.state_keys change.keys;
      },
    ) in
    if bool_differs now (TextSet.has e.hash inert) then moved else (inert, change)

unfoldable pub judge_all :
    Oplog
    → List VerifiedEntry
    → List VerifiedEntry
    → List Text × AccessChange
    → List Text × AccessChange
judge_all oplog effective [] state = state
judge_all oplog effective (e ∷ es) state =
    judge_all oplog effective es (judge oplog effective e state)

abbrev pub no_change : AccessChange
no_change = record { inert = []; keys = [] }

unfoldable pub with_inert : Oplog → List Text × AccessChange → Oplog × AccessChange
with_inert oplog (inert, change) = (record oplog { inert = inert }, change)

-- The effective set, from every revocation that the oplog holds.
unfoldable pub recompute_effective : Oplog → Oplog
recompute_effective oplog = record oplog {
  effective =
      TextSet.add_all (map hash_of (effective_revocations oplog (Dict.values oplog.revocations)))
        [];
}

-- Which entries are judged again: all delegated ones after a new revocation, else the new ones.
unfoldable pub judged_entries : Oplog → Bool → List VerifiedEntry → List Text
judged_entries oplog true added = oplog.delegated
judged_entries oplog false added = keep (λ h. TextSet.has h oplog.delegated) (map hash_of added)

abbrev pub is_empty : List Text → Bool
is_empty [] = true
is_empty (_ ∷ _) = false

unfoldable pub judge_added : Oplog → Bool → List VerifiedEntry → Oplog × AccessChange
judge_added oplog revocation_added added =
    let effective = entries_at oplog.entries oplog.effective in
    let judged = entries_at oplog.entries (judged_entries oplog revocation_added added) in
    with_inert oplog (judge_all oplog effective judged (oplog.inert, no_change))

abbrev pub revocation_added : Oplog → List VerifiedEntry → Bool
revocation_added oplog added = any (λ e. Dict.has e.hash oplog.revocations) added

unfoldable pub refresh_access_state : Oplog → List VerifiedEntry → Oplog × AccessChange
refresh_access_state oplog added =
    let quiet = is_empty oplog.effective && is_empty oplog.inert in
    if revocation_added oplog added
    then judge_added (recompute_effective oplog) true added
    else if quiet
    then (oplog, no_change)
    else judge_added oplog false added
