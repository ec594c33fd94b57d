-- ===== src/Oplog/Authorised.antt =====
-- Every entry that merges and appends bring into an oplog has the authority that verify_entry asks for.
use record_node.Prelude.{
  ℕ, Text, text_eq, text_eq_iff, ◌≡◌, Bool-cases, inl, inr, true, false, ◌&&◌, some, List, [], ◌∷◌,
  arith,
}
use record_node.Dict
use record_node.Dict.{Dict, get-set}
use record_node.Entry.{EntryPayload, VerifiedEntry, time_of}
use record_node.Oplog.{Oplog, insert_entry, inserted, refresh_current_state, refresh_key}
use record_node.Oplog.Refresh.{
  refresh_access_state, recompute_effective, judge_added, with_inert, revocation_added, is_empty,
}
use record_node.Oplog.Merge.{settle}
use record_node.Host.{Host}
use record_node.Entry.Signed.{verify_entry_signature}
use record_node.Oplog.Granted.{IsGranted}

-- The key of the entry has authority over the library, and its signature over the entry verifies.
abbrev pub IsAuthorised : Host → Oplog → VerifiedEntry → Type 0
IsAuthorised host oplog e =
    IsGranted oplog e.operation e.entry.key (time_of e)
    × (verify_entry_signature host e.entry ≡ true)

unfoldable pub AllGranted : Host → Oplog → Type 0
AllGranted host oplog =
    (h : Text) (e : VerifiedEntry) → Dict.get h oplog.entries ≡ some e → IsAuthorised host oplog e

module _ (e : VerifiedEntry) (oplog : Oplog) (fresh : Dict.has e.hash oplog.entries ≡ false) where
  inserted-IsGranted :
      (operation : EntryPayload) (key : Text) (time : ℕ)
      → IsGranted oplog operation key time
      → IsGranted (inserted e oplog) operation key time
  unfolding inserted
  inserted-IsGranted operation key time (inl t) = inl t
  inserted-IsGranted operation key time (inr (store, g)) = inr (
    store,
    record {
      id = g.id;
      issued = g.issued;
      value = g.value;
      is_put = g.is_put;
      cites = g.cites;
      held =
          ground
            (arith, get-set e.hash g.id e oplog.entries, text_eq_iff e.hash g.id, fresh, g.held);
      is_capability = g.is_capability;
      names_key = g.names_key;
      earlier = g.earlier;
    },
  )

  inserted-AllGranted :
      (host : Host)
      → AllGranted host oplog
      → IsAuthorised host oplog e
      → AllGranted host (inserted e oplog)
  unfolding AllGranted
  inserted-AllGranted host all own h x g = elim (Bool-cases (text_eq e.hash h)) [
    | inl t ↦
        let same : x ≡ e = unfold inserted in ground (arith, get-set e.hash h e oplog.entries) in
        rw same (inserted-IsGranted e.operation e.entry.key (time_of e) own.0, own.1)
    | inr f ↦
        let old : Dict.get h oplog.entries ≡ some x =
          unfold inserted in ground (arith, get-set e.hash h e oplog.entries) in
        let (granted, signed) = all h x old in
        (inserted-IsGranted x.operation x.entry.key (time_of x) granted, signed)
  ]

pub insert_entry-AllGranted :
    (host : Host) (e : VerifiedEntry) (oplog : Oplog)
    → AllGranted host oplog
    → IsAuthorised host oplog e
    → AllGranted host (insert_entry e oplog).0
unfolding insert_entry
insert_entry-AllGranted host e oplog all own = elim (Bool-cases (Dict.has e.hash oplog.entries)) [
  | inl held ↦ rw held all
  | inr absent ↦ rw absent (inserted-AllGranted e oplog absent host all own)
]

refresh_access_state-AllGranted :
    (host : Host) (oplog : Oplog) (added : List VerifiedEntry)
    → AllGranted host oplog
    → AllGranted host (refresh_access_state oplog added).0
unfolding refresh_access_state recompute_effective judge_added with_inert AllGranted
refresh_access_state-AllGranted host oplog added all =
    elim (Bool-cases (revocation_added oplog added)) [
      | inl t ↦ rw t all
      | inr f ↦ rw f (elim (Bool-cases (is_empty oplog.effective && is_empty oplog.inert)) [
        | inl q ↦ rw q all
        | inr n ↦ rw n all
      ])
    ]

refresh_current_state-AllGranted :
    (host : Host) (keys : List Text) (oplog : Oplog)
    → AllGranted host oplog
    → AllGranted host (refresh_current_state keys oplog)
unfolding refresh_current_state refresh_key AllGranted
refresh_current_state-AllGranted host [] oplog all = all
refresh_current_state-AllGranted host (k ∷ keys) oplog all =
    refresh_current_state-AllGranted host keys (refresh_key k oplog) all

pub settle-AllGranted :
    (host : Host) (oplog : Oplog) (merged : List VerifiedEntry)
    → AllGranted host oplog
    → AllGranted host (settle oplog merged).0
unfolding settle
settle-AllGranted host oplog merged all =
    refresh_current_state-AllGranted host _ _
      (refresh_access_state-AllGranted host oplog merged all)
