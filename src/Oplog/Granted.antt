-- ===== src/Oplog/Granted.antt =====
-- access-control/capability.ts and oplog/accept.ts: what stands behind a stored entry that no key of the
-- write list signed.
use record_node.Prelude.{
  ℕ, ◌<◌, Text, lit, ◌≡◌, Bool-cases, Option-cases, ◌⊎◌, inl, inr, true, some, List, arith,
}
use record_node.Dict
use record_node.Dict.{Dict, get-set}
use record_node.TextSet
use record_node.Value.{Fields, get_field}
use record_node.Entry.{EntryPayload, HashedEntry, VerifiedEntry, time_of}
use record_node.Result.{
  ok, require, required, unauthorised_writer, capability_denied, >>=-eq-ok, require-eq-ok,
  required-eq-ok,
}
use record_node.Access.Filter.Shapes.{fields_of}
use record_node.Access.Records.{grantee_matches}
use record_node.Access.Capability.{capability_value, cited_capability}
use record_node.Access.Authorise.{
  record_at, authorise_cited, authorise_entry, is_recordstore, value_of,
}
use record_node.Oplog.{Oplog, is_write_list_key, is_put_op}
use record_node.Oplog.Causal.{Past, direct, further, in_causal_past, IsClocked}
use record_node.Oplog.Causal.Decides.{in_causal_past-Past}
use record_node.Oplog.Clocks.{IsAfterParents}

-- A stored capability record that the operation cites, issued before the time to the key.
pub record Grant (entries : Dict VerifiedEntry) (operation : EntryPayload) (key : Text) (time : ℕ)
    : Type 0 where
  pub id : Text
  pub issued : VerifiedEntry
  pub value : Fields
  pub is_put : is_put_op operation ≡ true
  pub cites : cited_capability operation ≡ some id
  pub held : Dict.get id entries ≡ some issued
  pub is_capability : capability_value issued.operation ≡ some value
  pub names_key : grantee_matches (fields_of (get_field (lit "grantee") value)) key ≡ true
  pub earlier : time_of issued < time

-- What is in the past of pointers to stored entries before the time is before the time.
Past-earlier :
    (entries : Dict VerifiedEntry) (next : List Text) (time : ℕ)
    → IsClocked entries
    → ((p : Text)
        → TextSet.has p next ≡ true
        → (d : VerifiedEntry) × (Dict.get p entries ≡ some d) × (time_of d < time))
    → {a : Text} → Past entries next a
    → (d : VerifiedEntry) × (Dict.get a entries ≡ some d) × (time_of d < time)
Past-earlier entries next time clocked after {a} (direct m) = after a m
Past-earlier entries next time clocked after {a} (further {h} {p} {e} q g m) =
    let (d, held, less) = Past-earlier entries next time clocked after q in
    let (x, there, below) = clocked.parent p a e g m in (x, there, ground arith)

record_at-some :
    (oplog : Oplog) (h : Text) (value : Fields)
    → record_at oplog h ≡ some value
    → (e : VerifiedEntry) × (Dict.get h oplog.entries ≡ some e)
      × (capability_value e.operation ≡ some value)
record_at-some oplog h value g = elim (Option-cases (Dict.get h oplog.entries)) [
  | inl n ↦ absurd (ground arith)
  | inr (e, s) ↦ (e, s, ground arith)
]

-- The key is in the write list, or a grant stands behind an operation on a recordstore.
abbrev pub IsGranted : Oplog → EntryPayload → Text → ℕ → Type 0
IsGranted oplog operation key time =
    (is_write_list_key oplog key ≡ true)
    ⊎ ((is_recordstore oplog oplog.chain.type ≡ true) × Grant oplog.entries operation key time)

module _ (oplog : Oplog) (hashed : HashedEntry) (operation : EntryPayload) where
  cited_Grant :
      IsClocked oplog.entries
      → IsAfterParents oplog.entries hashed
      → (id : Text) (value : Fields) → is_put_op operation ≡ true
      → cited_capability operation ≡ some id
      → authorise_cited oplog hashed.entry.key hashed.entry.next id value ≡ ok tt
      → Grant oplog.entries operation hashed.entry.key hashed.entry.clock.time
  unfolding authorise_cited
  cited_Grant clocked after id value put cites h =
      let (cited, found, h2) = >>=-eq-ok (required (record_at oplog id) capability_denied) _ h in
      let (_, past, h3) =
        >>=-eq-ok (require (in_causal_past oplog.entries id hashed.entry.next) capability_denied) _
          h2 in
      let (_, named, _) =
        >>=-eq-ok
          (require (grantee_matches (fields_of (get_field (lit "grantee") cited)) hashed.entry.key)
            capability_denied)
          _ h3 in
      let (issued, held, is_capability) =
        record_at-some oplog id cited
          (required-eq-ok (record_at oplog id) capability_denied found) in
      let walk =
        in_causal_past-Past oplog.entries id hashed.entry.next issued held
          (require-eq-ok _ capability_denied past) in
      let (d, there, less) =
        Past-earlier oplog.entries hashed.entry.next hashed.entry.clock.time clocked after walk in
      record {
        id = id;
        issued = issued;
        value = cited;
        is_put = put;
        cites = cites;
        held = held;
        is_capability = is_capability;
        names_key = require-eq-ok _ capability_denied named;
        earlier = ground (arith, there, held, less);
      }

  pub authorise_entry-IsGranted :
      IsClocked oplog.entries
      → IsAfterParents oplog.entries hashed
      → authorise_entry oplog hashed operation ≡ ok tt
      → IsGranted oplog operation hashed.entry.key hashed.entry.clock.time
  unfolding authorise_entry
  authorise_entry-IsGranted clocked after h =
      elim (Bool-cases (is_write_list_key oplog hashed.entry.key)) [
        | inl t ↦ inl t
        | inr f ↦
            let delegated : _ ≡ ok tt = rw f at h in
            let (_, store, h2) =
              >>=-eq-ok (require (is_recordstore oplog oplog.chain.type) unauthorised_writer) _
                delegated in
            let (_, put, h3) = >>=-eq-ok (require (is_put_op operation) unauthorised_writer) _ h2 in
            let (id, cites, h4) =
              >>=-eq-ok (required (cited_capability operation) unauthorised_writer) _ h3 in
            inr (
              require-eq-ok _ unauthorised_writer store,
              cited_Grant clocked after id (value_of oplog hashed.entry.payload)
                  (require-eq-ok _ unauthorised_writer put)
                  (required-eq-ok _ unauthorised_writer cites) h4,
            )
      ]
