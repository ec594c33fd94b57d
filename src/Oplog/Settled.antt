-- ===== src/Oplog/Settled.antt =====
-- oplog/dag.ts: which keys an insertion and an access change leave resolved.
use record_node.Prelude.{
  In, Text, text_eq_iff, text_eq_refl, ◌≡◌, refl, sym, ◌∙◌, ap, Bool, Bool-cases, Option-cases, inl,
  inr, true, false, not, some, List, [], ◌∷◌, arith, keep,
}
use record_node.Dict
use record_node.Dict.{Dict, get-set, get-delete}
use record_node.TextSet
use record_node.TextSet.{has-nil, has-cons, has-add, has-add_all, has-delete}
use record_node.Entry.{VerifiedEntry}
use record_node.Oplog.{Oplog, inserted, index_keys, hashes_of, entries_at, live_entries}
use record_node.Oplog.Order.{resolve_current_state}
use record_node.Oplog.Index.{IsIndexed, has_key}
use record_node.Oplog.Refresh.{
  AccessChange, judge, judge_all, is_inert_now, no_change, judge_added, judged_entries, with_inert,
}

-- The current entry of a key is the resolution of its live entries.
abbrev pub IsSettledAt : Oplog → Text → Type 0
IsSettledAt oplog key = Dict.get key oplog.current ≡ resolve_current_state (live_entries oplog key)

hashes_of-index_keys :
    (hash : Text) (keys : List Text) (index : Dict (List Text)) (key : Text)
    → TextSet.has key keys ≡ false
    → hashes_of key (index_keys hash keys index) ≡ hashes_of key index
unfolding index_keys hashes_of
hashes_of-index_keys hash [] index key s = refl
hashes_of-index_keys hash (k ∷ keys) index key s = ground (
  arith,
  hashes_of-index_keys hash keys (Dict.set k (TextSet.add hash (hashes_of k index)) index) key,
  get-set k key (TextSet.add hash (hashes_of k index)) index,
  has-cons key k keys,
  text_eq_iff k key,
)

entries_at-set :
    (hash : Text) (e : VerifiedEntry) (entries : Dict VerifiedEntry) (hs : List Text)
    → TextSet.has hash hs ≡ false
    → entries_at (Dict.set hash e entries) hs ≡ entries_at entries hs
unfolding entries_at
entries_at-set hash e entries [] s = refl
entries_at-set hash e entries (h ∷ hs) s = ground (
  arith,
  entries_at-set hash e entries hs,
  get-set hash h e entries,
  has-cons hash h hs,
  text_eq_iff h hash,
  text_eq_iff hash h,
)

has-keep :
    (h : Text) (p : Text → Bool) (hs : List Text)
    → TextSet.has h hs ≡ false
    → TextSet.has h (keep p hs) ≡ false
has-keep h p [] s = s
has-keep h p (k ∷ hs) s = ground (arith, has-keep h p hs, has-cons h k hs, has-cons h k (keep p hs))

keep_same :
    (p q : Text → Bool) (hs : List Text)
    → ((h : Text) → TextSet.has h hs ≡ true → p h ≡ q h)
    → keep p hs ≡ keep q hs
keep_same p q [] s = refl
keep_same p q (k ∷ hs) s = ground (
  arith,
  keep_same p q hs (λ h m. s h (ground (arith, has-cons h k hs))),
  s k (ground (arith, has-cons k k hs, text_eq_refl k)),
)

module _ (e : VerifiedEntry) (oplog : Oplog) (fresh : Dict.has e.hash oplog.entries ≡ false)
    (i : IsIndexed oplog) where
  -- A key that the new entry does not carry keeps its live entries.
  live_entries-inserted :
      (key : Text)
      → TextSet.has key e.state_keys ≡ false
      → live_entries (inserted e oplog) key ≡ live_entries oplog key
  unfolding inserted live_entries
  live_entries-inserted key s =
      rw (hashes_of-index_keys e.hash e.state_keys oplog.key_entries key s) (
        entries_at-set e.hash e oplog.entries
          (keep (λ h. not (TextSet.has h oplog.inert)) (hashes_of key oplog.key_entries))
          (has-keep e.hash (λ h. not (TextSet.has h oplog.inert)) (hashes_of key oplog.key_entries)
            (ground (arith, i.keys key e.hash, fresh))))

  pub inserted-IsSettledAt :
      (key : Text)
      → TextSet.has key e.state_keys ≡ false
      → IsSettledAt oplog key
      → IsSettledAt (inserted e oplog) key
  unfolding inserted
  inserted-IsSettledAt key s h = rw (live_entries-inserted key s) h

-- Judging changes the inert set only at hashes whose keys it reports.
abbrev pub IsReported : Oplog → List Text → List Text × AccessChange → Type 0
IsReported oplog before (inert, change) =
    (key h : Text)
    → has_key key (Dict.get h oplog.entries) ≡ true
    → TextSet.has key change.keys ≡ false
    → TextSet.has h inert ≡ TextSet.has h before

judge-IsReported :
    (oplog : Oplog) (effective : List VerifiedEntry) (before : List Text) (e : VerifiedEntry)
    (state : List Text × AccessChange)
    → Dict.get e.hash oplog.entries ≡ some e
    → IsReported oplog before state
    → IsReported oplog before (judge oplog effective e state)
unfolding judge
judge-IsReported oplog effective before e (inert, change) held r key h k s =
    elim (Bool-cases (is_inert_now oplog effective e)) [
      | inl t ↦ ground (
        arith,
        r key h k,
        has-add e.hash h inert,
        text_eq_iff e.hash h,
        has-add_all e.state_keys key change.keys,
      )
      | inr f ↦ ground (
        arith,
        r key h k,
        has-delete e.hash h inert,
        text_eq_iff e.hash h,
        has-add_all e.state_keys key change.keys,
      )
    ]

-- The entries of a list are stored under their hashes.
abbrev pub AreHeld : Oplog → List VerifiedEntry → Type 0
AreHeld oplog es = (e : VerifiedEntry) → In e es → Dict.get e.hash oplog.entries ≡ some e

judge_all-IsReported :
    (oplog : Oplog) (effective : List VerifiedEntry) (before : List Text) (es : List VerifiedEntry)
    (state : List Text × AccessChange)
    → AreHeld oplog es
    → IsReported oplog before state
    → IsReported oplog before (judge_all oplog effective es state)
unfolding judge_all
judge_all-IsReported oplog effective before [] state held r = r
judge_all-IsReported oplog effective before (e ∷ es) state held r =
    judge_all-IsReported oplog effective before es (judge oplog effective e state)
      (λ x m. held x (inr m))
      (judge-IsReported oplog effective before e state (held e (inl refl)) r)

found_at :
    (oplog : Oplog) (h : Text) (d e : VerifiedEntry) (es : List VerifiedEntry)
    → IsIndexed oplog
    → Dict.get h oplog.entries ≡ some d
    → AreHeld oplog es
    → In e (d ∷ es)
    → Dict.get e.hash oplog.entries ≡ some e
found_at oplog h d e es i g held (inl same) = ground (arith, i.keyed h d g, same, g)
found_at oplog h d e es i g held (inr later) = held e later

entries_at-AreHeld :
    (oplog : Oplog)
    → IsIndexed oplog
    → (hs : List Text) → AreHeld oplog (entries_at oplog.entries hs)
unfolding entries_at
entries_at-AreHeld oplog i [] e m = absurd m
entries_at-AreHeld oplog i (h ∷ hs) e m = elim (Option-cases (Dict.get h oplog.entries)) [
  | inl g ↦ entries_at-AreHeld oplog i hs e (rw (g, entries_at) at m)
  | inr (d, g) ↦
      found_at oplog h d e (entries_at oplog.entries hs) i g (entries_at-AreHeld oplog i hs)
        (rw (g, entries_at) at m)
]

-- After a run of judgements, the live entries of a key that is not reported are those of before.
live_entries-reported :
    (oplog : Oplog)
    → IsIndexed oplog
    → (state : List Text × AccessChange) → IsReported oplog oplog.inert state
    → (key : Text) → TextSet.has key state.1.keys ≡ false
    → live_entries (record oplog { inert = state.0 }) key ≡ live_entries oplog key
unfolding live_entries
live_entries-reported oplog i state r key s = ap (entries_at oplog.entries) (
    keep_same (λ h. not (TextSet.has h state.0)) (λ h. not (TextSet.has h oplog.inert))
      (hashes_of key oplog.key_entries)
      (λ h m. ap not (r key h (ground (arith, i.keys key h, m)) s)))

pub judge_added-IsSettledAt :
    (oplog : Oplog) (revoking : Bool) (added : List VerifiedEntry)
    → IsIndexed oplog
    → (key : Text) → TextSet.has key (judge_added oplog revoking added).1.keys ≡ false
    → IsSettledAt oplog key
    → IsSettledAt (judge_added oplog revoking added).0 key
unfolding judge_added with_inert
judge_added-IsSettledAt oplog revoking added i key s h =
    let effective = entries_at oplog.entries oplog.effective in
    let judged = entries_at oplog.entries (judged_entries oplog revoking added) in
    let state = judge_all oplog effective judged (oplog.inert, no_change) in
    let reported =
      judge_all-IsReported oplog effective oplog.inert judged (oplog.inert, no_change)
        (entries_at-AreHeld oplog i (judged_entries oplog revoking added)) (λ k h m s. refl) in
    h ∙ ap resolve_current_state (sym (live_entries-reported oplog i state reported key s))
