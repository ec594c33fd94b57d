-- ===== src/Oplog/Accounts.antt =====
-- oplog/merge.ts: what becomes of each block of a batch.
use record_node.Prelude.{
  Text, Bytes, text_eq, text_eq_iff, ◌≡◌, refl, ap, ◌∙◌, ◌&&◌, Bool-cases, ◌⊎◌, inl, inr, true,
  ◌||◌, List, [], ◌∷◌, ◌++◌, arith, In,
}
use record_node.Dict
use record_node.Dict.{Dict, get-set}
use record_node.Entry.{HashedEntry, VerifiedEntry}
use record_node.Result.{Result, ok, err, ErrorCode}
use record_node.Host.{Host}
use record_node.Encoding.Cid.{compute_cid_string}
use record_node.Entry.Signed.{decode_signed_entry}
use record_node.Oplog.{Oplog, insert_entry, inserted, refresh_current_state, refresh_key}
use record_node.Oplog.Refresh.{
  refresh_access_state, recompute_effective, judge_added, with_inert, revocation_added, is_empty,
}
use record_node.Oplog.Merge.{
  Admit, Batch, Decoded, take_block, decode_blocks, take_admitted, admit_entry, admit_all, settle,
}
use record_node.Oplog.Reachable.{IsAdmitting}

-- The entry is stored, or its hash is reported with an error.
abbrev pub IsAccounted : Text → Oplog → List (Text × ErrorCode) → Type 0
IsAccounted h oplog rejected =
    (Dict.has h oplog.entries ≡ true) ⊎ ((code : ErrorCode) × In (h, code) rejected)

pub In-append-left : {A : Type 0} (x : A) (xs ys : List A) → In x xs → In x (xs ++ ys)
In-append-left x [] ys m = absurd m
In-append-left x (y ∷ xs) ys (inl e) = inl e
In-append-left x (y ∷ xs) ys (inr m) = inr (In-append-left x xs ys m)

In-append-right : {A : Type 0} (x : A) (xs ys : List A) → In x ys → In x (xs ++ ys)
In-append-right x [] ys m = m
In-append-right x (y ∷ xs) ys m = inr (In-append-right x xs ys m)

has-insert_entry :
    (e : VerifiedEntry) (oplog : Oplog) (h : Text)
    → Dict.has h (insert_entry e oplog).0.entries ≡ (text_eq e.hash h || Dict.has h oplog.entries)
unfolding insert_entry inserted
has-insert_entry e oplog h = elim (Bool-cases (Dict.has e.hash oplog.entries)) [
  | inl held ↦ rw held (ground (arith, text_eq_iff e.hash h))
  | inr absent ↦ rw absent (ground (arith, get-set e.hash h e oplog.entries))
]

abbrev pub Accounted : Text → Batch → Type 0
Accounted h batch = IsAccounted h batch.oplog batch.rejected

take_admitted-keeps :
    (hashed : HashedEntry) (r : Result VerifiedEntry) (batch : Batch) (h : Text)
    → Accounted h batch
    → Accounted h (take_admitted hashed r batch)
unfolding take_admitted
take_admitted-keeps hashed (err code) batch h (inl s) = inl s
take_admitted-keeps hashed (err code) batch h (inr (c, m)) =
    inr (c, In-append-left (h, c) batch.rejected _ m)
take_admitted-keeps hashed (ok e) batch h (inl s) =
    inl (ground (arith, has-insert_entry e batch.oplog h))
take_admitted-keeps hashed (ok e) batch h (inr r) = inr r

take_admitted-accounts :
    (hashed : HashedEntry) (r : Result VerifiedEntry) (batch : Batch)
    → ((e : VerifiedEntry) → r ≡ ok e → e.hashed ≡ hashed)
    → Accounted hashed.hash (take_admitted hashed r batch)
unfolding take_admitted
take_admitted-accounts hashed (err code) batch same =
    inr (
      code,
      In-append-right (hashed.hash, code) batch.rejected ((hashed.hash, code) ∷ []) (inl refl),
    )
take_admitted-accounts hashed (ok e) batch same =
    let one : e.hash ≡ hashed.hash = ap (λ x. x.hash) (same e refl) in
    inl (ground (arith, has-insert_entry e batch.oplog hashed.hash, text_eq_iff e.hash hashed.hash))

module _ (admit : Admit) (admitting : IsAdmitting admit) where
  admit_entry-keeps :
      (hashed : HashedEntry) (batch : Batch) (h : Text)
      → Accounted h batch
      → Accounted h (admit_entry admit hashed batch)
  unfolding admit_entry
  admit_entry-keeps hashed batch h a =
      elim (Bool-cases (Dict.has hashed.hash batch.oplog.entries)) [
        | inl held ↦ rw held a
        | inr absent ↦ rw absent (take_admitted-keeps hashed (admit batch.oplog hashed) batch h a)
      ]

  admit_entry-accounts :
      (hashed : HashedEntry) (batch : Batch)
      → Accounted hashed.hash (admit_entry admit hashed batch)
  unfolding admit_entry
  admit_entry-accounts hashed batch = elim (Bool-cases (Dict.has hashed.hash batch.oplog.entries)) [
    | inl held ↦ rw held (inl held)
    | inr absent ↦ rw absent (
        take_admitted-accounts hashed (admit batch.oplog hashed) batch
          (λ e s. (admitting batch.oplog hashed e s).0))
  ]

  pub admit_all-keeps :
      (es : List HashedEntry) (batch : Batch) (h : Text)
      → Accounted h batch
      → Accounted h (admit_all admit es batch)
  unfolding admit_all
  admit_all-keeps [] batch h a = a
  admit_all-keeps (e ∷ es) batch h a =
      admit_all-keeps es (admit_entry admit e batch) h (admit_entry-keeps e batch h a)

  pub admit_all-accounts :
      (es : List HashedEntry) (batch : Batch) (hashed : HashedEntry)
      → In hashed es
      → Accounted hashed.hash (admit_all admit es batch)
  unfolding admit_all
  admit_all-accounts [] batch hashed m = absurd m
  admit_all-accounts (e ∷ es) batch hashed (inl same) =
      admit_all-keeps es (admit_entry admit e batch) hashed.hash
        (rw same (admit_entry-accounts e batch))
  admit_all-accounts (e ∷ es) batch hashed (inr m) =
      admit_all-accounts es (admit_entry admit e batch) hashed m

refresh_access_state-entries :
    (oplog : Oplog) (added : List VerifiedEntry)
    → (refresh_access_state oplog added).0.entries ≡ oplog.entries
unfolding refresh_access_state recompute_effective judge_added with_inert
refresh_access_state-entries oplog added = elim (Bool-cases (revocation_added oplog added)) [
  | inl t ↦ rw t refl
  | inr f ↦ rw f (elim (Bool-cases (is_empty oplog.effective && is_empty oplog.inert)) [
    | inl q ↦ rw q refl
    | inr n ↦ rw n refl
  ])
]

refresh_current_state-entries :
    (keys : List Text) (oplog : Oplog) → (refresh_current_state keys oplog).entries ≡ oplog.entries
unfolding refresh_current_state refresh_key
refresh_current_state-entries [] oplog = refl
refresh_current_state-entries (k ∷ keys) oplog =
    refresh_current_state-entries keys (refresh_key k oplog)

pub settle-entries :
    (oplog : Oplog) (merged : List VerifiedEntry) → (settle oplog merged).0.entries ≡ oplog.entries
unfolding settle
settle-entries oplog merged =
    refresh_current_state-entries _ (refresh_access_state oplog merged).0
    ∙ refresh_access_state-entries oplog merged

-- What decoding makes of a block: a refusal under its CID, or an entry that is new or held.
abbrev pub IsTaken : Host → Oplog → Bytes → Result HashedEntry → Decoded → Type 0
IsTaken host oplog bytes (err code) (decoded, rejected) =
    In (compute_cid_string host bytes, code) rejected
IsTaken host oplog bytes (ok hashed) (decoded, rejected) =
    In hashed decoded ⊎ (Dict.has hashed.hash oplog.entries ≡ true)

take_block-takes :
    (host : Host) (oplog : Oplog) (bytes : Bytes) (r : Result HashedEntry) (d : Decoded)
    → IsTaken host oplog bytes r (take_block host oplog bytes r d)
unfolding take_block
take_block-takes host oplog bytes (err code) d = inl refl
take_block-takes host oplog bytes (ok hashed) d =
    elim (Bool-cases (Dict.has hashed.hash oplog.entries)) [
      | inl held ↦ inr held
      | inr absent ↦ rw absent (inl (inl refl))
    ]

take_block-keeps :
    (host : Host) (oplog : Oplog) (b bytes : Bytes) (q r : Result HashedEntry) (d : Decoded)
    → IsTaken host oplog bytes r d
    → IsTaken host oplog bytes r (take_block host oplog b q d)
unfolding take_block
take_block-keeps host oplog b bytes (err c) (err code) d t = inr t
take_block-keeps host oplog b bytes (err c) (ok hashed) d t = t
take_block-keeps host oplog b bytes (ok x) r d t =
    elim (Bool-cases (Dict.has x.hash oplog.entries)) [
      | inl held ↦ rw held t
      | inr absent ↦ rw absent (also r t)
    ]
  where
    also :
        (r : Result HashedEntry)
        → IsTaken host oplog bytes r d
        → IsTaken host oplog bytes r (x ∷ d.0, d.1)
    also (err code) t = t
    also (ok hashed) (inl m) = inl (inr m)
    also (ok hashed) (inr held) = inr held

pub decode_blocks-takes :
    (host : Host) (oplog : Oplog) (blocks : List Bytes) (bytes : Bytes)
    → In bytes blocks
    → IsTaken host oplog bytes (decode_signed_entry host bytes) (decode_blocks host oplog blocks)
unfolding decode_blocks
decode_blocks-takes host oplog [] bytes m = absurd m
decode_blocks-takes host oplog (b ∷ blocks) bytes (inl same) =
    rw same
      (take_block-takes host oplog b (decode_signed_entry host b) (decode_blocks host oplog blocks))
decode_blocks-takes host oplog (b ∷ blocks) bytes (inr m) =
    take_block-keeps host oplog b bytes (decode_signed_entry host b)
      (decode_signed_entry host bytes) (decode_blocks host oplog blocks)
      (decode_blocks-takes host oplog blocks bytes m)
