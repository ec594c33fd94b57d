-- ===== src/Oplog/Identities/Recorded.antt =====
-- What the libraries of an identity library's state say of its entries.
use mathlib.Core.Logic.{⊎_elim}
use mathlib.Core.Path.{subst}
use record_node.Prelude.{
  Text, true, false, ◌≡◌, refl, sym, Option, none, some, List, [], ◌∷◌, ◌⊎◌, inl, inr, arith, In,
  any, text_eq, text_eq_iff, Bool-cases, ℕ,
}
use record_node.Dict
use record_node.Dict.{Dict, get-set}
use record_node.Entry.{
  VerifiedEntry, EntryPayload, identity_put, library_record, link_record, pin_record,
  profile_record, IdentityRecordType, library, link, pin, profile,
}
use record_node.Oplog.{Oplog, entries_at}
use record_node.Oplog.Order.{least_entry}
use record_node.Oplog.Order.Total.{Before}
use record_node.Oplog.Order.Least.{least-IsLast}
use record_node.Oplog.Identities.{
  RecordedLibrary, IdentityLibraryState, identity_entries, puts_of, is_identity_del,
  is_identity_put, add_library, take_library, take_current, take_current_of, take_type, first_type,
  take_key, take_keys, identity_library_state,
}

-- The entries of one key record the library of this address: the first PUT is one of them, names the
-- address, and no PUT among them sorts after it; the library is retired exactly if a DEL is among them.
pub record IsRecordedBy (es : List VerifiedEntry) (address : Text) (r : RecordedLibrary)
    : Type 0 where
  pub among : In r.first_put es
  pub oldest :
      (x : VerifiedEntry)
      → In x es
      → is_identity_put x.operation ≡ true
      → Before r.first_put.hashed x.hashed
      → ⊥
  pub names :
      (key : Text) × (timestamp : ℕ) × (r.first_put.operation
        ≡ identity_put key (library_record timestamp address))
  pub retired : r.retired ≡ any (λ (e : VerifiedEntry). is_identity_del e.operation) es

puts_of-put :
    (e : VerifiedEntry) (es : List VerifiedEntry)
    → is_identity_put e.operation ≡ true
    → puts_of (e ∷ es) ≡ e ∷ puts_of es
unfolding puts_of
puts_of-put e es is_put = rw (is_put, puts_of) refl

puts_of-other :
    (e : VerifiedEntry) (es : List VerifiedEntry)
    → is_identity_put e.operation ≡ false
    → puts_of (e ∷ es) ≡ puts_of es
unfolding puts_of
puts_of-other e es is_other = rw (is_other, puts_of) refl

In-puts_of : (x : VerifiedEntry) (es : List VerifiedEntry) → In x (puts_of es) → In x es
unfolding puts_of
In-puts_of x [] m = m
In-puts_of x (e ∷ es) m = elim (Bool-cases (is_identity_put e.operation)) [
  | inl is_put ↦
      ⊎_elim inl (λ n. inr (In-puts_of x es n)) (subst (In x) (puts_of-put e es is_put) m)
  | inr is_other ↦ inr (In-puts_of x es (subst (In x) (puts_of-other e es is_other) m))
]

puts_of-In :
    (x : VerifiedEntry) (es : List VerifiedEntry)
    → In x es
    → is_identity_put x.operation ≡ true
    → In x (puts_of es)
unfolding puts_of
puts_of-In x [] m p = m
puts_of-In x (e ∷ es) (inl s) p =
    let is_put : is_identity_put e.operation ≡ true = rw s at p in
    subst (In x) (sym (puts_of-put e es is_put)) (inl s)
puts_of-In x (e ∷ es) (inr m) p = elim (Bool-cases (is_identity_put e.operation)) [
  | inl is_put ↦ subst (In x) (sym (puts_of-put e es is_put)) (inr (puts_of-In x es m p))
  | inr is_other ↦ subst (In x) (sym (puts_of-other e es is_other)) (puts_of-In x es m p)
]

abbrev Listed : IdentityLibraryState → Text → RecordedLibrary → Type 0
Listed state address r = Dict.get address state.libraries ≡ some r

abbrev Kept : IdentityLibraryState → List VerifiedEntry → Text → RecordedLibrary → Type 0
Kept state es address r = Listed state address r ⊎ IsRecordedBy es address r

abbrev recorded_as : VerifiedEntry → List VerifiedEntry → RecordedLibrary
recorded_as first es = record {
  retired = any (λ (e : VerifiedEntry). is_identity_del e.operation) es;
  first_put = first;
}

add_library-Kept :
    (p : EntryPayload) (first : VerifiedEntry) (es : List VerifiedEntry)
    (state : IdentityLibraryState) (address : Text) (r : RecordedLibrary)
    → first.operation ≡ p
    → least_entry (puts_of es) ≡ some first
    → Listed (add_library p first es state) address r
    → Kept state es address r
unfolding add_library
add_library-Kept (identity_put k (library_record t a)) first es state address r same least h =
    elim (Bool-cases (text_eq a address)) [
      | inl here ↦
          let eq : some (recorded_as first es) ≡ some r =
            ground (arith, get-set a address (recorded_as first es) state.libraries) in
          let at_address : a ≡ address = ground (arith, text_eq_iff a address) in
          inr (
            subst (IsRecordedBy es address) (cc (eq)) (record {
              among = In-puts_of first es (least-IsLast (puts_of es) first least).among;
              oldest =
                  λ x m p. (least-IsLast (puts_of es) first least).last x (puts_of-In x es m p);
              names = (k, t, rw at_address at same);
              retired = refl;
            }))
      | inr other ↦ inl (ground (arith, get-set a address (recorded_as first es) state.libraries))
    ]
add_library-Kept _ first es state address r same least h = inl h

take_library-Kept :
    (first : Option VerifiedEntry) (es : List VerifiedEntry) (state : IdentityLibraryState)
    (address : Text) (r : RecordedLibrary)
    → least_entry (puts_of es) ≡ first
    → Listed (take_library first es state) address r
    → Kept state es address r
unfolding take_library
take_library-Kept none es state address r least h = inl h
take_library-Kept (some first) es state address r least h =
    add_library-Kept first.operation first es state address r refl least h

take_current-libraries :
    (type : IdentityRecordType) (p : EntryPayload) (state : IdentityLibraryState)
    → (take_current type p state).libraries ≡ state.libraries
unfolding take_current
take_current-libraries link (identity_put _ (link_record _ _ _)) state = refl
take_current-libraries pin (identity_put _ (pin_record _ _)) state = refl
take_current-libraries profile (identity_put _ (profile_record _)) state = refl
take_current-libraries _ _ state = refl

take_current_of-libraries :
    (type : IdentityRecordType) (e : Option VerifiedEntry) (state : IdentityLibraryState)
    → (take_current_of type e state).libraries ≡ state.libraries
unfolding take_current_of
take_current_of-libraries type none state = refl
take_current_of-libraries type (some e) state = take_current-libraries type e.operation state

take_type-Kept :
    (type : Option IdentityRecordType) (es : List VerifiedEntry) (current : Option VerifiedEntry)
    (state : IdentityLibraryState) (address : Text) (r : RecordedLibrary)
    → Listed (take_type type es current state) address r
    → Kept state es address r
unfolding take_type
take_type-Kept none es current state address r h = inl h
take_type-Kept (some library) es current state address r h =
    take_library-Kept (least_entry (puts_of es)) es state address r refl h
take_type-Kept (some link) es current state address r h =
    inl (rw (take_current_of-libraries link current state) at h)
take_type-Kept (some pin) es current state address r h =
    inl (rw (take_current_of-libraries pin current state) at h)
take_type-Kept (some profile) es current state address r h =
    inl (rw (take_current_of-libraries profile current state) at h)

-- The entries of an identity library that one key of the index names.
abbrev pub entries_of : Oplog → List Text → List VerifiedEntry
entries_of oplog hashes = identity_entries (entries_at oplog.entries hashes)

abbrev pub IsRecordedIn : Oplog → Dict (List Text) → Text → RecordedLibrary → Type 0
IsRecordedIn oplog index address r =
    (key : Text) × (hashes : List Text) × In (key, hashes) index
    × IsRecordedBy (entries_of oplog hashes) address r

take_keys-IsRecordedIn :
    (oplog : Oplog) (index : Dict (List Text)) (state : IdentityLibraryState) (address : Text)
    (r : RecordedLibrary)
    → Listed (take_keys oplog index state) address r
    → Listed state address r ⊎ IsRecordedIn oplog index address r
unfolding take_keys take_key
take_keys-IsRecordedIn oplog [] state address r h = inl h
take_keys-IsRecordedIn oplog ((key, hashes) ∷ rest) state address r h =
    let es = entries_of oplog hashes in
    elim (take_keys-IsRecordedIn oplog rest (take_key oplog key hashes state) address r h) [
      | inl earlier ↦
          elim (take_type-Kept (first_type es) es (Dict.get key oplog.current) state address r
            earlier) [
              | inl listed ↦ inl listed
              | inr recorded ↦ inr (key, hashes, inl refl, recorded)
            ]
      | inr (k, hs, m, recorded) ↦ inr (k, hs, inr m, recorded)
    ]

-- Each library in the state of an identity library is recorded by the entries of one key of the index:
-- its first PUT is among them and names its address, no PUT among them sorts after that one, and it is
-- retired exactly if a DEL is among them, whatever came later.
pub identity_library_state-IsRecordedIn :
    (oplog : Oplog) (address : Text) (r : RecordedLibrary)
    → Listed (identity_library_state oplog) address r
    → IsRecordedIn oplog oplog.key_entries address r
unfolding identity_library_state Dict.get
identity_library_state-IsRecordedIn oplog address r h =
    elim (take_keys-IsRecordedIn oplog oplog.key_entries
      (record { libraries = []; links = []; pins = []; profile_of = none }) address r h) [
        | inl nowhere ↦ absurd (ground arith)
        | inr recorded ↦ recorded
      ]
