-- ===== src/Oplog/Identities.antt =====
-- oplog/identity-library.ts: the state that an identity library records. The two types of operation of
-- an identity library are the constructors `identity_put` and `identity_del`.
pub mod Recorded
use record_node.Prelude.{Text, Bool, true, false, Option, none, some, List, [], ◌∷◌, any}
use record_node.Dict
use record_node.Dict.{Dict}
use record_node.TextSet
use record_node.Entry.{
  VerifiedEntry, EntryPayload, identity_put, identity_del, IdentityRecord, library_record,
  link_record, pin_record, profile_record, IdentityRecordType, library, link, pin, profile,
  ProfileRecord,
}
use record_node.Oplog.{Oplog, entries_at}
use record_node.Oplog.Order.{least_entry}

pub record RecordedLibrary : Type 0 where
  pub retired : Bool
  pub first_put : VerifiedEntry

pub record IdentityLibraryState : Type 0 where
  pub libraries : Dict RecordedLibrary
  pub links : Dict (Option Text)
  pub pins : List Text
  pub profile_of : Option ProfileRecord

abbrev record_type : IdentityRecord → IdentityRecordType
record_type (library_record _ _) = library
record_type (link_record _ _ _) = link
record_type (pin_record _ _) = pin
record_type (profile_record _) = profile

-- `operation.value.type` of an operation of an identity library.
unfoldable type_of : EntryPayload → Option IdentityRecordType
type_of (identity_put _ value) = some (record_type value)
type_of (identity_del _ type _) = some type
type_of _ = none

-- The entries whose operation is one of an identity library.
unfoldable pub identity_entries : List VerifiedEntry → List VerifiedEntry
unfolding type_of
identity_entries [] = []
identity_entries (e ∷ es) =
    let rest = identity_entries es in elim (type_of e.operation) [ none ↦ rest | some _ ↦ e ∷ rest ]

abbrev pub is_identity_put : EntryPayload → Bool
is_identity_put (identity_put _ _) = true
is_identity_put _ = false

abbrev pub is_identity_del : EntryPayload → Bool
is_identity_del (identity_del _ _ _) = true
is_identity_del _ = false

unfoldable pub puts_of : List VerifiedEntry → List VerifiedEntry
puts_of [] = []
puts_of (e ∷ es) =
    let rest = puts_of es in elim (is_identity_put e.operation) [ true ↦ e ∷ rest | false ↦ rest ]

unfoldable pub add_library :
    EntryPayload → VerifiedEntry → List VerifiedEntry → IdentityLibraryState → IdentityLibraryState
add_library (identity_put _ (library_record _ address)) first es state = record state {
  libraries =
      Dict.set address
        (record {
          retired = any (λ (e : VerifiedEntry). is_identity_del e.operation) es;
          first_put = first;
        })
        state.libraries;
}
add_library _ first es state = state

unfoldable pub take_library :
    Option VerifiedEntry → List VerifiedEntry → IdentityLibraryState → IdentityLibraryState
unfolding add_library
take_library none es state = state
take_library (some first) es state = add_library first.operation first es state

-- The current record of a link, a pin or the profile, if it is a PUT.
unfoldable pub take_current :
    IdentityRecordType → EntryPayload → IdentityLibraryState → IdentityLibraryState
take_current link (identity_put _ (link_record _ address alias)) state = record state {
  links = Dict.set address alias state.links;
}
take_current pin (identity_put _ (pin_record _ cid)) state = record state {
  pins = TextSet.add cid state.pins;
}
take_current profile (identity_put _ (profile_record value)) state = record state {
  profile_of = some value;
}
take_current _ _ state = state

unfoldable pub take_current_of :
    IdentityRecordType → Option VerifiedEntry → IdentityLibraryState → IdentityLibraryState
unfolding take_current
take_current_of type none state = state
take_current_of type (some e) state = take_current type e.operation state

unfoldable pub take_type :
    Option IdentityRecordType
    → List VerifiedEntry
    → Option VerifiedEntry
    → IdentityLibraryState
    → IdentityLibraryState
unfolding take_library take_current_of puts_of
take_type none es current state = state
take_type (some library) es current state = take_library (least_entry (puts_of es)) es state
take_type (some type) es current state = take_current_of type current state

unfoldable pub first_type : List VerifiedEntry → Option IdentityRecordType
unfolding type_of
first_type [] = none
first_type (e ∷ es) = type_of e.operation

-- One turn of the loop over `key_entries`.
unfoldable pub take_key : Oplog → Text → List Text → IdentityLibraryState → IdentityLibraryState
unfolding take_type first_type identity_entries
take_key oplog key hashes state =
    let es = identity_entries (entries_at oplog.entries hashes) in
    take_type (first_type es) es (Dict.get key oplog.current) state

unfoldable pub take_keys : Oplog → Dict (List Text) → IdentityLibraryState → IdentityLibraryState
unfolding take_key
take_keys oplog [] state = state
take_keys oplog ((key, hashes) ∷ rest) state =
    take_keys oplog rest (take_key oplog key hashes state)

unfoldable pub identity_library_state : Oplog → IdentityLibraryState
unfolding take_keys
identity_library_state oplog =
    take_keys oplog oplog.key_entries
      (record { libraries = []; links = []; pins = []; profile_of = none })
