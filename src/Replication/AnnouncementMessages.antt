-- ===== src/Replication/AnnouncementMessages.antt =====
-- replication/messages.ts: the announcement as a JSON value, its encoder within the bound of a network
-- message, and its decoder. A message travels as the length in bytes of its JSON text, which is a
-- parameter, and the value that the text parses to.
pub mod Json
pub mod Plain
pub mod Fitting
pub mod RoundTrip
use record_node.Prelude.{
  ℕ, zero, suc, Text, Bytes, lit, ◌&&◌, Option, none, some, List, [], ◌∷◌, map, keep, length, take,
  leb, is_some, cons_some, if◌then◌else◌,
}
use record_node.Dict
use record_node.Dict.{Dict}
use record_node.TextSet
use record_node.Value.{
  Value, Items, Fields, text, array, map_of, get_field, as_record, as_text, as_array,
}
use record_node.Entry.{SignedEntry}
use record_node.Result.{is_ok}
use record_node.Host.{Host}
use record_node.Encoding.LibraryAddress.{parse_library_address}
use record_node.Access.Filter.Shapes.{fields_of}
use record_node.Entry.Signed.{signed_value}
use record_node.Replication.Heads.{Data, network_message_max_bytes, parse_bounded}
use record_node.Replication.AnnouncementMessages.Json.{through_json}

-- Entries as received: values that nothing has checked.
pub record AnnouncedLibrary : Type 0 where
  pub address : Text
  pub about : Option Value

pub record Announcement : Type 0 where
  pub libraries : List AnnouncedLibrary
  pub profiles : List Value

-- The eight fields of a signed entry, as it is announced.
abbrev pub announced_entry : SignedEntry → Value
announced_entry e = signed_value e

abbrev pub library_value : AnnouncedLibrary → Value
library_value library = map_of (
    Fields.field (lit "address") (text library.address) (elim library.about [
      | none ↦ Fields.end
      | some about ↦ Fields.field (lit "about") about Fields.end
    ]))

unfoldable pub items_of : List Value → Items
items_of [] = Items.nil
items_of (v ∷ vs) = Items.item v (items_of vs)

-- The object that `message_of` gives to `JSON.stringify`.
unfoldable pub message_of : Announcement → Value
unfolding items_of
message_of a = map_of (
    Fields.field (lit "libraries") (array (items_of (map library_value a.libraries)))
      (Fields.field (lit "profiles") (array (items_of a.profiles)) Fields.end))

-- The owners that the kept libraries name.
unfoldable pub owner_keys : Dict Text → List AnnouncedLibrary → List Text
owner_keys owners [] = []
owner_keys owners (l ∷ ls) = cons_some (Dict.get l.address owners) (owner_keys owners ls)

abbrev pub profiles_for : Dict Text → List SignedEntry → List AnnouncedLibrary → List SignedEntry
profiles_for [] profiles kept = profiles
profiles_for (o ∷ os) profiles kept =
    keep (λ (p : SignedEntry). TextSet.has p.key (owner_keys (o ∷ os) kept)) profiles

module _ (libraries : List AnnouncedLibrary) (profiles : List SignedEntry)
    (owners : Dict Text) where
  -- The message with the first `n` libraries.
  unfoldable pub with_first : ℕ → Announcement
  unfolding owner_keys
  with_first n = record {
    libraries = take n libraries;
    profiles = map announced_entry (profiles_for owners profiles (take n libraries));
  }

  module _ (message_bytes : Announcement → ℕ) (own_count : ℕ) where
    -- The loop, with `n` libraries kept.
    unfoldable pub fit : ℕ → Option Announcement
    unfolding with_first
    fit zero =
        if leb (message_bytes (with_first 0)) network_message_max_bytes
        then some (with_first 0)
        else none
    fit (suc n) =
        let shorter = fit n in
        if leb (message_bytes (with_first (suc n))) network_message_max_bytes
        then some (with_first (suc n))
        else if leb (suc n) own_count
        then none
        else shorter

    unfoldable pub encode_announcement : Option Announcement
    unfolding fit
    encode_announcement = fit (length libraries)

-- `encoder.encode(message_of(announcement))`; `none` is when `JSON.stringify` throws.
abbrev pub data_of : ℕ → Option Value → Option Data
data_of size none = none
data_of size (some json) = some (record { size = size; json = some json })

unfoldable pub announcement_data :
    (cid_json : Bytes → Value) → (message_bytes : Announcement → ℕ) → Announcement → Option Data
unfolding message_of
announcement_data cid_json message_bytes a =
    data_of (message_bytes a) (through_json cid_json (message_of a))

abbrev pub is_entry_like : Option Fields → Value → Option Value
is_entry_like none value = none
is_entry_like (some fields) value =
    if is_some (fields_of (get_field (lit "payload") fields))
      && is_some (as_text (get_field (lit "id") fields))
      && is_some (as_text (get_field (lit "key") fields))
    then some value
    else none

-- A map shaped as a signed entry; its fields are checked when it is verified.
unfoldable pub entry_like : Value → Option Value
entry_like value = is_entry_like (as_record value) value

abbrev pub about_like : Option Value → Option Value
about_like none = none
about_like (some value) = entry_like value

unfoldable pub announced_profiles : List Value → List Value
unfolding entry_like
announced_profiles [] = []
announced_profiles (v ∷ vs) = cons_some (entry_like v) (announced_profiles vs)

abbrev pub profiles_in : Option (List Value) → List Value
profiles_in none = []
profiles_in (some vs) = announced_profiles vs

module _ (host : Host) where
  abbrev pub library_at : Option Text → Fields → Option AnnouncedLibrary
  library_at none fields = none
  library_at (some address) fields =
      if is_ok (parse_library_address host address)
      then some (record { address = address; about = about_like (get_field (lit "about") fields) })
      else none

  abbrev pub library_in : Option Fields → Option AnnouncedLibrary
  library_in none = none
  library_in (some fields) = library_at (as_text (get_field (lit "address") fields)) fields

  unfoldable pub announced_library : Value → Option AnnouncedLibrary
  unfolding entry_like
  announced_library value = library_in (as_record value)

  unfoldable pub announced_libraries : List Value → List AnnouncedLibrary
  unfolding announced_library
  announced_libraries [] = []
  announced_libraries (v ∷ vs) = cons_some (announced_library v) (announced_libraries vs)

  abbrev pub announcement_at : Option (List Value) → Fields → Option Announcement
  announcement_at none fields = none
  announcement_at (some libraries) fields = some (record {
    libraries = announced_libraries libraries;
    profiles = profiles_in (as_array (get_field (lit "profiles") fields));
  })

  abbrev pub announcement_in : Option Fields → Option Announcement
  announcement_in none = none
  announcement_in (some fields) =
      announcement_at (as_array (get_field (lit "libraries") fields)) fields

  abbrev pub announcement_of : Option Value → Option Announcement
  announcement_of none = none
  announcement_of (some value) = announcement_in (as_record value)

  unfoldable pub decode_announcement : Data → Option Announcement
  unfolding announced_libraries announced_profiles
  decode_announcement data' = announcement_of (parse_bounded data')
