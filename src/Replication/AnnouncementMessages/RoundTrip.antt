-- ===== src/Replication/AnnouncementMessages/RoundTrip.antt =====
-- What a peer reads of an announcement that another encoded.
use record_node.Prelude.{
  ℕ, ◌≤◌, Text, Bytes, text_eq, ◌≡◌, refl, true, Option, none, some, List, [], ◌∷◌, map, In, inl,
  inr, is_some,
}
use record_node.Value.{Value, uint, text, get_field, as_record, as_text, as_array, items}
use record_node.Entry.{SignedEntry}
use record_node.Result.{is_ok}
use record_node.Host.{Host}
use record_node.Access.Records.{array_of}
use record_node.Encoding.LibraryAddress.{parse_library_address}
use record_node.Entry.Signed.{signed_value}
use record_node.Replication.Heads.{Data, network_message_max_bytes, parse_bounded}
use record_node.Replication.Heads.Bounded.{within}
use record_node.Replication.AnnouncementMessages.Json.{through_json, through_items}
use record_node.Replication.AnnouncementMessages.Plain.{is_plain, through_json-plain}
use record_node.Replication.AnnouncementMessages.{
  AnnouncedLibrary, Announcement, announced_entry, library_value, items_of, message_of,
  announcement_data, entry_like, about_like, announced_library, announced_libraries,
  announced_profiles, announcement_of, decode_announcement,
}

-- An entry in the form that an announcement carries, whose payload is a map with nothing in it that JSON
-- changes.
pub record IsSent (value : Value) : Type 0 where
  pub entry : SignedEntry
  pub carried : value ≡ announced_entry entry
  pub mapped : is_some (as_record entry.payload) ≡ true
  pub plain : is_plain entry.payload ≡ true

abbrev pub IsSentAbout : Option Value → Type 0
IsSentAbout none = Unit
IsSentAbout (some value) = IsSent value

pub record IsSendable (host : Host) (library : AnnouncedLibrary) : Type 0 where
  pub addressed : is_ok (parse_library_address host library.address) ≡ true
  pub about_sent : IsSentAbout library.about

items-items_of : (vs : List Value) → items (items_of vs) ≡ vs
unfolding items items_of
items-items_of [] = refl
items-items_of (v ∷ vs) = rw (items-items_of vs) refl

entry_like-announced :
    (e : SignedEntry)
    → is_some (as_record e.payload) ≡ true
    → entry_like (announced_entry e) ≡ some (announced_entry e)
unfolding entry_like signed_value as_record as_text get_field text_eq
entry_like-announced e h = rw h refl

entry_like-IsSent : (value : Value) → IsSent value → entry_like value ≡ some value
entry_like-IsSent value sent = rw sent.carried (entry_like-announced sent.entry sent.mapped)

about_like-IsSentAbout : (about : Option Value) → IsSentAbout about → about_like about ≡ about
about_like-IsSentAbout none sent = refl
about_like-IsSentAbout (some value) sent = entry_like-IsSent value sent

announced_profiles-IsSent :
    (vs : List Value) → ((v : Value) → In v vs → IsSent v) → announced_profiles vs ≡ vs
unfolding announced_profiles
announced_profiles-IsSent [] sent = refl
announced_profiles-IsSent (v ∷ vs) sent =
    rw
      (
        entry_like-IsSent v (sent v (inl refl)),
        announced_profiles-IsSent vs (λ w m. sent w (inr m)),
      )
      refl

module _ (cid_json : Bytes → Value) where
  through_items-texts :
      (ts : List Text)
      → through_items cid_json (array_of (map text ts)) ≡ some (array_of (map text ts))
  unfolding array_of through_json
  through_items-texts [] = refl
  through_items-texts (t ∷ ts) = rw (through_items-texts ts) refl

  through_json-announced :
      (e : SignedEntry)
      → through_json cid_json e.payload ≡ some e.payload
      → through_json cid_json (announced_entry e) ≡ some (announced_entry e)
  unfolding through_json signed_value uint
  through_json-announced e unchanged =
      rw (unchanged, through_items-texts e.next, through_items-texts e.refs) refl

  through_json-IsSent : (value : Value) → IsSent value → through_json cid_json value ≡ some value
  through_json-IsSent value sent = rw sent.carried (
      through_json-announced sent.entry (through_json-plain cid_json sent.entry.payload sent.plain))

  through_json-library :
      (address : Text) (about : Option Value)
      → IsSentAbout about
      → through_json cid_json (library_value (record { address = address; about = about }))
        ≡ some (library_value (record { address = address; about = about }))
  unfolding through_json
  through_json-library address none sent = refl
  through_json-library address (some about) sent = rw (through_json-IsSent about sent) refl

  through_items-sent :
      (vs : List Value)
      → ((v : Value) → In v vs → IsSent v)
      → through_items cid_json (items_of vs) ≡ some (items_of vs)
  unfolding through_json items_of
  through_items-sent [] sent = refl
  through_items-sent (v ∷ vs) sent =
      rw (through_json-IsSent v (sent v (inl refl)), through_items-sent vs (λ w m. sent w (inr m)))
        refl

module _ (host : Host) (cid_json : Bytes → Value) where
  through_items-libraries :
      (ls : List AnnouncedLibrary)
      → ((l : AnnouncedLibrary) → In l ls → IsSendable host l)
      → through_items cid_json (items_of (map library_value ls))
        ≡ some (items_of (map library_value ls))
  unfolding through_json items_of
  through_items-libraries [] sent = refl
  through_items-libraries (l ∷ ls) sent =
      rw
        (
          through_json-library cid_json l.address l.about ((sent l (inl refl)).about_sent),
          through_items-libraries ls (λ k m. sent k (inr m)),
        )
        refl

  through_json-message :
      (a : Announcement)
      → ((l : AnnouncedLibrary) → In l a.libraries → IsSendable host l)
      → ((v : Value) → In v a.profiles → IsSent v)
      → through_json cid_json (message_of a) ≡ some (message_of a)
  unfolding through_json message_of
  through_json-message a libraries profiles =
      rw
        (
          through_items-libraries a.libraries libraries,
          through_items-sent cid_json a.profiles profiles,
        )
        refl

  announced_library-value :
      (address : Text) (about : Option Value)
      → is_ok (parse_library_address host address) ≡ true
      → IsSentAbout about
      → announced_library host (library_value (record { address = address; about = about }))
        ≡ some (record { address = address; about = about })
  unfolding announced_library as_record as_text get_field text_eq
  announced_library-value address none addressed sent = rw addressed refl
  announced_library-value address (some about) addressed sent =
      rw (addressed, entry_like-IsSent about sent) refl

  announced_libraries-IsSendable :
      (ls : List AnnouncedLibrary)
      → ((l : AnnouncedLibrary) → In l ls → IsSendable host l)
      → announced_libraries host (map library_value ls) ≡ ls
  unfolding announced_libraries
  announced_libraries-IsSendable [] sent = refl
  announced_libraries-IsSendable (l ∷ ls) sent =
      let first = sent l (inl refl) in
      rw
        (
          announced_library-value l.address l.about first.addressed first.about_sent,
          announced_libraries-IsSendable ls (λ k m. sent k (inr m)),
        )
        refl

  value-decoded :
      (a : Announcement)
      → ((l : AnnouncedLibrary) → In l a.libraries → IsSendable host l)
      → ((v : Value) → In v a.profiles → IsSent v)
      → announcement_of host (some (message_of a)) ≡ some a
  unfolding message_of as_record as_array get_field text_eq
  value-decoded a libraries profiles =
      rw
        (
          items-items_of (map library_value a.libraries),
          items-items_of a.profiles,
          announced_libraries-IsSendable a.libraries libraries,
          announced_profiles-IsSent a.profiles profiles,
        )
        refl

  -- If every library of an announcement has a library address, every entry is a signed entry whose
  -- payload is a map with no byte array, link, bigint or negative zero in it, and the text is within the
  -- bound of a network message, then the announcement is encoded, and the decoder reads the message back
  -- as it was.
  pub decode-announcement_data :
      (message_bytes : Announcement → ℕ) (a : Announcement)
      → message_bytes a ≤ network_message_max_bytes
      → ((l : AnnouncedLibrary) → In l a.libraries → IsSendable host l)
      → ((v : Value) → In v a.profiles → IsSent v)
      → (sent : Data) × (announcement_data cid_json message_bytes a ≡ some sent)
        × (decode_announcement host sent ≡ some a)
  unfolding decode_announcement announcement_data parse_bounded
  decode-announcement_data message_bytes a fits libraries profiles = (
    record { size = message_bytes a; json = some (message_of a) },
    rw (through_json-message a libraries profiles) refl,
    rw (within network_message_max_bytes (message_bytes a) fits)
        (value-decoded a libraries profiles),
  )
