-- ===== src/Replication/Announcements.antt =====
-- replication/announcement.ts: which of the entries that a peer announces are kept, from the message and
-- the blocks of the access-control chain alone. An announced entry is a value that nothing has checked.
pub mod Trusted
use record_node.Prelude.{Text, lit, text_eq, true, ◌&&◌, Option, none, some, if◌then◌else◌}
use record_node.TextSet
use record_node.Value.{Value}
use record_node.Entry.{
  AboutRecord, ProfileRecord, EntryPayload, about_put, identity_put, profile_record, LibraryType,
  identity, SignedEntry, HashedEntry,
}
use record_node.Result.{Result, ok, err, ◌>>=◌}
use record_node.Host.{Host}
use record_node.Identity.{sha256_hex}
use record_node.Entry.Records.{about_key}
use record_node.Entry.Operations.{validate_operation}
use record_node.Entry.Signed.{assert_signed_entry_shape, hash_signed_entry, verify_entry_signature}
use record_node.Oplog.{ResolvedAcChain}
use record_node.Oplog.Accept.{check_entry}
use record_node.Access.Chain.{BlockGet, resolve_ac_chain, identity_library_address}

pub record VerifiedAbout : Type 0 where
  pub hashed : HashedEntry
  pub value : AboutRecord

pub record VerifiedLibrary : Type 0 where
  pub chain : ResolvedAcChain
  pub about : Option VerifiedAbout

pub record VerifiedProfile : Type 0 where
  pub hashed : HashedEntry
  pub value : ProfileRecord

module _ (host : Host) where
  abbrev pub when_signed : Result SignedEntry → Option HashedEntry
  when_signed (err _) = none
  when_signed (ok e) =
      if verify_entry_signature host e then some (hash_signed_entry host e) else none

  -- Malformed, or with a signature that fails: `none`.
  unfoldable pub verified_entry : Value → Option HashedEntry
  verified_entry value = when_signed (assert_signed_entry_shape value)

  abbrev pub verified_announced : Option Value → Option HashedEntry
  verified_announced none = none
  verified_announced (some value) = verified_entry value

  -- `is_about_put(operation) && operation.key === ABOUT_KEY`.
  abbrev pub about_in : HashedEntry → Result EntryPayload → Option VerifiedAbout
  about_in hashed (ok (about_put key value _)) =
      if text_eq key (about_key host)
      then some (record { hashed = hashed; value = value })
      else none
  about_in hashed _ = none

  abbrev pub about_of : Text → ResolvedAcChain → Option HashedEntry → Option VerifiedAbout
  about_of address chain none = none
  about_of address chain (some hashed) =
      if text_eq hashed.entry.id address && TextSet.has hashed.entry.key chain.write_list
      then about_in hashed (check_entry host chain hashed)
      else none

  abbrev pub library_of : Text → Option Value → Result ResolvedAcChain → Option VerifiedLibrary
  library_of address about (err _) = none
  library_of address about (ok chain) =
      some (record { chain = chain; about = about_of address chain (verified_announced about) })

  unfoldable pub verify_announced_library :
      BlockGet → (address : Text) → (about : Option Value) → Option VerifiedLibrary
  unfolding verified_entry
  verify_announced_library get address about =
      library_of address about (resolve_ac_chain host get address)

  -- The operation is a PUT of a profile under `PROFILE_KEY`.
  abbrev pub profile_in : HashedEntry → Result EntryPayload → Option VerifiedProfile
  profile_in hashed (ok (identity_put key (profile_record value))) =
      if text_eq key (sha256_hex host (lit "profile"))
      then some (record { hashed = hashed; value = value })
      else none
  profile_in hashed _ = none

  abbrev pub profile_of : Option HashedEntry → Option VerifiedProfile
  profile_of none = none
  profile_of (some hashed) =
      if text_eq hashed.entry.id (identity_library_address host hashed.entry.key)
      then profile_in hashed (validate_operation host hashed.entry.payload identity true)
      else none

  unfoldable pub verify_announced_profile : Value → Option VerifiedProfile
  unfolding verified_entry
  verify_announced_profile value = profile_of (verified_entry value)
