-- ===== src/Replication/Announcements/Trusted.antt =====
-- What holds of an About record or a profile that an announcement is believed for.
use record_node.Prelude.{
  Text, text_eq, text_eq_iff, ◌≡◌, refl, true, ◌&&◌, Option, none, some, arith, Bool-cases, inl,
  inr,
}
use mathlib.Core.Path.{subst}
use record_node.TextSet
use record_node.Value.{Value}
use record_node.Entry.{EntryPayload, about_put, SignedEntry, HashedEntry}
use record_node.Result.{Result, ok, err}
use record_node.Host.{Host}
use record_node.Entry.Records.{about_key}
use record_node.Entry.Signed.{
  assert_signed_entry_shape, hash_signed_entry, with_hash, verify_entry_signature,
}
use record_node.Oplog.{Oplog, ResolvedAcChain}
use record_node.Oplog.Accept.{check_entry, assert_clock, as_verified, verify_entry}
use record_node.Access.Authorise.{authorise_entry}
use record_node.Access.Chain.{BlockGet, resolve_ac_chain}
use record_node.Replication.Announcements.{
  VerifiedAbout, VerifiedLibrary, when_signed, verified_entry, verified_announced, about_in,
  about_of, library_of, verify_announced_library,
}

module _ (host : Host) where
  -- The operation that a believed About record stands in, under the capability that it cites.
  pub record IsAbout (chain : ResolvedAcChain) (about : VerifiedAbout) : Type 0 where
    pub cited : Option Text
    pub checked :
        check_entry host chain about.hashed ≡ ok (about_put (about_key host) about.value cited)

  -- Believed of the library at `address`: a write-list key of that library signed it, and a merge into
  -- an oplog of the chain verifies it once its clock fits.
  pub record IsTrusted (address : Text) (chain : ResolvedAcChain) (about : VerifiedAbout)
      : Type 0 where
    pub names : about.hashed.entry.id ≡ address
    pub listed : TextSet.has about.hashed.entry.key chain.write_list ≡ true
    pub signed : verify_entry_signature host about.hashed.entry ≡ true
    pub operation : IsAbout chain about
    pub merges :
        (oplog : Oplog)
        → oplog.chain ≡ chain
        → assert_clock oplog about.hashed ≡ ok tt
        → verify_entry host oplog about.hashed
          ≡ ok (as_verified about.hashed (about_put (about_key host) about.value operation.cited))

  when_signed-signed :
      (r : Result SignedEntry) (hashed : HashedEntry)
      → when_signed host r ≡ some hashed
      → verify_entry_signature host hashed.entry ≡ true
  unfolding hash_signed_entry with_hash
  when_signed-signed (err c) hashed h = absurd (cc)
  when_signed-signed (ok e) hashed h = elim (Bool-cases (verify_entry_signature host e)) [
    | inl yes_signed ↦
        let same : hash_signed_entry host e ≡ hashed = ground arith in
        subst (λ (x : HashedEntry). verify_entry_signature host x.entry ≡ true) same yes_signed
    | inr unsigned ↦ absurd (ground arith)
  ]

  verified_announced-signed :
      (about : Option Value) (hashed : HashedEntry)
      → verified_announced host about ≡ some hashed
      → verify_entry_signature host hashed.entry ≡ true
  unfolding verified_entry
  verified_announced-signed none hashed h = absurd (cc)
  verified_announced-signed (some value) hashed h =
      when_signed-signed (assert_signed_entry_shape value) hashed h

  -- The operation of an entry that `about_in` keeps.
  record IsAboutOf (hashed : HashedEntry) (r : Result EntryPayload) (about : VerifiedAbout)
      : Type 0 where
    same : about.hashed ≡ hashed
    cited : Option Text
    checked : r ≡ ok (about_put (about_key host) about.value cited)

  about_in-IsAboutOf :
      (hashed : HashedEntry) (r : Result EntryPayload) (about : VerifiedAbout)
      → about_in host hashed r ≡ some about
      → IsAboutOf hashed r about
  about_in-IsAboutOf hashed (ok (about_put key value cited)) about h =
      elim (Bool-cases (text_eq key (about_key host))) [
        | inl same ↦
            let made : VerifiedAbout = record { hashed = hashed; value = value } in
            let found : made ≡ about = ground arith in
            let named : key ≡ about_key host = (text_eq_iff key (about_key host)).0 same in
            subst (IsAboutOf hashed (ok (about_put key value cited))) found
              (record { same = refl; cited = cited; checked = rw named refl })
        | inr other ↦ absurd (ground arith)
      ]
  about_in-IsAboutOf hashed _ about h = absurd (cc)

  -- In an oplog of the chain, a write-list key needs no authority.
  verify_entry-listed :
      (oplog : Oplog) (hashed : HashedEntry) (operation : EntryPayload)
      → TextSet.has hashed.entry.key oplog.chain.write_list ≡ true
      → check_entry host oplog.chain hashed ≡ ok operation
      → assert_clock oplog hashed ≡ ok tt
      → verify_entry host oplog hashed ≡ ok (as_verified hashed operation)
  unfolding verify_entry authorise_entry
  verify_entry-listed oplog hashed operation listed checked clock = rw (checked, clock, listed) refl

  about_of-IsTrusted :
      (address : Text) (chain : ResolvedAcChain) (announced : Option HashedEntry)
      → ((hashed : HashedEntry)
          → announced ≡ some hashed
          → verify_entry_signature host hashed.entry ≡ true)
      → (about : VerifiedAbout) → about_of host address chain announced ≡ some about
      → IsTrusted address chain about
  about_of-IsTrusted address chain none signed about h = absurd (cc)
  about_of-IsTrusted address chain (some hashed) signed about h =
      elim (Bool-cases
        (text_eq hashed.entry.id address && TextSet.has hashed.entry.key chain.write_list)) [
          | inl fits ↦
              let kept : about_in host hashed (check_entry host chain hashed) ≡ some about =
                ground arith in
              let about_is = about_in-IsAboutOf hashed (check_entry host chain hashed) about kept in
              let names : text_eq hashed.entry.id address ≡ true = ground arith in
              let listed : TextSet.has hashed.entry.key chain.write_list ≡ true = ground arith in
              let same = about_is.same in
              record {
                names = rw same ((text_eq_iff hashed.entry.id address).0 names);
                listed = rw same listed;
                signed = rw same (signed hashed refl);
                operation = record { cited = about_is.cited; checked = rw same about_is.checked };
                merges = λ oplog of_chain clock.
                    verify_entry-listed oplog about.hashed
                      (about_put (about_key host) about.value about_is.cited)
                      (rw (of_chain, same) listed) (rw (of_chain, same) about_is.checked) clock;
              }
          | inr strange ↦ absurd (ground arith)
        ]

  -- What an announced library that verifies comes to.
  pub record IsTrustedLibrary (get : BlockGet) (address : Text) (library : VerifiedLibrary)
      : Type 0 where
    pub resolved : resolve_ac_chain host get address ≡ ok library.chain
    pub trusted :
        (about : VerifiedAbout) → library.about ≡ some about → IsTrusted address library.chain about

  library_of-IsTrusted :
      (get : BlockGet) (address : Text) (about : Option Value) (r : Result ResolvedAcChain)
      → resolve_ac_chain host get address ≡ r
      → (library : VerifiedLibrary) → library_of host address about r ≡ some library
      → IsTrustedLibrary get address library
  library_of-IsTrusted get address about (err c) resolved library h = absurd (cc)
  library_of-IsTrusted get address about (ok chain) resolved library h =
      let made : VerifiedLibrary = record {
        chain = chain;
        about = about_of host address chain (verified_announced host about);
      } in
      let same : made ≡ library = cc in
      subst (IsTrustedLibrary get address) same (record {
        resolved = resolved;
        trusted =
            about_of-IsTrusted address chain (verified_announced host about)
              (verified_announced-signed about);
      })

  -- If an announced library verifies, its access-control chain is the one that the blocks at its address
  -- resolve to. An About record that is kept with it names the address, carries a valid signature of a
  -- key of the chain's write list, and stands in a PUT under the About key that passes the check of an
  -- entry; an oplog of that chain in which its clock fits verifies it as the same operation.
  pub verify_announced_library-IsTrusted :
      (get : BlockGet) (address : Text) (about : Option Value) (library : VerifiedLibrary)
      → verify_announced_library host get address about ≡ some library
      → IsTrustedLibrary get address library
  unfolding verify_announced_library
  verify_announced_library-IsTrusted get address about library h =
      library_of-IsTrusted get address about (resolve_ac_chain host get address) refl library h
