-- ===== src/Peer/Ownership/Owned.antt =====
-- What is known of an own library, and of the library that a write goes to when none is named.
use record_node.Prelude.{
  Text, ◌≡◌, refl, sym, Bool, true, Option, none, some, List, [], ◌∷◌, arith, In, inl, inr,
  Bool-cases, Option-cases,
}
use mathlib.Core.Path.{subst}
use record_node.Dict
use record_node.Dict.{Dict}
use record_node.TextSet
use record_node.Entry.{LibraryType, recordstore, labels}
use record_node.Oplog.{Oplog}
use record_node.Oplog.Identities.{RecordedLibrary}
use record_node.Peer.{PeerContext, PeerIdentity, answered, >>=-eq-answered, require_identity}
use record_node.Peer.Ownership.{
  OwnLibrary, identity_state, own_at, own_among, own_libraries, active_of, active_own_libraries,
  only_address, first_address, default_write_target, labels_library,
}

-- The library is open, and its write list has the key.
pub record IsOwned (key : Text) (libraries : Dict Oplog) (address : Text) : Type 0 where
  pub oplog : Oplog
  pub open_here : Dict.get address libraries ≡ some oplog
  pub listed : TextSet.has key oplog.chain.write_list ≡ true

own_at-IsOwned :
    (key address : Text) (retired : Bool) (libraries : Dict Oplog) (o : Option Oplog)
    → Dict.get address libraries ≡ o
    → (own : OwnLibrary) → own_at key address retired o ≡ some own
    → IsOwned key libraries own.address
own_at-IsOwned key address retired libraries none opened own h = absurd (cc)
own_at-IsOwned key address retired libraries (some oplog) opened own h =
    elim (Bool-cases (TextSet.has key oplog.chain.write_list)) [
      | inl listed ↦
          let made : OwnLibrary = record {
            address = address;
            type = oplog.chain.type;
            name = oplog.chain.name;
            retired = retired;
          } in
          let same : made ≡ own = ground arith in
          subst (λ (l : OwnLibrary). IsOwned key libraries l.address) same
            (record { oplog = oplog; open_here = opened; listed = listed })
      | inr strange ↦ absurd (ground arith)
    ]

own_among-IsOwned :
    (key : Text) (libraries : Dict Oplog) (recorded : Dict RecordedLibrary) (own : OwnLibrary)
    → In own (own_among key libraries recorded)
    → IsOwned key libraries own.address
unfolding own_among
own_among-IsOwned key libraries [] own m = absurd m
own_among-IsOwned key libraries ((address, r) ∷ rest) own m =
    let opened = Dict.get address libraries in
    elim (Option-cases (own_at key address r.retired opened)) [
      | inl strange ↦ own_among-IsOwned key libraries rest own (rw strange at m)
      | inr (first, is_own) ↦
          let here : In own (first ∷ own_among key libraries rest) = rw is_own at m in
          elim here [
            | inl same ↦
                own_at-IsOwned key address r.retired libraries opened refl own
                  (rw (is_own, same) refl)
            | inr later ↦ own_among-IsOwned key libraries rest own later
          ]
    ]

In-active_of :
    (type : LibraryType) (own : OwnLibrary) (ls : List OwnLibrary)
    → In own (active_of type ls)
    → In own ls
In-active_of type own [] m = m
In-active_of type own (l ∷ ls) m = ground (arith, In-active_of type own ls)

In-only_address :
    (ls : List OwnLibrary) (address : Text)
    → only_address ls ≡ some address
    → (own : OwnLibrary) × In own ls × (own.address ≡ address)
In-only_address [] address h = absurd (cc)
In-only_address (l ∷ []) address h = (l, inl refl, cc)
In-only_address (l ∷ k ∷ ls) address h = absurd (cc)

In-first_address :
    (ls : List OwnLibrary) (address : Text)
    → first_address ls ≡ some address
    → (own : OwnLibrary) × In own ls × (own.address ≡ address)
In-first_address [] address h = absurd (cc)
In-first_address (l ∷ ls) address h = (l, inl refl, cc)

active_own_libraries-IsOwned :
    (context : PeerContext) (type : LibraryType) (me : PeerIdentity) (active : List OwnLibrary)
    → require_identity context ≡ answered me
    → active_own_libraries context type ≡ answered active
    → (own : OwnLibrary) → In own active
    → IsOwned me.public_key context.libraries own.address
unfolding active_own_libraries own_libraries
active_own_libraries-IsOwned context type me active is_me h own m =
    let (owned, listed, kept) = >>=-eq-answered (own_libraries context) _ h in
    let (me', is_me', rest) = >>=-eq-answered (require_identity context) _ listed in
    let (state, _, among) = >>=-eq-answered (identity_state context) _ rest in
    let same : me' ≡ me = cc in
    let all = own_among me.public_key context.libraries state.libraries in
    let whole : active_of type all ≡ active = cc in
    own_among-IsOwned me.public_key context.libraries state.libraries own
      (In-active_of type own all (subst (In own) (sym whole) m))

-- A write that names no library goes to one whose write list has the peer's key.
pub default_write_target-IsOwned :
    (context : PeerContext) (me : PeerIdentity) (address : Text)
    → require_identity context ≡ answered me
    → default_write_target context ≡ answered (some address)
    → IsOwned me.public_key context.libraries address
unfolding default_write_target
default_write_target-IsOwned context me address is_me h =
    let (active, listed, only) = >>=-eq-answered (active_own_libraries context recordstore) _ h in
    let one : only_address active ≡ some address = cc in
    let (own, here, named) = In-only_address active address one in
    subst (IsOwned me.public_key context.libraries) named
      (active_own_libraries-IsOwned context recordstore me active is_me listed own here)

pub labels_library-IsOwned :
    (context : PeerContext) (me : PeerIdentity) (address : Text)
    → require_identity context ≡ answered me
    → labels_library context ≡ answered (some address)
    → IsOwned me.public_key context.libraries address
unfolding labels_library
labels_library-IsOwned context me address is_me h =
    let (active, listed, first) = >>=-eq-answered (active_own_libraries context labels) _ h in
    let one : first_address active ≡ some address = cc in
    let (own, here, named) = In-first_address active address one in
    subst (IsOwned me.public_key context.libraries) named
      (active_own_libraries-IsOwned context labels me active is_me listed own here)
