-- ===== src/Peer/WriteTarget/Allowed.antt =====
-- Which library a write may go to, and under whose authority.
use record_node.Prelude.{
  Text, ◌≡◌, refl, ◌⊎◌, inl, inr, Bool, true, false, not, Option, none, some, arith, is_some,
}
use mathlib.Core.Path.{subst}
use record_node.Dict
use record_node.TextSet
use record_node.Oplog.{Oplog}
use record_node.Peer.{
  PeerContext, PeerIdentity, Answer, answered, invalid, not_found, conflict, >>=-eq-answered,
  demand-eq-answered, found-eq-answered, demand, found, require_identity,
}
use record_node.Peer.Ownership.{OwnLibrary, find_own_library}
use record_node.Peer.Ownership.Owned.{IsOwned, default_write_target-IsOwned, labels_library-IsOwned}
use record_node.Peer.WriteTarget.{
  WriteTarget, WriteKind, label, about, track, is_retired, assert_writable, takes, default_for,
  address_or, under, resolve_write_target,
}

-- What a target that is returned for a peer's key comes to.
pub record IsAllowed (context : PeerContext) (library_address capability_id : Option Text)
    (kind : WriteKind) (target : WriteTarget) : Type 0 where
  pub me : PeerIdentity
  pub is_me : require_identity context ≡ answered me
  pub opened : Dict.get target.address context.libraries ≡ some target.handle
  pub taken : takes target.handle.chain.type kind ≡ true
  pub writable :
      (own : OwnLibrary)
      → find_own_library context target.address ≡ answered (some own)
      → own.retired ≡ false
  -- A signer of the write list cites nothing; any other cites the capability that it was given.
  pub authority :
      ((TextSet.has me.public_key target.handle.chain.write_list ≡ true)
        × (target.capability_id ≡ none))
      ⊎ ((TextSet.has me.public_key target.handle.chain.write_list ≡ false)
          × (target.capability_id ≡ capability_id)
          × (is_some capability_id ≡ true))
  pub as_asked : (address : Text) → library_address ≡ some address → target.address ≡ address
  -- With no library named, the peer's key is in the write list.
  pub unasked : library_address ≡ none → target.capability_id ≡ none

default_for-IsOwned :
    (context : PeerContext) (kind : WriteKind) (me : PeerIdentity) (address : Text)
    → require_identity context ≡ answered me
    → default_for context kind ≡ answered (some address)
    → IsOwned me.public_key context.libraries address
unfolding default_for
default_for-IsOwned context label me address is_me h =
    labels_library-IsOwned context me address is_me h
default_for-IsOwned context about me address is_me h =
    default_write_target-IsOwned context me address is_me h
default_for-IsOwned context track me address is_me h =
    default_write_target-IsOwned context me address is_me h

assert_writable-own :
    (context : PeerContext) (address : Text) {u : Unit {0}}
    → assert_writable context address ≡ answered u
    → (own : OwnLibrary) → find_own_library context address ≡ answered (some own)
    → own.retired ≡ false
unfolding assert_writable
assert_writable-own context address h own is_own =
    let (o, is_o, kept) = >>=-eq-answered (find_own_library context address) _ h in
    let same : o ≡ some own = cc in
    let active : not (is_retired o) ≡ true =
      demand-eq-answered (not (is_retired o)) conflict kept in
    let here : not own.retired ≡ true = rw same at active in ground arith

-- What `under` makes of whether the key is listed.
record IsUnder (listed : Bool) (address : Text) (handle : Oplog) (capability_id : Option Text)
    (target : WriteTarget) : Type 0 where
  at_address : target.address ≡ address
  of_handle : target.handle ≡ handle
  cites :
      ((listed ≡ true) × (target.capability_id ≡ none))
      ⊎ ((listed ≡ false) × (target.capability_id ≡ capability_id) × (is_some capability_id ≡ true))

under-IsUnder :
    (listed : Bool) (address : Text) (handle : Oplog) (capability_id : Option Text)
    → (target : WriteTarget) → under listed address handle capability_id ≡ answered target
    → IsUnder listed address handle capability_id target
under-IsUnder true address handle capability_id target h =
    let made : WriteTarget = record { address = address; handle = handle; capability_id = none } in
    let same : made ≡ target = cc in
    subst (IsUnder true address handle capability_id) same
      (record { at_address = refl; of_handle = refl; cites = inl (refl, refl) })
under-IsUnder false address handle none target h = absurd (cc)
under-IsUnder false address handle (some id) target h =
    let made : WriteTarget = record {
      address = address;
      handle = handle;
      capability_id = some id;
    } in
    let same : made ≡ target = cc in
    subst (IsUnder false address handle (some id)) same
      (record { at_address = refl; of_handle = refl; cites = inr (refl, refl, refl) })

address_or-asked :
    (asked : Option Text) (otherwise : Answer (Option Text)) (address : Text)
    → address_or asked otherwise ≡ answered (some address)
    → (name : Text) → asked ≡ some name
    → address ≡ name
address_or-asked none otherwise address h name e = absurd (cc)
address_or-asked (some x) otherwise address h name e = cc

address_or-unasked :
    (asked : Option Text) (otherwise : Answer (Option Text)) (address : Text)
    → address_or asked otherwise ≡ answered (some address)
    → asked ≡ none
    → otherwise ≡ answered (some address)
address_or-unasked none otherwise address h e = h
address_or-unasked (some x) otherwise address h e = absurd (cc)

IsUnder-unasked :
    (listed : Bool) (address : Text) (handle : Oplog) (capability_id : Option Text)
    (target : WriteTarget)
    → IsUnder listed address handle capability_id target
    → listed ≡ true
    → target.capability_id ≡ none
IsUnder-unasked listed address handle capability_id target u yes_listed = elim u.cites [
  | inl (_, nothing) ↦ nothing
  | inr (unlisted, _, _) ↦ absurd (cc)
]

-- The checks of `resolve_write_target`, in their order.
record Passed (context : PeerContext) (library_address : Option Text) (kind : WriteKind)
    (address : Text) (handle : Oplog) (me : PeerIdentity) : Type 0 where
  chosen : address_or library_address (default_for context kind) ≡ answered (some address)
  stored : Dict.get address context.libraries ≡ some handle
  taken : takes handle.chain.type kind ≡ true
  writable : assert_writable context address ≡ answered tt
  is_me : require_identity context ≡ answered me

Passed-IsAllowed :
    (context : PeerContext) (library_address capability_id : Option Text) (kind : WriteKind)
    (target : WriteTarget) (address : Text) (handle : Oplog) (me : PeerIdentity)
    → Passed context library_address kind address handle me
    → IsUnder
        (TextSet.has me.public_key handle.chain.write_list)
        address
        handle
        capability_id
        target
    → IsAllowed context library_address capability_id kind target
Passed-IsAllowed context library_address capability_id kind target address handle me p u = record {
  me = me;
  is_me = p.is_me;
  opened = rw (u.at_address, u.of_handle) p.stored;
  taken = rw u.of_handle p.taken;
  writable = rw u.at_address (assert_writable-own context address p.writable);
  authority = rw u.of_handle u.cites;
  as_asked =
      rw u.at_address
        (address_or-asked library_address (default_for context kind) address p.chosen);
  unasked = λ none_asked.
      let owned = default_for-IsOwned context kind me address p.is_me (
        address_or-unasked library_address (default_for context kind) address p.chosen
          none_asked) in
      let same : owned.oplog ≡ handle = ground (arith, owned.open_here, p.stored) in
      IsUnder-unasked (TextSet.has me.public_key handle.chain.write_list) address handle
        capability_id target u
        (subst (λ (o : Oplog). TextSet.has me.public_key o.chain.write_list ≡ true) same
          owned.listed);
}

-- If a write target is returned, its library is open and takes that kind of write, and is not a retired
-- own library. Either the peer's key is in the write list and nothing is cited, or it is not and the
-- target cites the capability that was given. The library is the one asked for; with none asked for, the
-- key is in its write list.
pub resolve_write_target-IsAllowed :
    (context : PeerContext) (library_address capability_id : Option Text) (kind : WriteKind)
    (target : WriteTarget)
    → resolve_write_target context library_address capability_id kind ≡ answered target
    → IsAllowed context library_address capability_id kind target
unfolding resolve_write_target
resolve_write_target-IsAllowed context library_address capability_id kind target h =
    let (chosen, choice, h1) =
      >>=-eq-answered (address_or library_address (default_for context kind)) _ h in
    let (address, is_chosen, h2) = >>=-eq-answered (found chosen invalid) _ h1 in
    let (handle, opened, h3) =
      >>=-eq-answered (found (Dict.get address context.libraries) not_found) _ h2 in
    let (_, fits, h4) = >>=-eq-answered (demand (takes handle.chain.type kind) invalid) _ h3 in
    let (_, writable, h5) = >>=-eq-answered (assert_writable context address) _ h4 in
    let (me, is_me, last) = >>=-eq-answered (require_identity context) _ h5 in
    Passed-IsAllowed context library_address capability_id kind target address handle me
      (record {
        chosen = rw (found-eq-answered chosen invalid is_chosen) at choice;
        stored = found-eq-answered (Dict.get address context.libraries) not_found opened;
        taken = demand-eq-answered (takes handle.chain.type kind) invalid fits;
        writable = writable;
        is_me = is_me;
      })
      (under-IsUnder (TextSet.has me.public_key handle.chain.write_list) address handle
        capability_id target last)
