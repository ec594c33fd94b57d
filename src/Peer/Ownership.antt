-- ===== src/Peer/Ownership.antt =====
-- peer/ownership.ts: what the identity library makes of the libraries that the peer knows. Every function
-- reads the oplogs anew.
pub mod Owned
use record_node.Prelude.{
  Text, text_eq, text_lt, Bool, true, false, ◌&&◌, ◌||◌, not, Option, none, some, List, [], ◌∷◌,
  ◌++◌, map, keep, cons_some, sort_by, if◌then◌else◌,
}
use record_node.Dict
use record_node.Dict.{Dict}
use record_node.TextSet
use record_node.Entry.{VerifiedEntry, LibraryType, recordstore, listens, labels, identity}
use record_node.Oplog.{Oplog}
use record_node.Oplog.Order.{least_entry}
use record_node.Oplog.Identities.{RecordedLibrary, IdentityLibraryState, identity_library_state}
use record_node.Peer.{
  PeerContext, PeerIdentity, Answer, answered, internal, ◌>>=◌, found, require_identity,
}

pub record OwnLibrary : Type 0 where
  pub address : Text
  pub type : LibraryType
  pub name : Text
  pub retired : Bool

pub record Link : Type 0 where
  pub address : Text
  pub alias : Option Text

unfoldable pub identity_state : PeerContext → Answer IdentityLibraryState
unfolding require_identity
identity_state context = do
  me ← require_identity context
  oplog ← found (Dict.get me.identity_address context.libraries) internal
  answered (identity_library_state oplog)

-- A recorded library counts once its chain is open and lists the key.
abbrev pub own_at : Text → Text → Bool → Option Oplog → Option OwnLibrary
own_at key address retired none = none
own_at key address retired (some oplog) =
    if TextSet.has key oplog.chain.write_list
    then some (record {
      address = address;
      type = oplog.chain.type;
      name = oplog.chain.name;
      retired = retired;
    })
    else none

unfoldable pub own_among : Text → Dict Oplog → Dict RecordedLibrary → List OwnLibrary
own_among key open_libraries [] = []
own_among key open_libraries ((address, recorded) ∷ rest) =
    cons_some (own_at key address recorded.retired (Dict.get address open_libraries))
      (own_among key open_libraries rest)

unfoldable pub own_libraries : PeerContext → Answer (List OwnLibrary)
unfolding identity_state own_among
own_libraries context = do
  me ← require_identity context
  state ← identity_state context
  answered (own_among me.public_key context.libraries state.libraries)

unfoldable pub find_library : Text → List OwnLibrary → Option OwnLibrary
find_library address [] = none
find_library address (l ∷ ls) =
    let rest = find_library address ls in if text_eq l.address address then some l else rest

unfoldable pub find_own_library : PeerContext → Text → Answer (Option OwnLibrary)
unfolding own_libraries find_library
find_own_library context address = do
  own ← own_libraries context
  answered (find_library address own)

unfoldable pub same_type : LibraryType → LibraryType → Bool
same_type recordstore recordstore = true
same_type listens listens = true
same_type labels labels = true
same_type identity identity = true
same_type _ _ = false

abbrev pub active_of : LibraryType → List OwnLibrary → List OwnLibrary
active_of type own = keep (λ (l : OwnLibrary). same_type l.type type && not l.retired) own

unfoldable pub active_own_libraries : PeerContext → LibraryType → Answer (List OwnLibrary)
unfolding own_libraries same_type
active_own_libraries context type = do own ← own_libraries context; answered (active_of type own)

abbrev pub only_address : List OwnLibrary → Option Text
only_address (l ∷ []) = some l.address
only_address _ = none

abbrev pub first_address : List OwnLibrary → Option Text
first_address [] = none
first_address (l ∷ _) = some l.address

-- The only active own recordstore.
unfoldable pub default_write_target : PeerContext → Answer (Option Text)
unfolding active_own_libraries
default_write_target context = do
  active ← active_own_libraries context recordstore
  answered (only_address active)

abbrev pub with_put :
    Text → Option RecordedLibrary → List (VerifiedEntry × Text) → List (VerifiedEntry × Text)
with_put address none rest = rest
with_put address (some recorded) rest = (recorded.first_put, address) ∷ rest

-- The first PUT of each library; entries of one oplog are told apart by their hashes.
unfoldable pub by_put : Dict RecordedLibrary → List OwnLibrary → List (VerifiedEntry × Text)
by_put recorded [] = []
by_put recorded (l ∷ ls) = with_put l.address (Dict.get l.address recorded) (by_put recorded ls)

unfoldable pub put_address : Text → List (VerifiedEntry × Text) → Option Text
put_address hash [] = none
put_address hash ((put, address) ∷ rest) =
    let later = put_address hash rest in if text_eq put.hash hash then some address else later

abbrev pub address_of : List (VerifiedEntry × Text) → Option VerifiedEntry → Option Text
address_of puts none = none
address_of puts (some least) = put_address least.hash puts

abbrev pub entries_of : List (VerifiedEntry × Text) → List VerifiedEntry
entries_of puts = map (λ (p : VerifiedEntry × Text). p.0) puts

-- The active own recordstore that was recorded first.
unfoldable pub default_own_library : PeerContext → Answer (Option Text)
unfolding active_own_libraries by_put put_address
default_own_library context = do
  state ← identity_state context
  active ← active_own_libraries context recordstore
  let puts = by_put state.libraries active
  answered (address_of puts (least_entry (entries_of puts)))

unfoldable pub listens_library : PeerContext → Answer (Option Text)
unfolding active_own_libraries
listens_library context = do
  active ← active_own_libraries context listens
  answered (first_address active)

unfoldable pub labels_library : PeerContext → Answer (Option Text)
unfolding active_own_libraries
labels_library context = do
  active ← active_own_libraries context labels
  answered (first_address active)

unfoldable pub links_in : Dict (Option Text) → List Link
links_in [] = []
links_in ((address, alias) ∷ rest) = record { address = address; alias = alias } ∷ links_in rest

-- The current links, by address.
unfoldable pub link_set : PeerContext → Answer (List Link)
unfolding identity_state links_in
link_set context = do
  state ← identity_state context
  answered (sort_by (λ (a b : Link). text_lt a.address b.address) (links_in state.links))

unfoldable pub linked_addresses : PeerContext → Answer (List Text)
unfolding link_set
linked_addresses context = do
  links ← link_set context
  answered (map (λ (l : Link). l.address) links)

abbrev pub addresses_where : (LibraryType → Bool) → List OwnLibrary → List Text
addresses_where p own =
    map (λ (l : OwnLibrary). l.address) (keep (λ (l : OwnLibrary). p l.type) own)

unfoldable pub own_recordstore_addresses : PeerContext → Answer (List Text)
unfolding own_libraries same_type
own_recordstore_addresses context = do
  own ← own_libraries context
  answered (addresses_where (λ t. same_type t recordstore) own)

unfoldable pub visible_addresses : PeerContext → Answer (List Text)
unfolding own_recordstore_addresses linked_addresses
visible_addresses context = do
  own ← own_recordstore_addresses context
  linked ← linked_addresses context
  answered (own ++ linked)

unfoldable pub own_label_addresses : PeerContext → Answer (List Text)
unfolding own_libraries same_type
own_label_addresses context = do
  own ← own_libraries context
  answered (addresses_where (λ t. same_type t recordstore || same_type t labels) own)

abbrev pub given_or : Option (List Text) → Answer (List Text) → Answer (List Text)
given_or none otherwise = otherwise
given_or (some addresses) otherwise = answered addresses

-- `new Set` of the own ones and of those asked for, or else those linked.
unfoldable pub default_label_libraries : PeerContext → Option (List Text) → Answer (List Text)
unfolding own_label_addresses linked_addresses
default_label_libraries context library_addresses = do
  own ← own_label_addresses context
  asked ← given_or library_addresses (linked_addresses context)
  answered (TextSet.add_all (own ++ asked) [])
