-- ===== src/Peer/WriteTarget.antt =====
-- peer/write-target.ts: the library that a write goes to, and under what authority.
pub mod Allowed
use record_node.Prelude.{Text, Bool, true, false, not, Option, none, some, is_some, if◌then◌else◌}
use record_node.Dict
use record_node.TextSet
use record_node.Entry.{LibraryType, recordstore, labels}
use record_node.Result.{ErrorCode, unauthorised_writer, capability_denied}
use record_node.Oplog.{Oplog}
use record_node.Peer.{
  PeerContext, PeerIdentity, Answer, answered, refused, PeerErrorCode, not_found, conflict,
  forbidden, invalid, ◌>>=◌, demand, found, require_identity,
}
use record_node.Peer.Ownership.{OwnLibrary, find_own_library, default_write_target, labels_library}

pub record WriteTarget : Type 0 where
  pub address : Text
  pub handle : Oplog
  -- `none` for a signer of the write list.
  pub capability_id : Option Text

pub data WriteKind : Type 0 where
  label about track : WriteKind

abbrev pub is_retired : Option OwnLibrary → Bool
is_retired none = false
is_retired (some own) = own.retired

unfoldable pub assert_writable : PeerContext → Text → Answer (Unit {0})
assert_writable context address = do
  own ← find_own_library context address
  demand (not (is_retired own)) conflict

unfoldable pub takes : LibraryType → WriteKind → Bool
takes recordstore kind = true
takes labels track = false
takes labels kind = true
takes _ kind = false

unfoldable pub default_for : PeerContext → WriteKind → Answer (Option Text)
default_for context label = labels_library context
default_for context _ = default_write_target context

abbrev pub address_or : Option Text → Answer (Option Text) → Answer (Option Text)
address_or none otherwise = otherwise
address_or (some address) otherwise = answered (some address)

abbrev pub under : Bool → Text → Oplog → Option Text → Answer WriteTarget
under true address handle capability_id =
    answered (record { address = address; handle = handle; capability_id = none })
under false address handle none = refused forbidden
under false address handle (some id) =
    answered (record { address = address; handle = handle; capability_id = some id })

unfoldable pub resolve_write_target :
    PeerContext → (library_address capability_id : Option Text) → WriteKind → Answer WriteTarget
unfolding assert_writable takes default_for
resolve_write_target context library_address capability_id kind = do
  chosen ← address_or library_address (default_for context kind)
  address ← found chosen invalid
  handle ← found (Dict.get address context.libraries) not_found
  fits ← demand (takes handle.chain.type kind) invalid
  writable ← assert_writable context address
  me ← require_identity context
  under (TextSet.has me.public_key handle.chain.write_list) address handle capability_id

-- `as_write_refusal` on the code of a `ProtocolError`; `none` is thrown as it is.
unfoldable pub as_write_refusal : ErrorCode → Option PeerErrorCode
as_write_refusal ErrorCode.capability_expired = some PeerErrorCode.capability_expired
as_write_refusal ErrorCode.capability_revoked = some PeerErrorCode.capability_revoked
as_write_refusal capability_denied = some forbidden
as_write_refusal unauthorised_writer = some forbidden
as_write_refusal _ = none
