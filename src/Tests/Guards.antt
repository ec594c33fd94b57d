-- ===== src/Tests/Guards.antt =====
-- Write targets and access tokens on small inputs, and the theorems there.
use record_node.Prelude.{Text, lit, ◌≡◌, refl, true, false, some, none, List, [], ◌∷◌}
use record_node.Dict
use record_node.Oplog.{Oplog, create_oplog, insert_entry}
use record_node.Peer.{PeerContext, Answer, answered}
use record_node.Peer.WriteTarget.{WriteTarget, track, resolve_write_target}
use record_node.Peer.WriteTarget.Allowed.{IsAllowed, resolve_write_target-IsAllowed}
use record_node.Api.AccessTokens.{
  AccessToken, summary_of, issued, issue_access_token, revoke_access_token,
}
use record_node.Api.AccessTokens.Issued.{start, then_issued}
use record_node.Api.AccessTokens.Revoked.{IsSilenced, revoke-IsSilenced}
use record_node.Examples.{chain, claim_entry, owner, chain_host}

-- The identity library claims the one library that is open beside it.
abbrev music_oplog : Oplog
music_oplog = create_oplog (record chain { address = lit "music" })

abbrev context : PeerContext
context = record {
  identity = some (record { public_key = owner; identity_address = lit "identity" });
  libraries =
      (lit "identity", (insert_entry claim_entry (create_oplog chain)).0)
      ∷ (lit "music", music_oplog)
      ∷ [];
  policies = [];
}

abbrev target : WriteTarget
target = record { address = lit "music"; handle = music_oplog; capability_id = none }

target-resolved : resolve_write_target context none none track ≡ answered target
unfolding resolve_write_target record_node.Peer.Ownership.default_write_target Dict.get
    record_node.Prelude.text_eq record_node.Oplog.Identities.identity_library_state insert_entry
    create_oplog Dict.set record_node.Oplog.entries_at record_node.TextSet.add
    record_node.Oplog.Order.least_entry record_node.TextSet.has
    record_node.Peer.Ownership.find_own_library
target-resolved = refl

resolve_write_target-IsAllowed_example : IsAllowed context none none track target
resolve_write_target-IsAllowed_example =
    resolve_write_target-IsAllowed context none none track target target-resolved

abbrev device : AccessToken
device = issued chain_host (lit "a") (lit "device") (lit "secret") (lit "now")

abbrev revoked_device : AccessToken
revoked_device = record device { revoked_at = some (lit "later") }

device-issued :
    issue_access_token chain_host (lit "a" ∷ []) (lit "secret") (lit "device") (lit "now") []
    ≡ some (device ∷ [], summary_of device)
unfolding issue_access_token record_node.TextSet.has
device-issued = refl

device-revoked :
    revoke_access_token (lit "a") (lit "later") (device ∷ [])
    ≡ some (revoked_device ∷ [], summary_of revoked_device)
unfolding revoke_access_token record_node.Prelude.text_eq
device-revoked = refl

revoke-IsSilenced_example : IsSilenced chain_host (lit "a") (device ∷ []) (revoked_device ∷ [])
revoke-IsSilenced_example =
    revoke-IsSilenced chain_host (lit "a") (lit "later") (device ∷ []) (revoked_device ∷ [])
      (summary_of revoked_device)
      (then_issued (lit "a" ∷ []) (lit "secret") (lit "device") (lit "now") start device-issued)
      device-revoked
