-- ===== src/Peer.antt =====
-- peer/context.ts and types/peer.ts: the state that the peer's operations read, and how they refuse. A
-- library is its chain and its oplog, under its address.
pub mod Ownership
pub mod WriteTarget
pub mod Policy
pub mod State
use record_node.Prelude.{Text, ◌≡◌, refl, Bool, true, false, Option, none, some}
use record_node.Dict.{Dict}
use record_node.Value.{Value}
use record_node.Oplog.{Oplog}

-- `PeerError` codes, and `internal` for a plain `Error`.
pub data PeerErrorCode : Type 0 where
  not_found conflict forbidden capability_expired capability_revoked invalid : PeerErrorCode
  internal : PeerErrorCode

pub data Answer {ℓ} (A : Type ℓ) : Type ℓ where
  refused : (code : PeerErrorCode) → Answer A
  answered : A → Answer A

module _ {ℓ κ} {A : Type ℓ} {B : Type κ} where
  infixl 5 ◌>>=◌
  abbrev pub ◌>>=◌ : (this : Answer A) → (next : A → Answer B) → Answer B
  refused code >>= next = refused code
  answered value >>= next = next value

abbrev pub demand : Bool → PeerErrorCode → Answer (Unit {0})
demand true code = answered tt
demand false code = refused code

abbrev pub found {ℓ} : {A : Type ℓ} → Option A → PeerErrorCode → Answer A
found none code = refused code
found (some a) code = answered a

pub record PeerIdentity : Type 0 where
  pub public_key : Text
  pub identity_address : Text

pub data ReplicationMode : Type 0 where
  full selective index_only : ReplicationMode

pub record StoredPolicy : Type 0 where
  pub mode : ReplicationMode
  pub filter : Option Value

pub record PeerContext : Type 0 where
  pub identity : Option PeerIdentity
  pub libraries : Dict Oplog
  pub policies : Dict StoredPolicy

unfoldable pub require_identity : PeerContext → Answer PeerIdentity
require_identity context = found context.identity internal

-- What ran before a statement that was reached and returned.
pub >>=-eq-answered {ℓ κ} :
    {A : Type ℓ} {B : Type κ} (this : Answer A) (next : A → Answer B) {result : B}
    → this >>= next ≡ answered result
    → (value : A) × (this ≡ answered value) × (next value ≡ answered result)
>>=-eq-answered (refused code) next h = absurd (cc)
>>=-eq-answered (answered value) next h = (value, refl, h)

pub demand-eq-answered :
    (b : Bool) (code : PeerErrorCode) {u : Unit {0}} → demand b code ≡ answered u → b ≡ true
demand-eq-answered true code h = refl
demand-eq-answered false code h = absurd (cc)

pub found-eq-answered {ℓ} :
    {A : Type ℓ} (o : Option A) (code : PeerErrorCode) {a : A}
    → found o code ≡ answered a
    → o ≡ some a
found-eq-answered none code h = absurd (cc)
found-eq-answered (some x) code h = cc
