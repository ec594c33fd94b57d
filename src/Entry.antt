-- ===== src/Entry.antt =====
-- types/entry.ts, types/library.ts and the entry types of entry/signed.ts and oplog/accept.ts: the
-- shapes of entries and of the operations that they carry.
pub mod Payloads
pub mod Records
pub mod Identities
pub mod Operations
pub mod LabelKeys
pub mod Written
pub mod Signed
use record_node.Prelude.{ℕ, Text, Bytes, Option, List}
use record_node.Value.{Value, Fields}

pub data LibraryType : Type 0 where
  recordstore labels listens identity : LibraryType

-- The read view of a track envelope; `v` is 1 and `type` is "track".
pub record Envelope : Type 0 where
  pub id : Text
  pub timestamp : ℕ
  pub content : Text

abbrev pub LabelPair : Type 0
LabelPair = Text × Text

pub record LabelsRecord : Type 0 where
  pub timestamp : ℕ
  pub set : List LabelPair
  pub unset : List LabelPair

pub record AboutRecord : Type 0 where
  pub timestamp : ℕ
  pub name : Text

pub record ProfileRecord : Type 0 where
  pub timestamp : ℕ
  pub name : Option Text
  pub bio : Option Text
  pub avatar : Option Text

pub data IdentityRecordType : Type 0 where
  library link pin profile : IdentityRecordType

pub data IdentityRecord : Type 0 where
  library_record : (timestamp : ℕ) → (address : Text) → IdentityRecord
  link_record : (timestamp : ℕ) → (address : Text) → (alias : Option Text) → IdentityRecord
  pin_record : (timestamp : ℕ) → (cid : Text) → IdentityRecord
  profile_record : ProfileRecord → IdentityRecord

pub data AccessRecordType : Type 0 where
  capability revocation : AccessRecordType

pub data Op : Type 0 where
  put del : Op

-- One constructor for each member of the union, with its key and the capability it is written under.
-- An access record and an opaque operation keep the value as received.
pub data EntryPayload : Type 0 where
  track_put : Text → Envelope → Option Text → EntryPayload
  track_del : Text → (timestamp : ℕ) → Option Text → EntryPayload
  labels_put : Text → LabelsRecord → Option Text → EntryPayload
  about_put : Text → AboutRecord → Option Text → EntryPayload
  access_put : Text → AccessRecordType → Fields → Option Text → EntryPayload
  opaque : Op → Text → Fields → Option Text → EntryPayload
  identity_put : Text → IdentityRecord → EntryPayload
  identity_del : Text → IdentityRecordType → (timestamp : ℕ) → EntryPayload
  listen : (track_id : Text) → (address : Text) → (timestamp : ℕ) → EntryPayload

pub record LamportClock : Type 0 where
  pub id : Text
  pub time : ℕ

-- The six signed fields; `v` is 2.
pub record UnsignedEntry : Type 0 where
  pub id : Text
  pub payload : Value
  pub next : List Text
  pub refs : List Text
  pub clock : LamportClock

pub record SignedEntry : Type 0 where
  pub unsigned : UnsignedEntry
  pub open unsigned use *
  pub key : Text
  pub sig : Text

pub record HashedEntry : Type 0 where
  pub hash : Text
  pub multihash : Bytes
  pub bytes : Bytes
  pub entry : SignedEntry

-- An entry that passed verification; `state_keys` are the slots it is resolved under.
pub record VerifiedEntry : Type 0 where
  pub hashed : HashedEntry
  pub open hashed use *
  pub operation : EntryPayload
  pub state_keys : List Text

abbrev pub next_of : VerifiedEntry → List Text
next_of e = e.entry.next

abbrev pub time_of : VerifiedEntry → ℕ
time_of e = e.entry.clock.time
