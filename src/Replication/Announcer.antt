-- ===== src/Replication/Announcer.antt =====
-- replication/announcement.ts, create_announcer: which peers an announcement is for, and when. An
-- announcement that a flush starts to build for joined peers is the flush's time with its targets, the
-- last first; it is published once it is built.
pub mod Limited
use record_node.Prelude.{
  ℕ, ◌+◌, ◌-◌, Text, Bool, true, false, Option, none, some, List, [], ◌∷◌, ltb, if◌then◌else◌,
}
use record_node.Dict
use record_node.Dict.{Dict}
use record_node.TextSet

pub record Announced : Type 0 where
  pub time : ℕ
  pub targets : List Text

pub record Announcer : Type 0 where
  pub last_announced : Dict ℕ
  pub joined : List Text
  -- Whether a flush is scheduled.
  pub scheduled : Bool
  pub log : List Announced

unfoldable pub create_announcer : Announcer
create_announcer = record { last_announced = []; joined = []; scheduled = false; log = [] }

-- The clock never runs back, so the subtraction is not negative.
abbrev pub is_recent : ℕ → ℕ → Option ℕ → Bool
is_recent interval_ms now none = false
is_recent interval_ms now (some last) = ltb (now - last) interval_ms

unfoldable pub peer_joined : ℕ → ℕ → Text → Announcer → Announcer
peer_joined interval_ms now peer_id a =
    if is_recent interval_ms now (Dict.get peer_id a.last_announced)
    then a
    else record a { joined = TextSet.add peer_id a.joined; scheduled = true }

unfoldable pub announce_at : ℕ → List Text → Dict ℕ → Dict ℕ
announce_at now [] last = last
announce_at now (p ∷ ps) last = announce_at now ps (Dict.set p now last)

unfoldable pub flush : ℕ → Announcer → Announcer
unfolding announce_at
flush now a = record {
  last_announced = announce_at now a.joined a.last_announced;
  joined = [];
  scheduled = false;
  log = record { time = now; targets = a.joined } ∷ a.log;
}

unfoldable pub stop : Announcer → Announcer
stop a = record a { scheduled = false }
