-- ===== src/Replication.antt =====
-- src/replication: fetching the entries of a library from other peers.
pub mod Traversal
pub mod Heads
pub mod Orchestrator
pub mod Spacing
pub mod Publisher
pub mod Announcer
pub mod Announcements
pub mod AnnouncementMessages
pub mod Replicator
