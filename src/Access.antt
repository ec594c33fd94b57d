-- ===== src/Access.antt =====
-- The access-control directory.
pub mod Filter
pub mod Records
pub mod Capability
pub mod Authorise
pub mod Chain
pub mod Delegation
