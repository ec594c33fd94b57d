-- ===== src/Access/Filter.antt =====
-- access-control/filter.ts, the predicates that scope capabilities and select tracks.
pub mod Shapes
pub mod Evaluate
pub mod FailClosed
