-- ===== src/Fabric.antt =====
-- src/fabric: the blocks that a peer stores, the pins that keep them, and the batches by which the
-- indexes beside them commit.
pub mod Blocks
pub mod PinIndex
pub mod LibraryPins
pub mod CommitBatch
