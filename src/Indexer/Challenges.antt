-- ===== src/Indexer/Challenges.antt =====
-- indexer/challenges.go: the handlers of the three challenge events, and the scan that calls them.
pub mod Event
pub mod Started
pub mod Bids
pub mod Rescan
pub mod Filling
pub mod Averts
pub mod Backfill
pub mod Faults
pub mod Scan
pub mod Preserves
pub mod Meta
pub mod Order
pub mod Traversal
pub mod Unhurt
pub mod Alive
