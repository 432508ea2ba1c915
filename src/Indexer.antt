-- ===== src/Indexer.antt =====
-- The indexer package (indexer/*.go).
pub mod Challenges
pub mod State
pub mod Discover
pub mod Refresh
pub mod Loop
pub mod Tick
pub mod Sources
pub mod Bootstrap
pub mod Governance
