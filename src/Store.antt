-- ===== src/Store.antt =====
-- The store package: an SQLite database behind one handle (store/*.go).
pub mod Rows
pub mod Handle
pub mod Positions
pub mod Challenges
pub mod Governance
pub mod Curate
