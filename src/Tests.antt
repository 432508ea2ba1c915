-- ===== src/Tests.antt =====
-- Concrete data, tests of the definitions on it, and the theorems at it.
mod Data
mod Challenges
mod Positions
mod Indexing
mod Bootstraps
mod Hydrations
mod Tables
mod Services
mod Requests
