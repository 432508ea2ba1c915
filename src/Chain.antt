-- ===== src/Chain.antt =====
-- The chain package: JSON-RPC client, ABI codec, multicall, prices (chain/*.go).
pub mod Log
pub mod Abi
pub mod Multicall
pub mod Hydrate
pub mod Returns
pub mod Hydration
