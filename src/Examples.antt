-- ===== src/Examples.antt =====
-- The theorems applied to small concrete stores, rings and ledgers.
pub mod Library
pub mod Store
pub mod Ledgers
pub mod Rings
pub mod Caches
pub mod Transport
pub mod Proxies
pub mod Agents
pub mod Builds
