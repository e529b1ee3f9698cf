-- ===== src/Cache.antt =====
-- src/cache/service.rs: `CacheService`, which commits staged bodies, and reclaims space along the
-- eviction queue.
pub mod Publication
pub mod Commit
pub mod Reclamation
pub mod Bodies
pub mod Passes
pub mod Reads
pub mod Requests
