-- ===== src/Storage.antt =====
-- src/storage: durable records, the keys and operations of the RocksDB metadata store.
pub mod Ids
pub mod Errors
pub mod Records
pub mod Database
pub mod Keys
pub mod Metadata
