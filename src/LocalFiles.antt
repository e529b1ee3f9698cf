-- ===== src/LocalFiles.antt =====
-- src/storage/local: staging and publishing artifact bodies under a disk-space reservation. The
-- ledger enters through the interface `Reserver` (local/mod.rs); the filesystem through the
-- outcomes of the calls that are made of it.
pub mod Reserver
pub mod Reservation
pub mod Settlement
pub mod Stage
pub mod Growth
pub mod Staging
pub mod Publish
