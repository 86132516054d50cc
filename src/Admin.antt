-- ===== src/Admin.antt =====
-- cmd/telang: the commands that read and write the metadata.
pub mod Fsck
pub mod FsckLaws
pub mod Records
pub mod Import
pub mod Lines
pub mod Grouping
pub mod RoundTrip
pub mod Restore
