-- ===== src/Metadata.antt =====
-- internal/metadata/metadata.go: the SQLite index.
pub mod Order
pub mod Table
pub mod Appends
pub mod Store
pub mod Multipart
pub mod Laws
pub mod Prefix
pub mod Reachable
pub mod Refinement
