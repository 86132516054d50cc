-- ===== src/Multipart.antt =====
-- internal/s3api/multipart.go: multipart uploads.
pub mod Staging
pub mod Operations
pub mod Staged
pub mod ReadBack
pub mod Lookups
pub mod Kept
pub mod Tables
pub mod Steps
