-- ===== src/Service.antt =====
-- internal/s3api/service.go: the business layer.
pub mod World
pub mod Objects
pub mod Buckets
pub mod Uploads
pub mod Ciphers
pub mod RoundTrip
