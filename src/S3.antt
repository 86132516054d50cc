-- ===== src/S3.antt =====
-- internal/s3api: the S3 handlers, the service behind them and the listing.
pub mod Errors
pub mod ByteRange
pub mod Paths
pub mod Router
pub mod Dispatch
pub mod Listing
pub mod ListLoop
