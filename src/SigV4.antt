-- ===== src/SigV4.antt =====
-- internal/sigv4/sigv4.go: the verification of AWS Signature V4.
pub mod Text
pub mod Checks
pub mod Canonical
pub mod Auth
pub mod Accepted
pub mod Escape
pub mod Order
pub mod BlankLine
pub mod Chunked
pub mod Chain
pub mod HashBody
