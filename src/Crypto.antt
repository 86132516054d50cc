-- ===== src/Crypto.antt =====
-- internal/crypto/crypto.go: the on-disk layout, the encrypter, the decrypter and DecryptRange.
pub mod Layout
pub mod Stream
pub mod Encrypt
pub mod Decrypt
pub mod Range
pub mod Sealed
pub mod Encrypted
pub mod Decrypted
pub mod Reads
mod BigEndian
pub mod Header
pub mod Blob
pub mod FrameAt
pub mod Ranged
pub mod Nonces
pub mod Calls
