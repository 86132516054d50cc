-- ===== src/Mtproto.antt =====
-- internal/storage/mtproto: the backend over a user account's session.
pub mod Messages
pub mod Backend
pub mod Connection
pub mod Laws
