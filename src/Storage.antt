-- ===== src/Storage.antt =====
-- internal/storage: what a backend is, and the Bot API's.
pub mod Interface
pub mod BotCalls
pub mod Bot
pub mod Attempts
pub mod BotNew
