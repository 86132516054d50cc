-- ===== src/Config.antt =====
-- internal/config and the backend that cmd/telang builds of a configuration.
pub mod Sizes
pub mod Settings
pub mod Loading
pub mod Credentials
pub mod SizeLaws
pub mod Laws
