-- ===== src/Config/Settings.antt =====
-- internal/config/config.go: Config.
use telang.Common.{Bool, Str, ℤ}

-- `ServerConfig`, `S3Config`, `TelegramConfig`, `StorageConfig`, `EncryptionConfig`,
-- `BrowserUIConfig` and `Config`
pub record ServerConfig : Type 0 where
  pub listen : Str

pub record S3Config : Type 0 where
  pub access_key : Str
  pub secret_key : Str
  pub region : Str

pub record TelegramConfig : Type 0 where
  pub mode : Str
  pub bot_token : Str
  pub channel_id : ℤ
  pub session_file : Str
  pub api_id : ℤ
  pub api_hash : Str
  pub channel_access_hash : ℤ

pub record StorageConfig : Type 0 where
  pub cache_dir : Str
  pub cache_size : Str
  pub staging_dir : Str
  pub db_path : Str

pub record EncryptionConfig : Type 0 where
  pub keys_file : Str

pub record BrowserUiConfig : Type 0 where
  pub enabled : Bool
  pub password : Str

pub record Config : Type 0 where
  pub server : ServerConfig
  pub s3 : S3Config
  pub telegram : TelegramConfig
  pub storage : StorageConfig
  pub encryption : EncryptionConfig
  pub browser_ui : BrowserUiConfig
