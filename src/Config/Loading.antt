-- ===== src/Config/Loading.antt =====
-- internal/config/config.go: applyDefaults, validate, Load and LoadKeys; cmd/telang/main.go:
-- buildBackend.
use telang.Common.{
  ℕ, ◌%◌, Bool, ◌||◌, Option, none, some, List, [], Str, codes, str_eq, ◌==◌, is_zero,
  if◌then◌else◌, Result, ok, err,
}
use telang.S3.Router.{is_empty}
use telang.Config.Sizes.{Numbers, parse_size, SizeError}
use telang.Config.Settings.{Config, TelegramConfig}
use telang.Storage.BotNew.{BotBackend, NewBotError, new_bot}
use telang.Mtproto.Connection
use telang.Mtproto.Connection.{OpenError, ClientRun, open_backend}

abbrev pub or_default : Str → Str → Str
or_default s d = if is_empty s then d else s

-- `applyDefaults`
unfoldable pub apply_defaults : Config → Config
apply_defaults c = record c {
  server = record c.server { listen = or_default c.server.listen (codes ":9000") };
  s3 = record c.s3 { region = or_default c.s3.region (codes "tg-1") };
  storage = record {
    cache_dir = or_default c.storage.cache_dir (codes "/var/lib/telang/cache");
    cache_size = or_default c.storage.cache_size (codes "5GB");
    staging_dir = or_default c.storage.staging_dir (codes "/var/lib/telang/staging");
    db_path = or_default c.storage.db_path (codes "/var/lib/telang/telang.db");
  };
  encryption = record {
    keys_file = or_default c.encryption.keys_file (codes "/etc/telang/keys.toml");
  };
  browser_ui = record c.browser_ui {
    enabled = c.browser_ui.enabled || is_empty c.browser_ui.password;
  };
}

pub data ConfigError : Type 0 where
  unreadable : ConfigError
  keys_required : ConfigError
  bot_token_required : ConfigError
  channel_required : ConfigError
  session_required : ConfigError
  api_required : ConfigError
  access_hash_required : ConfigError
  mode_required : ConfigError
  mode_not_supported : ConfigError
  cache_size_invalid : SizeError → ConfigError

-- The switch of `validate`: the first complaint about the Telegram section.
unfoldable pub telegram_error : TelegramConfig → Option ConfigError
telegram_error t =
    if str_eq t.mode (codes "bot")
    then (if is_empty t.bot_token
        then some bot_token_required
        else if is_zero t.channel_id
        then some channel_required
        else none)
    else if str_eq t.mode (codes "mtproto")
    then (if is_empty t.session_file
        then some session_required
        else if is_zero t.api_id || is_empty t.api_hash
        then some api_required
        else if is_zero t.channel_id
        then some channel_required
        else if is_zero t.channel_access_hash
        then some access_hash_required
        else none)
    else if is_empty t.mode
    then some mode_required
    else some mode_not_supported

module _ {F : Type 0} (x : Numbers F) where
  -- `validate`
  unfoldable pub validate : Config → Option ConfigError
  unfolding telegram_error
  validate c =
      if is_empty c.s3.access_key || is_empty c.s3.secret_key
      then some keys_required
      else elim (telegram_error c.telegram) [
        | some e ↦ some e
        | none ↦ elim (parse_size x c.storage.cache_size) [
          | err e ↦ some (cache_size_invalid e)
          | ok n ↦ none
        ]
      ]

  -- `Load`, behind `toml.DecodeFile`.
  unfoldable pub load : Option Config → Result ConfigError Config
  unfolding validate
  load none = err unreadable
  load (some c) = elim (validate (apply_defaults c)) [
    | some e ↦ err e
    | none ↦ ok (apply_defaults c)
  ]

pub data KeysError : Type 0 where
  no_file loose_mode bad_keys : KeysError

-- `LoadKeys`, with what `os.Stat` and `toml.DecodeFile` give.
unfoldable pub load_keys :
    Option ℕ → Option (List (Str × Str)) → Result KeysError (List (Str × Str))
load_keys none file = err no_file
load_keys (some mode) file =
    if mode % 64 == 0 then elim file [ none ↦ err bad_keys | some m ↦ ok m ] else err loose_mode

-- `storage.Backend` as `buildBackend` makes it.
pub data Built (H : Type 0) : Type 0 where
  bot_backend : BotBackend H → Built H
  mtproto_backend : Connection.Backend → Built H

pub data BuildError : Type 0 where
  bot_failed : NewBotError → BuildError
  open_failed : OpenError → BuildError
  unsupported_mode : BuildError

unfoldable pub mtproto_options : TelegramConfig → Connection.Options
mtproto_options t = record {
  api_id = t.api_id;
  api_hash = t.api_hash;
  session_file = t.session_file;
  channel_id = t.channel_id;
  channel_access_hash = t.channel_access_hash;
}

-- `buildBackend`, with the HTTP client that `bot.New` makes.
unfoldable pub build_backend :
    {H : Type 0} → H → Bool → ClientRun → Config → Result BuildError (Built H)
unfolding mtproto_options
build_backend http takes_parent run c =
    if str_eq c.telegram.mode (codes "bot")
    then elim (new_bot http c.telegram.bot_token c.telegram.channel_id []) [
      | err e ↦ err (bot_failed e)
      | ok b ↦ ok (bot_backend b)
    ]
    else if str_eq c.telegram.mode (codes "mtproto")
    then elim (open_backend (mtproto_options c.telegram) takes_parent run) [
      | err e ↦ err (open_failed e)
      | ok b ↦ ok (mtproto_backend b)
    ]
    else err unsupported_mode
