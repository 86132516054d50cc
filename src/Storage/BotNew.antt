-- ===== src/Storage/BotNew.antt =====
-- internal/storage/bot/bot.go: Backend, New and its options.
use telang.Common.{ℕ, List, [], ◌∷◌, Str, codes, ℤ, is_zero, if◌then◌else◌, Result, ok, err}
use telang.S3.Router.{is_empty}

-- `Backend`. `H` is the type of the HTTP client.
pub record BotBackend (H : Type 0) : Type 0 where
  pub token : Str
  pub chat_id : ℤ
  pub endpoint : Str
  pub http : H
  pub max_retry : ℕ

pub data NewBotError : Type 0 where
  empty_token zero_chat_id : NewBotError

abbrev pub default_endpoint : Str
default_endpoint = codes "https://api.telegram.org"

-- `Option`, and the three that there are.
abbrev pub BotOption : Type 0 → Type 0
BotOption H = BotBackend H → BotBackend H

unfoldable pub with_endpoint : {H : Type 0} → Str → BotOption H
with_endpoint u b = record b { endpoint = u }

unfoldable pub with_http_client : {H : Type 0} → H → BotOption H
with_http_client c b = record b { http = c }

unfoldable pub with_max_retries : {H : Type 0} → ℕ → BotOption H
with_max_retries n b = record b { max_retry = n }

unfoldable pub apply_options : {H : Type 0} → List (BotOption H) → BotBackend H → BotBackend H
apply_options [] b = b
apply_options (o ∷ os) b = apply_options os (o b)

-- `New`, with the client that it makes.
unfoldable pub new_bot :
    {H : Type 0} → H → Str → ℤ → List (BotOption H) → Result NewBotError (BotBackend H)
unfolding apply_options
new_bot http token chat_id options =
    if is_empty token
    then err empty_token
    else if is_zero chat_id
    then err zero_chat_id
    else ok (
        apply_options options (record {
          token = token;
          chat_id = chat_id;
          endpoint = default_endpoint;
          http = http;
          max_retry = 3;
        }))
