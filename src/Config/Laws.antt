-- ===== src/Config/Laws.antt =====
-- internal/config/config.go: what a configuration that Load accepts is good for.
use telang.Common.{
  ◌≡◌, refl, ap, sym, ◌∙◌, Bool, true, false, ◌||◌, Option, none, some, [], Str, codes, str_eq, ℤ,
  is_zero, ok, err, arith, ℕ, inl, inr, Bool-cases, Option-cases, Result-cases, ◌⊎◌,
}
use telang.S3.Router.{is_empty}
use telang.Config.Sizes.{Numbers, parse_size}
use telang.Config.Settings.{Config, TelegramConfig}
use telang.Config.Loading.{
  apply_defaults, or_default, telegram_error, validate, load, mtproto_options, build_backend,
  unsupported_mode, open_failed, bot_failed, BuildError,
}
use telang.Storage.BotNew.{BotBackend, new_bot}
use telang.Mtproto.Connection.{
  IsComplete, Options, OpenError, ready, sent, receive, connected, canceled, auth_status,
  unauthorized, no_callback, status_failed, not_authorized, authorized, ClientRun, open_backend,
  api_required, session_required, channel_required,
}

or_default_twice : (s d : Str) → is_empty d ≡ false → or_default (or_default s d) d ≡ or_default s d
or_default_twice s d h = ground arith

enabled_twice : (e : Bool) (p : Str) → ((e || is_empty p) || is_empty p) ≡ (e || is_empty p)
enabled_twice e p = ground arith

-- A default stays.
apply_defaults_idempotent : (c : Config) → apply_defaults (apply_defaults c) ≡ apply_defaults c
unfolding apply_defaults is_empty
apply_defaults_idempotent c = simp (or_default_twice, enabled_twice)

-- What each mode needs.
abbrev pub IsUsable : TelegramConfig → Type 0
IsUsable t =
    ((str_eq t.mode (codes "bot") ≡ true)
      × (is_empty t.bot_token ≡ false)
      × (is_zero t.channel_id ≡ false))
    ⊎ ((str_eq t.mode (codes "bot") ≡ false)
        × (str_eq t.mode (codes "mtproto") ≡ true)
        × IsComplete (mtproto_options t)
        × (is_zero t.channel_access_hash ≡ false))

telegram_error-IsUsable : (t : TelegramConfig) → telegram_error t ≡ none → IsUsable t
unfolding telegram_error mtproto_options
telegram_error-IsUsable t h = elim (Bool-cases (str_eq t.mode (codes "bot"))) [
  | inl e ↦ inl (e, ground arith, ground arith)
  | inr e ↦ inr (e, ground arith, (ground arith, ground arith, ground arith), ground arith)
]

-- `bot.New` accepts such options.
new_bot_ok :
    {H : Type 0} (http : H) (token : Str) (id : ℤ)
    → is_empty token ≡ false
    → is_zero id ≡ false
    → (b : BotBackend H) × (new_bot http token id [] ≡ ok b)
unfolding new_bot
new_bot_ok http token id t i = rw (t, i) (_, refl)

-- The errors about what a configuration leaves out.
unfoldable pub is_options_error : BuildError → Bool
is_options_error unsupported_mode = true
is_options_error (bot_failed e) = true
is_options_error (open_failed api_required) = true
is_options_error (open_failed session_required) = true
is_options_error (open_failed channel_required) = true
is_options_error e = false

ready_error :
    (opts : Options) (run : ClientRun) (e : OpenError)
    → ready opts run ≡ err e
    → is_options_error (open_failed e) ≡ false
unfolding ready sent receive connected is_options_error
ready_error opts no_callback e h = ground arith
ready_error opts status_failed e h = let same : e ≡ auth_status = ground arith in rw (same) refl
ready_error opts not_authorized e h = let same : e ≡ unauthorized = ground arith in rw (same) refl
ready_error opts authorized e h = ground arith

open_backend_complete :
    (opts : Options) (takes_parent : Bool) (run : ClientRun) (e : OpenError)
    → IsComplete opts
    → open_backend opts takes_parent run ≡ err e
    → is_options_error (open_failed e) ≡ false
unfolding open_backend is_options_error
open_backend_complete opts true run e (a, b, c) h =
    let same : e ≡ canceled = ground arith in rw (same) refl
open_backend_complete opts false run e (a, b, c) h = ready_error opts run e (ground arith)

module _ {F : Type 0} (x : Numbers F) where
  valid_parts :
      (c : Config)
      → validate x c ≡ none
      → ((is_empty c.s3.access_key ≡ false) × (is_empty c.s3.secret_key ≡ false))
        × (telegram_error c.telegram ≡ none)
        × ((n : ℕ) × (parse_size x c.storage.cache_size ≡ ok n))
  unfolding validate
  valid_parts c h = elim (Option-cases (telegram_error c.telegram)) [
    | inr (e, q) ↦ absurd (ground arith)
    | inl q ↦ elim (Result-cases (parse_size x c.storage.cache_size)) [
      | inr (e, r) ↦ absurd (ground arith)
      | inl (n, r) ↦ ((ground arith, ground arith), q, (n, r))
    ]
  ]

  pub load_lem :
      (file : Option Config) (c : Config)
      → load x file ≡ ok c
      → (apply_defaults c ≡ c)
        × (is_empty c.s3.access_key ≡ false)
        × (is_empty c.s3.secret_key ≡ false)
        × IsUsable c.telegram
        × ((n : ℕ) × (parse_size x c.storage.cache_size ≡ ok n))
  unfolding load validate
  load_lem none c h = ground arith
  load_lem (some f) c h = elim (Option-cases (validate x (apply_defaults f))) [
    | inr (e, q) ↦ absurd (ground arith)
    | inl q ↦
        (let same : apply_defaults f ≡ c = ground arith in
          let valid : validate x c ≡ none = ap (validate x) (sym same) ∙ q in
          let (keys, t, n) = valid_parts c valid in
          (
            ap apply_defaults (sym same) ∙ apply_defaults_idempotent f ∙ same,
            keys.0,
            keys.1,
            telegram_error-IsUsable c.telegram t,
            n,
          ))
  ]

  -- When Load accepts a configuration, an error of buildBackend for it is never an error of
  -- bot.New, nor about an unsupported mode or an option that Open misses: it is an error of Open
  -- about the session or its context.
  pub load-build_backend :
      {H : Type 0} (http : H) (file : Option Config) (c : Config) (takes_parent : Bool)
      (run : ClientRun) (e : BuildError)
      → load x file ≡ ok c
      → build_backend http takes_parent run c ≡ err e
      → is_options_error e ≡ false
  unfolding build_backend is_options_error
  load-build_backend http file c takes_parent run e h b = elim ((load_lem file c h).3) [
    | inl (m, t, i) ↦
        (let made = new_bot_ok http c.telegram.bot_token c.telegram.channel_id t i in
          absurd (ground (arith, made.1)))
    | inr (m, m', i, a) ↦
        elim (Result-cases (open_backend (mtproto_options c.telegram) takes_parent run)) [
          | inl (y, n) ↦ absurd (ground arith)
          | inr (e', n) ↦
              (let same : e ≡ open_failed e' = ground arith in
                ap is_options_error same
                ∙ open_backend_complete (mtproto_options c.telegram) takes_parent run e' i n)
        ]
  ]
