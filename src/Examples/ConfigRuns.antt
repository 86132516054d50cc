-- ===== src/Examples/ConfigRuns.antt =====
-- A configuration, a size, and an MTProto client.
use telang.Common.{
  ℕ, ◌*◌, ◌^◌, ◌≤◌, ◌≡◌, ◌↔◌, refl, ap, sym, ◌∙◌, ◌&&◌, Bool, true, false, Option, none, some, List,
  if◌then◌else◌, [], ◌∷◌, ◌++◌, Str, codes, ltb, leb, ℤ, pos, ok, err, arith, decimal,
}
use telang.Common.Decimal.{format_int, decimal-format_int}
use telang.Config.Sizes.{Numbers, parse_size}
use telang.Config.SizeLaws.{IsExact, lower_ascii, binary_bytes, giga, parse_size-format_int}
use telang.Config.Settings.{Config}
use telang.Config.Credentials.{new_access_key, credential, put_scope-new_access_key, sextets, count}
use telang.SigV4.Text.{split}
use telang.SigV4.Auth.{put_scope, no_auth}
use telang.S3.Errors.{malformed_auth}
use telang.Config.Loading.{load, build_backend, BuildError, open_failed, bot_failed}
use telang.Config.Laws.{is_options_error, load-build_backend}
use telang.Mtproto.Connection.{open_backend, not_authorized, unauthorized}

-- Whole numbers, whose text has no space.
abbrev whole_numbers : Numbers ℕ
whole_numbers = record {
  trim_space = λ s. s;
  to_lower = lower_ascii;
  is_digit = λ c. leb b'0' c && leb c b'9';
  parse_float = decimal;
  is_negative = λ n. false;
  scale = λ n m. n * m;
  is_too_large = λ n. ltb (2 ^ 62) n;
  truncate = λ n. n;
}

whole_numbers-IsExact : IsExact whole_numbers (λ n. n)
whole_numbers-IsExact = record {
  digit = λ c a b. ground arith;
  letter = λ c a. ground arith;
  trim_digits = λ s t a b. refl;
  lower = λ s a. refl;
  parses = λ n h. decimal-format_int n;
  scales = λ n m h. refl;
  positive = λ n. refl;
  small = λ n h. ground arith;
  truncates = λ n h. refl;
}

gib_written : lower_ascii (codes "GiB") ≡ codes "gib"
unfolding lower_ascii
gib_written = refl

parse_size-format_int_example :
    parse_size whole_numbers (format_int 5 ++ codes "GiB") ≡ ok (5 * 1073741824)
parse_size-format_int_example =
    parse_size-format_int whole_numbers (λ n. n) whole_numbers-IsExact 5 (binary_bytes giga)
      (codes "GiB") (refl, (refl, (refl, tt))) gib_written (ground arith) (ground arith)

abbrev account : Config
account = record {
  server = record { listen = codes ":9000" };
  s3 = record { access_key = codes "AK"; secret_key = codes "SK"; region = codes "tg-1" };
  telegram = record {
    mode = codes "mtproto";
    bot_token = [];
    channel_id = pos 77;
    session_file = codes "s.json";
    api_id = pos 12;
    api_hash = codes "aa";
    channel_access_hash = pos 9;
  };
  storage = record {
    cache_dir = codes "c";
    cache_size = codes "64";
    staging_dir = codes "s";
    db_path = codes "d";
  };
  encryption = record { keys_file = codes "k" };
  browser_ui = record { enabled = true; password = [] };
}

account_loads : load whole_numbers (some account) ≡ ok account
unfolding load telang.S3.Router.is_empty telang.Config.Loading.apply_defaults telang.Common.str_eq
    telang.Common.is_zero parse_size decimal lower_ascii
account_loads = refl

account_fails : build_backend true false not_authorized account ≡ err (open_failed unauthorized)
unfolding build_backend telang.Common.str_eq open_backend telang.Common.is_zero
    telang.Mtproto.Connection.ready telang.Mtproto.Connection.sent telang.Mtproto.Connection.receive
    telang.Mtproto.Connection.connected telang.S3.Router.is_empty
account_fails = refl

load-build_backend_example : is_options_error (open_failed unauthorized) ≡ false
load-build_backend_example =
    load-build_backend whole_numbers true (some account) account false not_authorized
      (open_failed unauthorized) account_loads account_fails

-- Twelve random bytes, the third of which ends in six bits that are set.
abbrev random_bytes : Str
random_bytes = 1 ∷ 2 ∷ 255 ∷ 4 ∷ 5 ∷ 6 ∷ 7 ∷ 8 ∷ 9 ∷ 10 ∷ 11 ∷ 12 ∷ []

new_access_key_slash : new_access_key random_bytes ≡ codes "AKIAAQL/BAUGBWGJCGSM"
unfolding new_access_key telang.Common.Base64.encode_base64 telang.Common.Base64.upper_ascii
    telang.Common.Base64.base64_digit telang.Common.Base64.upper_char
    telang.Config.Credentials.trim_right_equals
new_access_key_slash = refl

put_scope-new_access_key_example :
    put_scope
      (split b'/' (credential (new_access_key random_bytes) (codes "20250101") (codes "tg-1")))
      no_auth
    ≡ (if ltb 0 (count 63 (sextets random_bytes))
        then err malformed_auth
        else ok (record no_auth {
          access_key = new_access_key random_bytes;
          date = codes "20250101";
          region = codes "tg-1";
          service = codes "s3";
        }))
put_scope-new_access_key_example =
    put_scope-new_access_key random_bytes (codes "20250101") (codes "tg-1") no_auth refl
      (ground arith) (ground arith) (ground arith)
