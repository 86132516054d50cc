-- ===== src/SigV4/Auth.antt =====
-- internal/sigv4/sigv4.go: parseAuthHeader, the key derivation, Verify and verifyPresigned.
use telang.Common.{
  ℕ, suc, ◌+◌, ◌*◌, Bool, true, false, not, ◌&&◌, ◌||◌, Option, none, some, List, [], ◌∷◌, ◌++◌,
  Str, codes, str_eq, length, leb, ◌==◌, if◌then◌else◌, Result, ok, err, has_prefix, trim_prefix,
  parse_int, ℤ, pos, negsuc, int64,
}
use telang.S3.Errors.{
  AuthError, missing_auth, malformed_auth, unknown_access_key, signature_mismatch, expired,
  unsupported_algo, other_auth_error,
}
use telang.S3.Router.{get_value, is_empty}
use telang.SigV4.Checks.{◌>>=◌, require, found}
use telang.SigV4.Text.{split, join, hex_encode, all_hex}
use telang.SigV4.Canonical.{Unicode, Request, header, strip_query_param, build_canonical_request}

-- SHA-256, HMAC-SHA-256 of a key and a message, `time.Parse` at `timeFormat` and at `dateFormat`,
-- and Unicode. Times are nanoseconds since the year 0.
pub record Tools : Type 0 where
  pub sha256 : Str → Str
  pub hmac : Str → Str → Str
  pub parse_time : Str → Option ℕ
  pub is_date : Str → Bool
  pub unicode : Unicode

-- `Verifier`, with what `Now` returns.
pub record Verifier : Type 0 where
  pub region : Str
  pub lookup : Option (Str → Option Str)
  pub now : ℕ

pub record AuthHeader : Type 0 where
  pub access_key : Str
  pub date : Str
  pub region : Str
  pub service : Str
  pub signed_headers : List Str
  pub signature : Str

abbrev pub algorithm : Str
algorithm = codes "AWS4-HMAC-SHA256"

abbrev pub service_name : Str
service_name = codes "s3"

abbrev pub request_kind : Str
request_kind = codes "aws4_request"

abbrev pub unsigned_payload : Str
unsigned_payload = codes "UNSIGNED-PAYLOAD"

abbrev pub streaming_signed_payload : Str
streaming_signed_payload = codes "STREAMING-AWS4-HMAC-SHA256-PAYLOAD"

abbrev pub streaming_unsigned_trailer : Str
streaming_unsigned_trailer = codes "STREAMING-UNSIGNED-PAYLOAD-TRAILER"

abbrev pub nanosecond_rate : ℕ
nanosecond_rate = 1000000000

abbrev pub max_clock_skew : ℕ
max_clock_skew = 900 * nanosecond_rate

abbrev pub max_presigned_age : ℕ
max_presigned_age = 604800 * nanosecond_rate

-- `cs := strings.Split(v, "/")` with its tests: a scope of five parts, the last `aws4_request`.
unfoldable pub put_scope : List Str → AuthHeader → Result AuthError AuthHeader
put_scope (k ∷ d ∷ r ∷ s ∷ kind ∷ []) a =
    if str_eq kind request_kind
    then ok (record a { access_key = k; date = d; region = r; service = s })
    else err malformed_auth
put_scope _ a = err malformed_auth

-- One field of the header; an unknown one is passed over.
unfoldable pub put_field : Str → AuthHeader → Result AuthError AuthHeader
unfolding put_scope
put_field p a =
    if has_prefix p (codes "Credential=")
    then put_scope (split b'/' (trim_prefix p (codes "Credential="))) a
    else if has_prefix p (codes "SignedHeaders=")
    then ok (record a { signed_headers = split b';' (trim_prefix p (codes "SignedHeaders=")) })
    else if has_prefix p (codes "Signature=")
    then ok (record a { signature = trim_prefix p (codes "Signature=") })
    else ok a

unfoldable pub put_fields : Unicode → List Str → AuthHeader → Result AuthError AuthHeader
unfolding put_field
put_fields u [] a = ok a
put_fields u (p ∷ ps) a = put_field (u.trim_space p) a >>= λ b. put_fields u ps b

abbrev pub no_auth : AuthHeader
no_auth = record {
  access_key = [];
  date = [];
  region = [];
  service = [];
  signed_headers = [];
  signature = [];
}

unfoldable pub no_names : List Str → Bool
no_names [] = true
no_names (n ∷ ns) = false

-- `parseAuthHeader`
unfoldable pub is_complete : AuthHeader → Bool
unfolding no_names
is_complete a = not (
    is_empty a.access_key
    || is_empty a.date
    || is_empty a.region
    || is_empty a.service
    || no_names a.signed_headers
    || is_empty a.signature)

unfoldable pub parse_auth_header : Tools → Str → Result AuthError AuthHeader
unfolding put_fields is_complete require
parse_auth_header t s = do
  _ ← require (has_prefix s (algorithm ++ codes " ")) unsupported_algo
  a ← put_fields t.unicode (split b',' (trim_prefix s (algorithm ++ codes " "))) no_auth
  _ ← require (is_complete a) malformed_auth
  _ ← require (t.is_date a.date) malformed_auth
  ok a

-- `deriveSigningKey`
unfoldable pub derive_signing_key : Tools → Str → Str → Str → Str → Str
derive_signing_key t secret date region service =
    t.hmac (t.hmac (t.hmac (t.hmac (codes "AWS4" ++ secret) date) region) service) request_kind

-- `scope`, and the string to sign.
unfoldable pub scope_of : AuthHeader → Str
scope_of a = join (codes "/") (a.date ∷ a.region ∷ a.service ∷ request_kind ∷ [])

unfoldable pub string_to_sign : Tools → Str → Str → Str → Str
string_to_sign t date_str scope canonical =
    join (10 ∷ []) (algorithm ∷ date_str ∷ scope ∷ hex_encode (t.sha256 canonical) ∷ [])

-- The signature that the verifier computes.
unfoldable pub expected_signature : Tools → Str → AuthHeader → Str → Str → Str
unfolding derive_signing_key string_to_sign scope_of
expected_signature t secret a date_str canonical = hex_encode (
    t.hmac (derive_signing_key t secret a.date a.region a.service)
      (string_to_sign t date_str (scope_of a) canonical))

-- What `Verify` does to `r.Body`.
pub data BodyMode : Type 0 where
  untouched unsigned_chunks : BodyMode
  signed_chunks : Str → Str → Str → Str → BodyMode
  hash_checked : Str → BodyMode

-- The switch on the payload hash.
unfoldable pub body_mode : Tools → Str → AuthHeader → Str → Str → Result AuthError BodyMode
unfolding derive_signing_key scope_of
body_mode t secret a date_str payload_hash =
    if str_eq payload_hash unsigned_payload
    then ok untouched
    else if str_eq payload_hash streaming_unsigned_trailer
    then ok unsigned_chunks
    else if str_eq payload_hash streaming_signed_payload
    then ok (
        signed_chunks (derive_signing_key t secret a.date a.region a.service) date_str (scope_of a)
          a.signature)
    else if all_hex payload_hash && length payload_hash == 64
    then ok (hash_checked (t.unicode.to_lower payload_hash))
    else err other_auth_error

unfoldable pub region_fits : Verifier → AuthHeader → Bool
region_fits v a = is_empty v.region || str_eq a.region v.region

-- `Verify` of a request with an `Authorization` header.
unfoldable pub verify_header :
    Tools → Verifier → (Str → Option Str) → Request → Str → Result AuthError BodyMode
unfolding require found region_fits body_mode expected_signature parse_auth_header
verify_header t v lookup r auth_str = do
  a ← parse_auth_header t auth_str
  _ ← require (str_eq a.service service_name) other_auth_error
  _ ← require (region_fits v a) other_auth_error
  secret ← found (lookup a.access_key) unknown_access_key
  _ ← require (not (is_empty (header r (codes "X-Amz-Date")))) other_auth_error
  time ← found (t.parse_time (header r (codes "X-Amz-Date"))) other_auth_error
  _ ← require (leb v.now (time + max_clock_skew) && leb time (v.now + max_clock_skew)) expired
  _ ← require (not (is_empty (header r (codes "X-Amz-Content-Sha256")))) other_auth_error
  canonical ←
      build_canonical_request t.unicode r a.signed_headers (header r (codes "X-Amz-Content-Sha256"))
        r.raw_query
  _ ←
      require
        (str_eq (expected_signature t secret a (header r (codes "X-Amz-Date")) canonical)
          a.signature)
        signature_mismatch
  body_mode t secret a (header r (codes "X-Amz-Date")) (header r (codes "X-Amz-Content-Sha256"))

-- `time.Duration(expiresSec) * time.Second`, which wraps around, as the test of it and the end of
-- the window use it.
unfoldable pub positive : Option ℤ → Option ℕ
positive (some (pos (suc n))) = some (suc n)
positive _ = none

unfoldable pub within_cap : ℤ → Bool
within_cap (pos n) = leb n max_presigned_age
within_cap (negsuc n) = true

-- `!now.After(t.Add(d))`
unfoldable pub not_after : ℕ → ℕ → ℤ → Bool
not_after now time (pos n) = leb now (time + n)
not_after now time (negsuc n) = leb (now + suc n) time

-- The credential of the query, as `verifyPresigned` reads it.
unfoldable pub presigned_scope : List Str → Str → List Str → Result AuthError AuthHeader
unfolding put_scope
presigned_scope cs signature signed =
    put_scope cs (record no_auth { signature = signature; signed_headers = signed })

-- `verifyPresigned`
unfoldable pub verify_presigned :
    Tools → Verifier → (Str → Option Str) → Request → Result AuthError BodyMode
unfolding require found region_fits expected_signature positive within_cap not_after presigned_scope
verify_presigned t v lookup r = do
  _ ← require (str_eq (get_value r.query (codes "X-Amz-Algorithm")) algorithm) other_auth_error
  a ←
      presigned_scope (split b'/' (get_value r.query (codes "X-Amz-Credential")))
        (get_value r.query (codes "X-Amz-Signature"))
        (split b';' (get_value r.query (codes "X-Amz-SignedHeaders")))
  _ ← require (not (is_empty a.access_key || is_empty a.signature)) malformed_auth
  _ ← require (str_eq a.service service_name) other_auth_error
  _ ← require (region_fits v a) other_auth_error
  _ ← require (t.is_date a.date) malformed_auth
  _ ← require (not (is_empty (get_value r.query (codes "X-Amz-SignedHeaders")))) malformed_auth
  time ← found (t.parse_time (get_value r.query (codes "X-Amz-Date"))) other_auth_error
  seconds ←
      found (positive (parse_int (get_value r.query (codes "X-Amz-Expires")))) other_auth_error
  _ ← require (within_cap (int64 (seconds * nanosecond_rate))) other_auth_error
  _ ←
      require
        (leb time (v.now + max_clock_skew)
          && not_after v.now time (int64 (seconds * nanosecond_rate)))
        expired
  secret ← found (lookup a.access_key) unknown_access_key
  canonical ←
      build_canonical_request t.unicode r a.signed_headers unsigned_payload
        (strip_query_param t.unicode r.raw_query (codes "X-Amz-Signature"))
  _ ←
      require
        (str_eq (expected_signature t secret a (get_value r.query (codes "X-Amz-Date")) canonical)
          a.signature)
        signature_mismatch
  ok untouched

-- `Verify`
unfoldable pub verify : Tools → Verifier → Request → Result AuthError BodyMode
unfolding verify_header verify_presigned
verify t v r = elim v.lookup [
  | none ↦ err other_auth_error
  | some lookup ↦
      if is_empty (header r (codes "Authorization"))
      then (if is_empty (get_value r.query (codes "X-Amz-Signature"))
          then err missing_auth
          else verify_presigned t v lookup r)
      else verify_header t v lookup r (header r (codes "Authorization"))
]
