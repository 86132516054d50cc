-- ===== src/SigV4/Accepted.antt =====
-- internal/sigv4/sigv4.go: what a request has that Verify lets through.
use telang.Common.{
  ℕ, ◌+◌, ◌≤◌, ◌*◌, ◌≡◌, sym, true, ◌&&◌, Option, some, Str, codes, eq_of_str_eq, leb, ok, arith,
  inl, inr, Bool-cases, Option-cases, ℤ, pos, negsuc, ◌⊎◌, int64,
}
use telang.S3.Router.{get_value, is_empty}
use telang.SigV4.Checks.{bind-inv, require-inv, found-inv}
use telang.SigV4.Text.{split}
use telang.SigV4.Canonical.{Request, header, build_canonical_request, strip_query_param}
use telang.SigV4.Auth.{
  Tools, Verifier, AuthHeader, BodyMode, parse_auth_header, presigned_scope, service_name,
  unsigned_payload, nanosecond_rate, max_clock_skew, max_presigned_age, expected_signature,
  verify_header, verify_presigned, verify, within_cap, not_after,
}

-- What the code established of a request with an `Authorization` header.
pub record Signed (t : Tools) (v : Verifier) (lookup : Str → Option Str) (r : Request)
    (auth_str : Str) : Type 0 where
  pub auth : AuthHeader
  pub secret : Str
  pub time : ℕ
  pub canonical : Str
  pub parsed : parse_auth_header t auth_str ≡ ok auth
  pub for_s3 : auth.service ≡ service_name
  pub known : lookup auth.access_key ≡ some secret
  pub dated : t.parse_time (header r (codes "X-Amz-Date")) ≡ some time
  pub not_old : v.now ≤ time + max_clock_skew
  pub not_early : time ≤ v.now + max_clock_skew
  pub covers :
      build_canonical_request t.unicode r auth.signed_headers
        (header r (codes "X-Amz-Content-Sha256"))
        r.raw_query
      ≡ ok canonical
  pub signed :
      auth.signature ≡ expected_signature t secret auth (header r (codes "X-Amz-Date")) canonical

window : (a b c d : ℕ) → (leb a b && leb c d) ≡ true → (a ≤ b) × (c ≤ d)
window a b c d h = ground arith

verify_header-Signed :
    (t : Tools) (v : Verifier) (lookup : Str → Option Str) (r : Request) (auth_str : Str)
    (m : BodyMode)
    → verify_header t v lookup r auth_str ≡ ok m
    → Signed t v lookup r auth_str
unfolding verify_header
verify_header-Signed t v lookup r auth_str m h =
    let (a, parsed, h1) = bind-inv _ _ h in
    let (s3, h2) = require-inv _ _ _ h1 in
    let (region, h3) = require-inv _ _ _ h2 in
    let (secret, known, h4) = found-inv _ _ _ h3 in
    let (date, h5) = require-inv _ _ _ h4 in
    let (time, dated, h6) = found-inv _ _ _ h5 in
    let (in_time, h7) = require-inv _ _ _ h6 in
    let (hash, h8) = require-inv _ _ _ h7 in
    let (canonical, covers, h9) = bind-inv _ _ h8 in
    let (same, h10) = require-inv _ _ _ h9 in
    let (old, early) = window v.now (time + max_clock_skew) time (v.now + max_clock_skew) in_time in
    record {
      auth = a;
      secret = secret;
      time = time;
      canonical = canonical;
      parsed = parsed;
      for_s3 = eq_of_str_eq _ _ s3;
      known = known;
      dated = dated;
      not_old = old;
      not_early = early;
      covers = covers;
      signed = sym (eq_of_str_eq _ _ same);
    }

-- What the code established of a presigned request.
pub record Presigned (t : Tools) (v : Verifier) (lookup : Str → Option Str) (r : Request)
    : Type 0 where
  pub auth : AuthHeader
  pub secret : Str
  pub time : ℕ
  pub canonical : Str
  pub parsed :
      presigned_scope
        (split b'/' (get_value r.query (codes "X-Amz-Credential")))
        (get_value r.query (codes "X-Amz-Signature"))
        (split b';' (get_value r.query (codes "X-Amz-SignedHeaders")))
      ≡ ok auth
  pub for_s3 : auth.service ≡ service_name
  pub known : lookup auth.access_key ≡ some secret
  pub dated : t.parse_time (get_value r.query (codes "X-Amz-Date")) ≡ some time
  pub not_early : time ≤ v.now + max_clock_skew
  pub not_expired : v.now ≤ time + max_presigned_age
  pub covers :
      build_canonical_request t.unicode r auth.signed_headers unsigned_payload
        (strip_query_param t.unicode r.raw_query (codes "X-Amz-Signature"))
      ≡ ok canonical
  pub signed :
      auth.signature
      ≡ expected_signature t secret auth (get_value r.query (codes "X-Amz-Date")) canonical

capped_window :
    (now time skew : ℕ) (d : ℤ)
    → within_cap d ≡ true
    → (leb time (now + skew) && not_after now time d) ≡ true
    → (time ≤ now + skew) × (now ≤ time + max_presigned_age)
unfolding within_cap not_after
capped_window now time skew (pos n) c h = ground arith
capped_window now time skew (negsuc n) c h = ground arith

verify_presigned-Presigned :
    (t : Tools) (v : Verifier) (lookup : Str → Option Str) (r : Request) (m : BodyMode)
    → verify_presigned t v lookup r ≡ ok m
    → Presigned t v lookup r
unfolding verify_presigned
verify_presigned-Presigned t v lookup r m h =
    let (algo, h0) = require-inv _ _ _ h in
    let (a, parsed, h1) = bind-inv _ _ h0 in
    let (named, h2) = require-inv _ _ _ h1 in
    let (s3, h3) = require-inv _ _ _ h2 in
    let (region, h4) = require-inv _ _ _ h3 in
    let (day, h5) = require-inv _ _ _ h4 in
    let (some_signed, h6) = require-inv _ _ _ h5 in
    let (time, dated, h7) = found-inv _ _ _ h6 in
    let (seconds, lasting, h8) = found-inv _ _ _ h7 in
    let (cap, h9) = require-inv _ _ _ h8 in
    let (in_time, h10) = require-inv _ _ _ h9 in
    let (secret, known, h11) = found-inv _ _ _ h10 in
    let (canonical, covers, h12) = bind-inv _ _ h11 in
    let (same, h13) = require-inv _ _ _ h12 in
    let (early, late) =
      capped_window v.now time max_clock_skew (int64 (seconds * nanosecond_rate)) cap in_time in
    record {
      auth = a;
      secret = secret;
      time = time;
      canonical = canonical;
      parsed = parsed;
      for_s3 = eq_of_str_eq _ _ s3;
      known = known;
      dated = dated;
      not_early = early;
      not_expired = late;
      covers = covers;
      signed = sym (eq_of_str_eq _ _ same);
    }

-- When Verify lets a request through, the verifier has a lookup of credentials, and either the
-- Authorization header parses, or the presigned query does, to the service s3 and an access key
-- with a known secret; the time of the request is then at most 15 minutes off the present time,
-- or, for a presigned one, at most 15 minutes ahead and at most seven days behind; the canonical
-- request over the signed headers can be built, and the signature is the one computed from it
-- with the secret.
pub verify_accepted :
    (t : Tools) (v : Verifier) (r : Request) (m : BodyMode)
    → verify t v r ≡ ok m
    → (lookup : Str → Option Str) × (v.lookup ≡ some lookup)
      × (Signed t v lookup r (header r (codes "Authorization")) ⊎ Presigned t v lookup r)
unfolding verify
verify_accepted t v r m h = elim (Option-cases v.lookup) [
  | inl e ↦ absurd (ground arith)
  | inr (lookup, e) ↦ (
    lookup,
    e,
    elim (Bool-cases (is_empty (header r (codes "Authorization")))) [
      | inr some_auth ↦ inl (verify_header-Signed t v lookup r _ m (ground arith))
      | inl no_auth ↦ elim (Bool-cases (is_empty (get_value r.query (codes "X-Amz-Signature")))) [
        | inl none_signed ↦ absurd (ground arith)
        | inr some_signed ↦ inr (verify_presigned-Presigned t v lookup r m (ground arith))
      ]
    ],
  )
]
