-- ===== src/Config/Credentials.antt =====
-- cmd/telang/init.go: newS3Credentials, and what internal/sigv4/sigv4.go makes of its access keys.
use telang.Common.{
  ℕ, zero, suc, ◌+◌, ◌*◌, ◌/◌, ◌%◌, ◌≤◌, ◌<◌, ◌≡◌, refl, ap, ◌∙◌, false, ◌&&◌, Lacks, ok,
  Bool-cases, inl, inr, str_eq, List, [], ◌∷◌, ◌++◌, Str, codes, length, take, ltb, ◌==◌,
  if◌then◌else◌, err, arith,
}
use telang.Common.Base64.{base64_digit, encode_base64, upper_char, upper_ascii}
use telang.Crypto.Nonces.{AreBytes}
use telang.SigV4.Text.{split, extend_first}
use telang.SigV4.Auth.{AuthHeader, put_scope}
use telang.S3.Errors.{malformed_auth}
use telang.S3.Router.{is_empty}

-- `strings.TrimRight(s, "=")`
unfoldable pub trim_right_equals : Str → Str
trim_right_equals [] = []
trim_right_equals (c ∷ s) =
    let rest = trim_right_equals s in if c == b'=' && is_empty rest then [] else c ∷ rest

-- `newS3Credentials`, which is given its random bytes.
unfoldable pub new_access_key : Str → Str
unfolding trim_right_equals encode_base64 upper_ascii
new_access_key raw =
    let ak = codes "AKIA" ++ upper_ascii (trim_right_equals (encode_base64 raw)) in
    if ltb 20 (length ak) then take 20 ak else ak

unfoldable pub new_secret_key : Str → Str
unfolding trim_right_equals encode_base64
new_secret_key raw = trim_right_equals (encode_base64 raw)

-- How often a character stands in a text.
abbrev pub count : ℕ → Str → ℕ
count c [] = 0
count c (d ∷ s) = let rest = count c s in if d == c then suc rest else rest

count-append : (c : ℕ) (s t : Str) → count c (s ++ t) ≡ count c s + count c t
count-append c [] t = omega arith
count-append c (d ∷ s) t = ground (arith, count-append c s t)

length-extend_first :
    (d : ℕ) (ps : List Str) → 1 ≤ length ps → length (extend_first d ps) ≡ length ps
unfolding extend_first
length-extend_first d [] h = absurd (omega arith)
length-extend_first d (p ∷ ps) h = refl

length-split : (c : ℕ) (s : Str) → length (split c s) ≡ suc (count c s)
unfolding split extend_first
length-split c [] = refl
length-split c (d ∷ s) = ground (arith, length-split c s, length-extend_first d (split c s))

-- A scope of more than five parts is refused.
put_scope_long :
    (ps : List Str) (a : AuthHeader) → 6 ≤ length ps → put_scope ps a ≡ err malformed_auth
unfolding put_scope
put_scope_long [] a h = refl
put_scope_long (p ∷ []) a h = refl
put_scope_long (p ∷ q ∷ []) a h = refl
put_scope_long (p ∷ q ∷ r ∷ []) a h = refl
put_scope_long (p ∷ q ∷ r ∷ s ∷ []) a h = refl
put_scope_long (p ∷ q ∷ r ∷ s ∷ t ∷ []) a h = absurd (omega arith)
put_scope_long (p ∷ q ∷ r ∷ s ∷ t ∷ u ∷ ps) a h = refl

-- The `Credential` of a request.
abbrev pub credential : Str → Str → Str → Str
credential key date region =
    key ++ (codes "/" ++ (date ++ (codes "/" ++ (region ++ codes "/s3/aws4_request"))))

many_slashes :
    (key date region : Str) → 1 ≤ count b'/' key → 6 ≤ suc (count b'/' (credential key date region))
many_slashes key date region h = omega (
  arith,
  count-append b'/' key
      (codes "/" ++ (date ++ (codes "/" ++ (region ++ codes "/s3/aws4_request")))),
  count-append b'/' (codes "/") (date ++ (codes "/" ++ (region ++ codes "/s3/aws4_request"))),
  count-append b'/' date (codes "/" ++ (region ++ codes "/s3/aws4_request")),
  count-append b'/' (codes "/") (region ++ codes "/s3/aws4_request"),
  count-append b'/' region (codes "/s3/aws4_request"),
  one_slash,
  two_slashes,
)
  where
    one_slash : count b'/' (codes "/") ≡ 1
    one_slash = refl

    two_slashes : count b'/' (codes "/s3/aws4_request") ≡ 2
    two_slashes = refl

-- The groups of six bits in the numbers that three bytes each make, the first bits first.
pub sextets : Str → List ℕ
sextets (a ∷ b ∷ c ∷ s) =
    let v = a * 65536 + b * 256 + c in v / 262144 ∷ v / 4096 % 64 ∷ v / 64 % 64 ∷ v % 64 ∷ sextets s
sextets _ = []

base64_digit_slash : (n : ℕ) → n < 64 → (upper_char (base64_digit n) == b'/') ≡ (n == 63)
unfolding base64_digit upper_char
base64_digit_slash n h = ground arith

base64_digit_equals : (n : ℕ) → n < 64 → (base64_digit n == b'=') ≡ false
unfolding base64_digit
base64_digit_equals n h = ground arith

count_both :
    (c d x y : ℕ) (s t : Str)
    → (x == c) ≡ (y == d)
    → count c s ≡ count d t
    → count c (x ∷ s) ≡ count d (y ∷ t)
count_both c d x y s t e h = ground (arith, e, h)

-- One group: its character after ToUpper, in front of the characters of the other groups.
count-digit :
    (n m : ℕ) (s t : Str)
    → n ≡ m
    → m < 64
    → count b'/' s ≡ count 63 t
    → count b'/' (upper_char (base64_digit n) ∷ s) ≡ count 63 (m ∷ t)
count-digit n m s t e l h =
    count_both b'/' 63 (upper_char (base64_digit n)) m s t
      (ap (λ z. upper_char (base64_digit z) == b'/') e ∙ base64_digit_slash m l) h

count-encode_base64 :
    (k : ℕ) (raw : Str)
    → length raw ≡ 3 * k
    → AreBytes raw
    → count b'/' (upper_ascii (encode_base64 raw)) ≡ count 63 (sextets raw)
unfolding encode_base64 upper_ascii sextets
count-encode_base64 k [] e h = refl
count-encode_base64 k (a ∷ []) e h = absurd (omega arith)
count-encode_base64 k (a ∷ b ∷ []) e h = absurd (omega arith)
count-encode_base64 zero (a ∷ b ∷ c ∷ s) e h = absurd (omega arith)
count-encode_base64 (suc k) (a ∷ b ∷ c ∷ s) e (ha, (hb, (hc, hs))) =
    let v = a * 65536 + b * 256 + c in
    let e0 = upper_ascii (encode_base64 s) in
    let t0 = sextets s in
    let e1 = upper_char (base64_digit (c % 64)) ∷ e0 in
    let e2 = upper_char (base64_digit (b % 16 * 4 + c / 64)) ∷ e1 in
    let e3 = upper_char (base64_digit (a % 4 * 16 + b / 16)) ∷ e2 in
    count-digit (a / 4) (v / 262144) e3 (v / 4096 % 64 ∷ v / 64 % 64 ∷ v % 64 ∷ t0) (omega arith)
      (omega arith)
      (count-digit (a % 4 * 16 + b / 16) (v / 4096 % 64) e2 (v / 64 % 64 ∷ v % 64 ∷ t0)
        (omega arith) (omega arith)
        (count-digit (b % 16 * 4 + c / 64) (v / 64 % 64) e1 (v % 64 ∷ t0) (omega arith)
          (omega arith)
          (count-digit (c % 64) (v % 64) e0 t0 (omega arith) (omega arith)
            (count-encode_base64 k s (omega arith) hs))))

-- The text has no padding, and four characters for three bytes.
length-encode_base64 :
    (k : ℕ) (raw : Str)
    → length raw ≡ 3 * k
    → AreBytes raw
    → (trim_right_equals (encode_base64 raw) ≡ encode_base64 raw)
      × (length (upper_ascii (encode_base64 raw)) ≡ 4 * k)
unfolding encode_base64 upper_ascii trim_right_equals is_empty
length-encode_base64 zero [] e h = (refl, refl)
length-encode_base64 (suc k) [] e h = absurd (omega arith)
length-encode_base64 k (a ∷ []) e h = absurd (omega arith)
length-encode_base64 k (a ∷ b ∷ []) e h = absurd (omega arith)
length-encode_base64 zero (a ∷ b ∷ c ∷ s) e h = absurd (omega arith)
length-encode_base64 (suc k) (a ∷ b ∷ c ∷ s) e (ha, (hb, (hc, hs))) =
    let rest = length-encode_base64 k s (omega arith) hs in
    (
      ground (
        arith,
        rest.0,
        base64_digit_equals (a / 4) (omega arith),
        base64_digit_equals (a % 4 * 16 + b / 16) (omega arith),
        base64_digit_equals (b % 16 * 4 + c / 64) (omega arith),
        base64_digit_equals (c % 64) (omega arith),
      ),
      omega (arith, rest.1),
    )

Lacks-count : (c : ℕ) (s : Str) → count c s ≡ 0 → Lacks c s
Lacks-count c [] h = tt
Lacks-count c (d ∷ s) h = ground (arith, Lacks-count c s)

split-Lacks : (c : ℕ) (s t : Str) → Lacks c s → split c (s ++ c ∷ t) ≡ s ∷ split c t
unfolding split extend_first
split-Lacks c [] t h = ground arith
split-Lacks c (d ∷ s) t (a, h) = ground (arith, split-Lacks c s t h)

-- The key without a slash is read back.
put_scope-credential :
    (key date region : Str) (a : AuthHeader)
    → Lacks b'/' key
    → Lacks b'/' date
    → Lacks b'/' region
    → put_scope (split b'/' (credential key date region)) a
      ≡ ok (record a { access_key = key; date = date; region = region; service = codes "s3" })
unfolding put_scope split extend_first str_eq
put_scope-credential key date region a hk hd hr =
    rw
      (
        split-Lacks b'/' key (date ++ (codes "/" ++ (region ++ codes "/s3/aws4_request"))) hk,
        split-Lacks b'/' date (region ++ codes "/s3/aws4_request") hd,
        split-Lacks b'/' region (codes "s3/aws4_request") hr,
      )
      refl

-- Four groups of three bytes give a key of twenty characters, none of which is cut off.
new_access_key_lem :
    (raw : Str)
    → length raw ≡ 12
    → AreBytes raw
    → new_access_key raw ≡ codes "AKIA" ++ upper_ascii (encode_base64 raw)
unfolding new_access_key
new_access_key_lem raw e h = ground (arith, length-encode_base64 4 raw e h)

-- For twelve random bytes, and a date and a region without a slash, the reading of the Credential
-- of a request with the access key that init makes of these bytes fails with ErrMalformedAuth if
-- one of the sixteen groups of six bits of these bytes has all its bits set, and otherwise gives
-- the access key, the date, the region and the service s3 back.
pub put_scope-new_access_key :
    (raw date region : Str) (a : AuthHeader)
    → length raw ≡ 12
    → AreBytes raw
    → Lacks b'/' date
    → Lacks b'/' region
    → put_scope (split b'/' (credential (new_access_key raw) date region)) a ≡ (
        if ltb 0 (count 63 (sextets raw))
        then err malformed_auth
        else ok (record a {
          access_key = new_access_key raw;
          date = date;
          region = region;
          service = codes "s3";
        }))
put_scope-new_access_key raw date region a e h hd hr =
    let key = new_access_key raw in
    let same : count b'/' key ≡ count 63 (sextets raw) =
      rw (new_access_key_lem raw e h) (count-encode_base64 4 raw e h) in
    elim (Bool-cases (ltb 0 (count 63 (sextets raw)))) [
      | inl some_63 ↦ rw (some_63) (
          put_scope_long (split b'/' (credential key date region)) a (
            rw (length-split b'/' (credential key date region))
              (many_slashes key date region (ground arith))))
      | inr none_63 ↦
          rw (none_63)
            (put_scope-credential key date region a (Lacks-count b'/' key (ground arith)) hd hr)
    ]
