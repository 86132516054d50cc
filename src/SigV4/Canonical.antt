-- ===== src/SigV4/Canonical.antt =====
-- internal/sigv4/sigv4.go: the canonical request.
use telang.Common.{
  ℕ, suc, ◌/◌, ◌%◌, Bool, true, false, not, ◌&&◌, ◌||◌, Option, none, some, List, [], ◌∷◌, ◌++◌,
  map, Str, codes, str_eq, take, drop, leb, ◌==◌, if◌then◌else◌, Result, ok, err, index_byte,
  has_prefix,
}
use telang.Common.Decimal.{format_int}
use telang.Metadata.Order.{Key, str_key, pair_key, cmp_str}
use telang.S3.Errors.{AuthError, other_auth_error}
use telang.SigV4.Checks.{◌>>=◌}
use telang.SigV4.Text.{split, join, hex_digit, query_unescape}
use Prim.Native.Nat.{Ordering}

-- The functions of `strings` that go by Unicode's tables.
pub record Unicode : Type 0 where
  pub to_lower : Str → Str
  pub trim_space : Str → Str
  pub equal_fold : Str → Str → Bool

-- `*http.Request`, as far as the verifier reads it: `values` is `r.Header.Values`, and
-- `content_length` is `none` where it is negative.
pub record Request : Type 0 where
  pub method : Str
  pub path : Str
  pub raw_query : Str
  pub query : List (Str × Str)
  pub host : Str
  pub content_length : Option ℕ
  pub values : Str → List Str

-- `r.Header.Get`
unfoldable pub first_value : List Str → Str
first_value [] = []
first_value (v ∷ vs) = v

unfoldable pub header : Request → Str → Str
unfolding first_value
header r name = first_value (r.values name)

-- The test of `awsEscape`, and the bytes that it writes for one byte.
unfoldable pub is_unreserved : ℕ → Bool
is_unreserved c =
    (leb b'A' c && leb c b'Z')
    || (leb b'a' c && leb c b'z')
    || (leb b'0' c && leb c b'9')
    || c == b'-'
    || c == b'_'
    || c == b'.'
    || c == b'~'

unfoldable pub escape_byte : Bool → ℕ → Str
unfolding is_unreserved hex_digit
escape_byte encode_slash c =
    if is_unreserved c || (not encode_slash && c == b'/')
    then c ∷ []
    else b'%' ∷ hex_digit b'A' (c / 16) ∷ hex_digit b'A' (c % 16) ∷ []

-- `awsEscape`
unfoldable pub aws_escape : Bool → Str → Str
unfolding escape_byte
aws_escape encode_slash [] = []
aws_escape encode_slash (c ∷ s) = escape_byte encode_slash c ++ aws_escape encode_slash s

-- `canonicalURI`
unfoldable pub canonical_uri : Str → Str
unfolding aws_escape
canonical_uri [] = codes "/"
canonical_uri (c ∷ p) =
    let out = join (codes "/") (map (aws_escape false) (split b'/' (c ∷ p))) in
    if has_prefix out (codes "/") then out else b'/' ∷ out

-- A part of a raw query: its key, and its value, which is empty without a '='.
unfoldable pub cut_part : Str → Str × Str
cut_part part = elim (index_byte part b'=') [
  | none ↦ (part, [])
  | some eq ↦ (take eq part, drop (suc eq) part)
]

-- A key or value decoded, or as it is where it does not decode.
unfoldable pub decoded : Str → Str
decoded s = elim (query_unescape s) [ none ↦ s | some t ↦ t ]

-- `for _, part := range strings.Split(raw, "&") { if part == "" { continue } … }`
unfoldable pub non_empty_parts : List Str → List Str
non_empty_parts [] = []
non_empty_parts ([] ∷ ps) = non_empty_parts ps
non_empty_parts ((c ∷ p) ∷ ps) = (c ∷ p) ∷ non_empty_parts ps

-- `stripQueryParam`
unfoldable pub strip_parts : Unicode → Str → List Str → List Str
unfolding cut_part decoded
strip_parts u name [] = []
strip_parts u name (p ∷ ps) =
    let rest = strip_parts u name ps in
    if u.equal_fold (decoded (cut_part p).0) name then rest else p ∷ rest

unfoldable pub strip_query_param : Unicode → Str → Str → Str
unfolding strip_parts non_empty_parts
strip_query_param u [] name = []
strip_query_param u (c ∷ raw) name =
    join (codes "&") (strip_parts u name (non_empty_parts (split b'&' (c ∷ raw))))

-- `kv{awsEscape(dk, true), awsEscape(dv, true)}`
unfoldable pub escaped_pair : Str → Str × Str
unfolding cut_part decoded aws_escape
escaped_pair part =
    let (k, v) = cut_part part in (aws_escape true (decoded k), aws_escape true (decoded v))

-- `sort.Slice` by the key and then the value. Pairs that the order does not tell apart are equal.
unfoldable pub insert : {K : Type 0} → (K → K → Ordering) → K → List K → List K
insert cmp x [] = x ∷ []
insert cmp x (y ∷ ys) = elim (cmp x y) [ Ordering.gt ↦ y ∷ insert cmp x ys | _ ↦ x ∷ y ∷ ys ]

unfoldable pub sort : {K : Type 0} → (K → K → Ordering) → List K → List K
unfolding insert
sort cmp [] = []
sort cmp (x ∷ xs) = insert cmp x (sort cmp xs)

abbrev pub pair_order : Key (Str × Str)
pair_order = pair_key str_key str_key

unfoldable pub print_pair : Str × Str → Str
print_pair (k, v) = k ++ b'=' ∷ v

-- `canonicalQueryRaw`
unfoldable pub canonical_parts : List Str → Str
unfolding escaped_pair sort print_pair
canonical_parts parts =
    join (codes "&") (map print_pair (sort pair_order.cmp (map escaped_pair parts)))

unfoldable pub canonical_query_raw : Str → Str
unfolding canonical_parts non_empty_parts
canonical_query_raw [] = []
canonical_query_raw (c ∷ raw) = canonical_parts (non_empty_parts (split b'&' (c ∷ raw)))

-- The loop of `trimAll`, over a value in valid UTF-8.
unfoldable pub collapse : Bool → Str → Str
collapse prev_space [] = []
collapse prev_space (c ∷ s) =
    let again = collapse true s in
    let on = collapse false s in
    if c == b' ' || c == 9 then (if prev_space then again else b' ' ∷ again) else c ∷ on

-- `trimAll`
unfoldable pub trim_all : Unicode → Str → Str
unfolding collapse
trim_all u s = collapse false (u.trim_space s)

-- The value of one signed header.
unfoldable pub content_length_value : Option ℕ → Str → Str
content_length_value (some n) v = format_int n
content_length_value none v = v

unfoldable pub joined_values : List Str → Result AuthError Str
joined_values [] = err other_auth_error
joined_values (v ∷ vs) = ok (join (codes ",") (v ∷ vs))

unfoldable pub signed_value : Request → Str → Result AuthError Str
unfolding content_length_value joined_values header
signed_value r name =
    if str_eq name (codes "host")
    then ok r.host
    else if str_eq name (codes "content-length")
    then ok (content_length_value r.content_length (header r (codes "Content-Length")))
    else joined_values (r.values name)

-- The loop of `canonicalHeaders`, which stops at the first header that is missing.
unfoldable pub header_lines : Unicode → Request → List Str → Result AuthError Str
unfolding signed_value trim_all
header_lines u r [] = ok []
header_lines u r (name ∷ names) = signed_value r name >>= λ val.
    header_lines u r names >>= λ rest. ok (name ++ b':' ∷ trim_all u val ++ 10 ∷ rest)

-- `canonicalHeaders`: the lines, and the list of the names.
unfoldable pub signed_names : Unicode → List Str → List Str
unfolding sort
signed_names u signed = sort cmp_str (map (λ h. u.to_lower (u.trim_space h)) signed)

unfoldable pub canonical_headers : Unicode → Request → List Str → Result AuthError (Str × Str)
unfolding signed_names header_lines
canonical_headers u r signed = header_lines u r (signed_names u signed) >>= λ lines.
    ok (lines, join (codes ";") (signed_names u signed))

-- `buildCanonicalRequestWithQuery`
unfoldable pub build_canonical_request :
    Unicode → Request → List Str → Str → Str → Result AuthError Str
unfolding canonical_headers canonical_uri canonical_query_raw
build_canonical_request u r signed payload_hash raw_query =
    canonical_headers u r signed >>= λ (lines, names). ok (
      join (10 ∷ []) (
        r.method
        ∷ canonical_uri r.path
        ∷ canonical_query_raw raw_query
        ∷ lines
        ∷ []
        ∷ names
        ∷ payload_hash
        ∷ []))
