-- ===== src/S3/Router.antt =====
-- internal/s3api/router.go: ServeHTTP, the sub-resources that are refused, and the dispatch.
use telang.Common.{
  Bool, true, false, ◌||◌, Option, none, some, List, [], ◌∷◌, Str, codes, str_eq, map,
  if◌then◌else◌, Result, ok, err,
}
use telang.S3.Errors.{S3Error, AuthError, not_implemented, sigv4_err_to_s3}
use telang.S3.Paths.{split_path}

pub data Method : Type 0 where
  get put post delete head other_method : Method

-- `*http.Request`, as far as the router reads it. `query` is what `r.URL.Query()` parses: the keys
-- with their first values.
pub record Request : Type 0 where
  pub method : Method
  pub path : Str
  pub query : List (Str × Str)

-- `Query().Has(k)` and `Query().Get(k)`, which is empty where the key is missing.
unfoldable pub has_key : List (Str × Str) → Str → Bool
has_key [] k = false
has_key ((j, v) ∷ q) k = str_eq j k || has_key q k

unfoldable pub get_value : List (Str × Str) → Str → Str
get_value [] k = []
get_value ((j, v) ∷ q) k = if str_eq j k then v else get_value q k

unfoldable pub is_empty : Str → Bool
is_empty [] = true
is_empty (c ∷ s) = false

-- `unimplementedSubresources`
abbrev pub unimplemented_subresources : List Str
unimplemented_subresources = map codes (
    "versioning" ∷ "versions" ∷ "acl" ∷ "policy" ∷ "policyStatus" ∷ "cors" ∷ "lifecycle"
    ∷ "replication" ∷ "tagging" ∷ "encryption" ∷ "logging" ∷ "notification" ∷ "object-lock"
    ∷ "requestPayment" ∷ "website" ∷ "accelerate" ∷ "analytics" ∷ "intelligent-tiering"
    ∷ "inventory" ∷ "metrics" ∷ "ownershipControls" ∷ "publicAccessBlock" ∷ "legal-hold"
    ∷ "retention" ∷ "torrent" ∷ "restore" ∷ "select" ∷ "select-type" ∷ [])

unfoldable pub is_one_of : Str → List Str → Bool
is_one_of k [] = false
is_one_of k (x ∷ xs) = str_eq k x || is_one_of k xs

-- `isUnimplementedSubresource`
unfoldable pub is_unimplemented_subresource : List (Str × Str) → Bool
unfolding is_one_of
is_unimplemented_subresource [] = false
is_unimplemented_subresource ((k, v) ∷ q) =
    is_one_of k unimplemented_subresources || is_unimplemented_subresource q

-- The handler that a request reaches, with its bucket and key.
pub data Route : Type 0 where
  list_buckets : Route
  create_bucket delete_bucket list_objects_v2 : Str → Route
  create_multipart upload_part complete_multipart abort_multipart : Str → Str → Route
  put_object get_object head_object delete_object : Str → Str → Route
  not_routed : Route

-- The cases with a bucket and no key.
unfoldable pub bucket_route : Method → Str → Route
bucket_route put bucket = create_bucket bucket
bucket_route delete bucket = delete_bucket bucket
bucket_route get bucket = list_objects_v2 bucket
bucket_route _ bucket = not_routed

-- The cases with a bucket and a key, in the order of the switch.
unfoldable pub object_route : Method → List (Str × Str) → Str → Str → Route
unfolding has_key get_value is_empty
object_route post query bucket key =
    if has_key query (codes "uploads")
    then create_multipart bucket key
    else if is_empty (get_value query (codes "uploadId"))
    then not_routed
    else complete_multipart bucket key
object_route put query bucket key =
    if is_empty (get_value query (codes "uploadId"))
    then put_object bucket key
    else upload_part bucket key
object_route delete query bucket key =
    if is_empty (get_value query (codes "uploadId"))
    then delete_object bucket key
    else abort_multipart bucket key
object_route get query bucket key = get_object bucket key
object_route head query bucket key = head_object bucket key
object_route other_method query bucket key = not_routed

root_route : Method → Route
root_route get = list_buckets
root_route _ = not_routed

-- The switch of `ServeHTTP`, at the bucket and the key of the path.
unfoldable pub route_to : Method → List (Str × Str) → Str → Str → Route
unfolding root_route bucket_route object_route
route_to method query [] key = root_route method
route_to method query (c ∷ bucket) [] = bucket_route method (c ∷ bucket)
route_to method query (c ∷ bucket) (d ∷ key) = object_route method query (c ∷ bucket) (d ∷ key)

unfoldable pub route : Request → Route
route r = let (bucket, key) = split_path r.path in route_to r.method r.query bucket key

-- What `ServeHTTP` does with a request. `in_browser` is `h.Browser.shouldHandle(r)` and `verified`
-- the result of `h.Verifier.Verify(r)`.
pub data Served : Type 0 where
  browser : Served
  refused : S3Error → Served
  handled : Route → Served

unfoldable pub served_by : Route → Served
served_by not_routed = refused not_implemented
served_by h = handled h

unfoldable pub serve_http : Bool → Result AuthError (Unit {0}) → Request → Served
serve_http true verified r = browser
serve_http false (err e) r = refused (sigv4_err_to_s3 e)
serve_http false (ok _) r =
    if is_unimplemented_subresource r.query then refused not_implemented else served_by (route r)

-- The bucket and the key that a handler of an object gets.
abbrev pub key_of : Route → Option (Str × Str)
key_of (put_object b k) = some (b, k)
key_of (get_object b k) = some (b, k)
key_of (head_object b k) = some (b, k)
key_of (delete_object b k) = some (b, k)
key_of (create_multipart b k) = some (b, k)
key_of (upload_part b k) = some (b, k)
key_of (complete_multipart b k) = some (b, k)
key_of (abort_multipart b k) = some (b, k)
key_of _ = none
