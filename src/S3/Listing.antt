-- ===== src/S3/Listing.antt =====
-- internal/s3api/list.go: listObjectsV2 and keyHasMoreAfter.
use telang.Common.{
  ℕ, zero, suc, ◌+◌, ◌-◌, Bool, true, false, ◌||◌, Option, none, some, List, [], ◌∷◌, ◌++◌, Str,
  codes, str_eq, length, take, ltb, leb, ◌==◌, if◌then◌else◌, Result, ok, err, ◌>>=◌, pos,
  parse_int, trim_prefix, index,
}
use mathlib.Core.Option
use telang.Metadata.Store.{Db, Object, get_bucket, list_objects}
use telang.S3.Errors.{S3Error, not_implemented, no_such_bucket, invalid_argument}
use telang.S3.Router.{get_value, is_empty, is_one_of}

abbrev pub default_max_keys : ℕ
default_max_keys = 1000

abbrev pub hard_max_keys : ℕ
hard_max_keys = 1000

-- What the loop of `listObjectsV2` builds up. `common_prefixes` is also the key set of
-- `seenPrefixes`.
pub record Page : Type 0 where
  pub contents : List Object
  pub common_prefixes : List Str
  pub cursor : Str
  pub emitted : ℕ
  pub last_emitted_key : Str
  pub truncated : Bool

-- One row leaves the loop by `break loop`, or goes on to the next row.
pub data Flow : Type 0 where
  go_on break_loop : Page → Flow

unfoldable pub non_empty : {A : Type 0} → List A → Bool
non_empty [] = false
non_empty (x ∷ xs) = true

module _ (db : Db) (bucket prefix delimiter : Str) (max_keys : ℕ) where
  -- `keyHasMoreAfter`
  unfoldable pub key_has_more_after : Str → Bool
  key_has_more_after after = non_empty (list_objects bucket prefix after 1 db).0

  -- `if emitted >= maxKeys { truncated = …; break loop }` behind an entry.
  unfoldable pub counted : Bool → Page → Flow
  counted more p =
      if leb max_keys p.emitted
      then break_loop (record p { truncated = more || key_has_more_after p.cursor })
      else go_on p

  -- A row that stands in `Contents`.
  unfoldable pub add_contents : Bool → Object → Page → Flow
  unfolding counted
  add_contents more o p = counted more (record p {
    contents = p.contents ++ o ∷ [];
    emitted = p.emitted + 1;
    last_emitted_key = o.key;
  })

  -- A row that is rolled up into the common prefix `cp`.
  unfoldable pub add_prefix : Bool → Object → Str → Page → Flow
  unfolding counted
  add_prefix more o cp p =
      if is_one_of cp p.common_prefixes
      then go_on p
      else counted more (record p {
        common_prefixes = p.common_prefixes ++ cp ∷ [];
        emitted = p.emitted + 1;
        last_emitted_key = o.key;
      })

  -- The body of `for _, o := range batch`.
  unfoldable pub list_row : Bool → Object → Page → Flow
  unfolding add_contents add_prefix
  list_row more o page =
      let p = record page { cursor = o.key } in
      let suffix = trim_prefix o.key prefix in
      if is_empty delimiter then add_contents more o p else elim (index suffix delimiter) [
        | none ↦ add_contents more o p
        | some idx ↦ add_prefix more o (prefix ++ take (idx + length delimiter) suffix) p
      ]

  unfoldable pub list_rows : Bool → List Object → Page → Flow
  unfolding list_row
  list_rows more [] p = go_on p
  list_rows more (o ∷ batch) p = elim (list_row more o p) [
    | break_loop p' ↦ break_loop p'
    | go_on p' ↦ list_rows more batch p'
  ]

  -- `loop: for { … }`, with `none` when the fuel runs out.
  unfoldable pub list_loop : ℕ → Page → Option Page
  unfolding list_rows
  list_loop zero p = none
  list_loop (suc fuel) p =
      let (batch, more) = list_objects bucket prefix p.cursor (max_keys - p.emitted) db in
      if non_empty batch
      then elim (list_rows more batch p) [
        | break_loop p' ↦ some p'
        | go_on p' ↦ elim more [ true ↦ list_loop fuel p' | false ↦ some p' ]
      ]
      else some p

-- `maxKeys`: the parameter, with its default and its ceiling.
unfoldable pub max_keys_of : Str → Result S3Error ℕ
max_keys_of [] = ok default_max_keys
max_keys_of (c ∷ s) = elim (parse_int (c ∷ s)) [
  | some (pos n) ↦ ok (if ltb hard_max_keys n then hard_max_keys else n)
  | _ ↦ err invalid_argument
]

-- `ListBucketResult`, as far as it depends on the loop.
pub record ListResponse : Type 0 where
  pub max_keys : ℕ
  pub key_count : ℕ
  pub is_truncated : Bool
  pub next_continuation_token : Str
  pub contents : List Object
  pub common_prefixes : List Str

abbrev pub start_page : Str → Page
start_page start_after = record {
  contents = [];
  common_prefixes = [];
  cursor = start_after;
  emitted = 0;
  last_emitted_key = [];
  truncated = false;
}

unfoldable pub response_of : (Str → Str) → ℕ → Page → ListResponse
response_of encode max_keys p = record {
  max_keys = max_keys;
  key_count = length p.contents + length p.common_prefixes;
  is_truncated = p.truncated;
  next_continuation_token = if p.truncated then encode p.last_emitted_key else [];
  contents = p.contents;
  common_prefixes = p.common_prefixes;
}

-- `startAfter`: a continuation token takes the place of the `start-after` parameter.
unfoldable pub start_after_of : (Str → Option Str) → Str → Str → Result S3Error Str
start_after_of decode start_after [] = ok start_after
start_after_of decode start_after (c ∷ token) = elim (decode (c ∷ token)) [
  | none ↦ err invalid_argument
  | some key ↦ ok key
]

-- The handler. `encode` and `decode` are `base64.RawURLEncoding`. `none` is a page whose loop ran
-- out of fuel.
unfoldable pub list_objects_v2 :
    (Str → Str)
    → (Str → Option Str)
    → ℕ
    → Db
    → Str
    → List (Str × Str)
    → Result S3Error (Option ListResponse)
unfolding max_keys_of response_of start_after_of
list_objects_v2 encode decode fuel db bucket q =
    let prefix = get_value q (codes "prefix") in
    let delimiter = get_value q (codes "delimiter") in
    let page_of : ℕ → Str → Result S3Error (Option ListResponse) = λ max_keys start.
      if max_keys == 0
      then ok (some (response_of encode 0 (start_page start)))
      else ok (
          Option.map (response_of encode max_keys)
            (list_loop db bucket prefix delimiter max_keys fuel (start_page start))) in
    if str_eq (get_value q (codes "list-type")) (codes "2")
    then elim (get_bucket bucket db) [
      | err _ ↦ err no_such_bucket
      | ok _ ↦ do
        start ←
            start_after_of decode (get_value q (codes "start-after"))
              (get_value q (codes "continuation-token"))
        max_keys ← max_keys_of (get_value q (codes "max-keys"))
        page_of max_keys start
    ]
    else err not_implemented
