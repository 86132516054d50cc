-- ===== src/Metadata/Store.antt =====
-- internal/metadata/metadata.go: the rows, the buckets and the objects.
use Prim.Native.Nat.{Ordering}
use telang.Common.{
  ℕ, ◌+◌, Bool, true, false, ◌&&◌, Option, none, some, List, [], ◌∷◌, Str, str_eq, length, take,
  ltb, ◌==◌, if◌then◌else◌, Result, ok, err,
}
use telang.Metadata.Order.{Key, str_key, num_key, pair_key, cmp_str}
use telang.Metadata.Table.{find, put, remove}

-- Times are Unix seconds, as the tables hold them.
pub record Bucket : Type 0 where
  pub name : Str
  pub created_at : ℕ
  pub enc_key_id : Str

pub record Object : Type 0 where
  pub bucket : Str
  pub key : Str
  pub size : ℕ
  pub ciphertext_size : ℕ
  pub etag : Str
  pub content_type : Str
  pub message_id : ℕ
  pub file_id : Str
  pub nonce : Str
  pub created_at : ℕ

pub record MultipartUpload : Type 0 where
  pub upload_id : Str
  pub bucket : Str
  pub key : Str
  pub staging_dir : Str
  pub created_at : ℕ

pub record MultipartPart : Type 0 where
  pub upload_id : Str
  pub part_number : ℕ
  pub size : ℕ
  pub etag : Str

-- The four tables of `schema`, each in the order of its primary key.
pub record Db : Type 0 where
  pub buckets : List Bucket
  pub objects : List Object
  pub uploads : List MultipartUpload
  pub parts : List MultipartPart

-- The sentinels, and any error of the driver.
pub data MetaError : Type 0 where
  not_found bucket_not_empty bucket_exists upload_not_found db_failure : MetaError

-- The primary keys.
abbrev pub bucket_key : Bucket → Str
bucket_key b = b.name

abbrev pub object_key : Object → Str × Str
object_key o = (o.bucket, o.key)

abbrev pub upload_key : MultipartUpload → Str
upload_key m = m.upload_id

abbrev pub part_key : MultipartPart → Str × ℕ
part_key p = (p.upload_id, p.part_number)

abbrev pub object_order : Key (Str × Str)
object_order = pair_key str_key str_key

abbrev pub part_order : Key (Str × ℕ)
part_order = pair_key str_key num_key

-- `SELECT … WHERE …`: the rows that pass, in their order.
unfoldable pub select : {R : Type 0} → (R → Bool) → List R → List R
select p [] = []
select p (r ∷ t) = let rest = select p t in if p r then r ∷ rest else rest

-- `CreateBucket`: the INSERT fails on a name that is there.
unfoldable pub create_bucket : ℕ → Str → Str → Db → Result MetaError (Unit {0}) × Db
create_bucket now name enc_key_id db = elim (find str_key bucket_key name db.buckets) [
  | some b ↦ (err bucket_exists, db)
  | none ↦ (
    ok tt,
    record db {
      buckets =
          put str_key bucket_key (record { name = name; created_at = now; enc_key_id = enc_key_id })
            db.buckets;
    },
  )
]

-- `GetBucket`
unfoldable pub get_bucket : Str → Db → Result MetaError Bucket
get_bucket name db = elim (find str_key bucket_key name db.buckets) [
  | some b ↦ ok b
  | none ↦ err not_found
]

-- `ListBuckets`, and the rows that `ForEachBucket` visits
unfoldable pub list_buckets : Db → List Bucket
list_buckets db = db.buckets

-- `SELECT COUNT(1) FROM objects WHERE bucket = ?`
unfoldable pub count_objects : Str → Db → ℕ
unfolding select
count_objects name db = length (select (λ (o : Object). str_eq o.bucket name) db.objects)

-- `DeleteBucket`: a transaction, so an error leaves the tables as they were.
unfoldable pub delete_bucket : Str → Db → Result MetaError (Unit {0}) × Db
unfolding count_objects
delete_bucket name db =
    if ltb 0 (count_objects name db)
    then (err bucket_not_empty, db)
    else elim (find str_key bucket_key name db.buckets) [
      | none ↦ (err not_found, db)
      | some b ↦ (ok tt, record db { buckets = remove str_key bucket_key name db.buckets })
    ]

-- `PutObject`. An object with no creation time gets the time now.
unfoldable pub put_object : ℕ → Option ℕ → Object → Db → Db
put_object now created o db =
    let at : ℕ = elim created [ none ↦ now | some t ↦ t ] in
    record db { objects = put object_order object_key (record o { created_at = at }) db.objects }

-- `GetObject`
unfoldable pub get_object : Str → Str → Db → Result MetaError Object
get_object bucket key db = elim (find object_order object_key (bucket, key) db.objects) [
  | some o ↦ ok o
  | none ↦ err not_found
]

-- `DeleteObject` returns the row that it removes.
unfoldable pub delete_object : Str → Str → Db → Result MetaError Object × Db
delete_object bucket key db = elim (find object_order object_key (bucket, key) db.objects) [
  | none ↦ (err not_found, db)
  | some o ↦ (ok o, record db { objects = remove object_order object_key (bucket, key) db.objects })
]

-- The bytes of a code point in UTF-8, and of a string: Go's `len`.
unfoldable pub utf8_len : ℕ → ℕ
utf8_len c = if ltb c 128 then 1 else if ltb c 2048 then 2 else if ltb c 65536 then 3 else 4

unfoldable pub byte_len : Str → ℕ
unfolding utf8_len
byte_len [] = 0
byte_len (c ∷ s) = utf8_len c + byte_len s

unfoldable pub is_gt : Ordering → Bool
is_gt Ordering.gt = true
is_gt o = false

-- The WHERE clause of `ListObjects`. `substr` counts characters, and its length is `len(prefix)`.
-- No string holds a NUL, behind which `substr` reads nothing.
unfoldable pub is_listed : Str → Str → Str → Object → Bool
unfolding is_gt byte_len
is_listed bucket prefix start_after o =
    str_eq o.bucket bucket
    && is_gt (cmp_str o.key start_after)
    && str_eq (take (byte_len prefix) o.key) prefix

-- `ListObjects` with its `LIMIT limit+1` and `more`.
unfoldable pub list_objects : Str → Str → Str → ℕ → Db → List Object × Bool
unfolding is_listed select
list_objects bucket prefix start_after limit db =
    let n = if limit == 0 then 1000 else limit in
    let rows = take (n + 1) (select (is_listed bucket prefix start_after) db.objects) in
    if ltb n (length rows) then (take n rows, true) else (rows, false)
