-- ===== src/Metadata/Reachable.antt =====
-- internal/metadata/metadata.go: the states of the store behind sequences of operations.
use telang.Common.{ℕ, Option, Str, []}
use telang.Metadata.Store.{
  Db, Object, MultipartUpload, MultipartPart, create_bucket, delete_bucket, put_object,
  delete_object,
}
use telang.Metadata.Multipart.{create_multipart, delete_multipart, upsert_part}
use telang.Metadata.Laws.{
  IsValid, create_bucket-IsValid, delete_bucket-IsValid, put_object-IsValid, delete_object-IsValid,
  create_multipart-IsValid, delete_multipart-IsValid, upsert_part-IsValid,
}

-- The tables that `Open` makes.
abbrev pub empty_db : Db
empty_db = record { buckets = []; objects = []; uploads = []; parts = [] }

-- One operation of the store that writes, failed or not.
pub data Step (db : Db) : Db → Type 0 where
  create_bucket_step : (now : ℕ) (name key_id : Str) → Step db (create_bucket now name key_id db).1
  delete_bucket_step : (name : Str) → Step db (delete_bucket name db).1
  put_object_step :
      (now : ℕ) (created : Option ℕ) (o : Object) → Step db (put_object now created o db)
  delete_object_step : (bucket key : Str) → Step db (delete_object bucket key db).1
  create_multipart_step : (m : MultipartUpload) → Step db (create_multipart m db).1
  delete_multipart_step : (upload_id : Str) → Step db (delete_multipart upload_id db).1
  upsert_part_step : (p : MultipartPart) → Step db (upsert_part p db)

pub data Reachable : Db → Type 0 where
  opened : Reachable empty_db
  then_step : (db db' : Db) → Reachable db → Step db db' → Reachable db'

Step-IsValid : (db db' : Db) → IsValid db → Step db db' → IsValid db'
Step-IsValid db _ v (create_bucket_step now name key_id) =
    create_bucket-IsValid db v now name key_id
Step-IsValid db _ v (delete_bucket_step name) = delete_bucket-IsValid db v name
Step-IsValid db _ v (put_object_step now created o) = put_object-IsValid db v now created o
Step-IsValid db _ v (delete_object_step bucket key) = delete_object-IsValid db v bucket key
Step-IsValid db _ v (create_multipart_step m) = create_multipart-IsValid db v m
Step-IsValid db _ v (delete_multipart_step upload_id) = delete_multipart-IsValid db v upload_id
Step-IsValid db _ v (upsert_part_step p) = upsert_part-IsValid db v p

-- In every state that operations of the store lead to from the empty tables, the rows of each
-- table stand in the strict order of its primary key, so no two of them have the same key.
Reachable-IsValid : (db : Db) → Reachable db → IsValid db
Reachable-IsValid _ opened = record {
  buckets_sorted = tt;
  objects_sorted = tt;
  uploads_sorted = tt;
  parts_sorted = tt;
}
Reachable-IsValid _ (then_step db db' r s) = Step-IsValid db db' (Reachable-IsValid db r) s
