-- ===== src/Metadata/Laws.antt =====
-- internal/metadata/metadata.go: the operations of the store on its tables.
use telang.Common.{
  ℕ, ◌≡◌, ◌≢◌, refl, Option, none, some, List, [], ◌∷◌, Str, ltb, ok, err, arith, Option-cases,
  Bool-cases, inl, inr, ltb→le,
}
use telang.Metadata.Order.{str_key}
use telang.Metadata.Table.{
  find, put, Above, IsSorted, find-put_self, find-put_ne, find-remove_self, put-IsSorted,
  remove-IsSorted,
}
use telang.Metadata.Store.{
  Object, MultipartPart, MultipartUpload, Db, not_found, bucket_key, object_key, upload_key,
  part_key, object_order, part_order, create_bucket, get_bucket, count_objects, delete_bucket,
  put_object, get_object, delete_object,
}
use telang.Metadata.Multipart.{create_multipart, remove_parts, delete_multipart, upsert_part}

-- The primary keys are unique, and the rows stand in their order.
pub record IsValid (db : Db) : Type 0 where
  pub buckets_sorted : IsSorted str_key bucket_key db.buckets
  pub objects_sorted : IsSorted object_order object_key db.objects
  pub uploads_sorted : IsSorted str_key upload_key db.uploads
  pub parts_sorted : IsSorted part_order part_key db.parts

Above-remove_parts :
    (j : Str × ℕ) (u : Str) (t : List MultipartPart)
    → Above part_order part_key j t
    → Above part_order part_key j (remove_parts u t)
unfolding remove_parts
Above-remove_parts j u [] a = tt
Above-remove_parts j u (p ∷ t) (b, a) = ground (arith, Above-remove_parts j u t a)

remove_parts-IsSorted :
    (u : Str) (t : List MultipartPart)
    → IsSorted part_order part_key t
    → IsSorted part_order part_key (remove_parts u t)
unfolding remove_parts
remove_parts-IsSorted u [] h = tt
remove_parts-IsSorted u (p ∷ t) (a, h) =
    ground (arith, remove_parts-IsSorted u t h, Above-remove_parts (part_key p) u t a)

module _ (db : Db) (v : IsValid db) where
  pub create_bucket-IsValid :
      (now : ℕ) (name key_id : Str) → IsValid (create_bucket now name key_id db).1
  unfolding create_bucket
  create_bucket-IsValid now name key_id =
      elim (Option-cases (find str_key bucket_key name db.buckets)) [
        | inl e ↦
            rw (e, create_bucket)
              (record {
                buckets_sorted = put-IsSorted str_key bucket_key _ db.buckets v.buckets_sorted;
                objects_sorted = v.objects_sorted;
                uploads_sorted = v.uploads_sorted;
                parts_sorted = v.parts_sorted;
              })
        | inr (b, e) ↦ rw (e, create_bucket) v
      ]

  pub delete_bucket-IsValid : (name : Str) → IsValid (delete_bucket name db).1
  unfolding delete_bucket
  delete_bucket-IsValid name = elim (Bool-cases (ltb 0 (count_objects name db))) [
    | inl full ↦ rw full v
    | inr empty ↦ rw empty (elim (Option-cases (find str_key bucket_key name db.buckets)) [
      | inl e ↦ rw e v
      | inr (b, e) ↦ rw e (record {
        buckets_sorted = remove-IsSorted str_key bucket_key name db.buckets v.buckets_sorted;
        objects_sorted = v.objects_sorted;
        uploads_sorted = v.uploads_sorted;
        parts_sorted = v.parts_sorted;
      })
    ])
  ]

  pub put_object-IsValid :
      (now : ℕ) (created : Option ℕ) (o : Object) → IsValid (put_object now created o db)
  unfolding put_object
  put_object-IsValid now created o = record {
    buckets_sorted = v.buckets_sorted;
    objects_sorted = put-IsSorted object_order object_key _ db.objects v.objects_sorted;
    uploads_sorted = v.uploads_sorted;
    parts_sorted = v.parts_sorted;
  }

  pub delete_object-IsValid : (bucket key : Str) → IsValid (delete_object bucket key db).1
  unfolding delete_object
  delete_object-IsValid bucket key =
      elim (Option-cases (find object_order object_key (bucket, key) db.objects)) [
        | inl e ↦ rw (e, delete_object) v
        | inr (o, e) ↦
            rw (e, delete_object)
              (record {
                buckets_sorted = v.buckets_sorted;
                objects_sorted =
                    remove-IsSorted object_order object_key (bucket, key) db.objects
                      v.objects_sorted;
                uploads_sorted = v.uploads_sorted;
                parts_sorted = v.parts_sorted;
              })
      ]

  pub create_multipart-IsValid : (m : MultipartUpload) → IsValid (create_multipart m db).1
  unfolding create_multipart
  create_multipart-IsValid m =
      elim (Option-cases (find str_key upload_key m.upload_id db.uploads)) [
        | inl e ↦
            rw (e, create_multipart)
              (record {
                buckets_sorted = v.buckets_sorted;
                objects_sorted = v.objects_sorted;
                uploads_sorted = put-IsSorted str_key upload_key m db.uploads v.uploads_sorted;
                parts_sorted = v.parts_sorted;
              })
        | inr (x, e) ↦ rw (e, create_multipart) v
      ]

  pub delete_multipart-IsValid : (u : Str) → IsValid (delete_multipart u db).1
  unfolding delete_multipart
  delete_multipart-IsValid u = elim (Option-cases (find str_key upload_key u db.uploads)) [
    | inl e ↦ rw (e, delete_multipart) v
    | inr (x, e) ↦
        rw (e, delete_multipart)
          (record {
            buckets_sorted = v.buckets_sorted;
            objects_sorted = v.objects_sorted;
            uploads_sorted = remove-IsSorted str_key upload_key u db.uploads v.uploads_sorted;
            parts_sorted = remove_parts-IsSorted u db.parts v.parts_sorted;
          })
  ]

  pub upsert_part-IsValid : (p : MultipartPart) → IsValid (upsert_part p db)
  unfolding upsert_part
  upsert_part-IsValid p = record {
    buckets_sorted = v.buckets_sorted;
    objects_sorted = v.objects_sorted;
    uploads_sorted = v.uploads_sorted;
    parts_sorted = put-IsSorted part_order part_key p db.parts v.parts_sorted;
  }

-- The row that `PutObject` writes.
abbrev pub stamped : ℕ → Option ℕ → Object → Object
stamped now none o = record o { created_at = now }
stamped now (some t) o = record o { created_at = t }

pub put_object-stamped :
    (now : ℕ) (created : Option ℕ) (o : Object) (db : Db)
    → put_object now created o db
      ≡ record db { objects = put object_order object_key (stamped now created o) db.objects }
unfolding put_object
put_object-stamped now none o db = refl
put_object-stamped now (some t) o db = refl

-- After PutObject of a row, whether the key is new or overwritten, GetObject of its bucket and
-- key returns that row, with `created_at` the given time or, where none was given, the time of
-- the call.
pub get-put_object_self :
    (now : ℕ) (created : Option ℕ) (o : Object) (db : Db)
    → get_object o.bucket o.key (put_object now created o db) ≡ ok (stamped now created o)
unfolding get_object
get-put_object_self now none o db = rw (
  put_object-stamped now none o db,
  find-put_self object_order object_key (stamped now none o) db.objects,
  get_object,
)
get-put_object_self now (some t) o db = rw (
  put_object-stamped now (some t) o db,
  find-put_self object_order object_key (stamped now (some t) o) db.objects,
  get_object,
)

-- PutObject of a row does not change what GetObject returns for any other pair of bucket and key.
pub get-put_object_ne :
    (now : ℕ) (created : Option ℕ) (o : Object) (db : Db) (bucket key : Str)
    → ◌≢◌ {A = Str × Str} (bucket, key) (o.bucket, o.key)
    → get_object bucket key (put_object now created o db) ≡ get_object bucket key db
unfolding get_object
get-put_object_ne now none o db bucket key h = rw (
  put_object-stamped now none o db,
  find-put_ne object_order object_key (bucket, key) (stamped now none o) db.objects h,
  get_object,
)
get-put_object_ne now (some t) o db bucket key h = rw (
  put_object-stamped now (some t) o db,
  find-put_ne object_order object_key (bucket, key) (stamped now (some t) o) db.objects h,
  get_object,
)

-- When DeleteBucket returns no error, the bucket had no object, and GetBucket no longer finds it.
pub delete_bucket_ok :
    (name : Str) (db : Db)
    → (delete_bucket name db).0 ≡ ok tt
    → (count_objects name db ≡ 0) × (get_bucket name (delete_bucket name db).1 ≡ err not_found)
unfolding delete_bucket get_bucket
delete_bucket_ok name db h = elim (Bool-cases (ltb 0 (count_objects name db))) [
  | inl full ↦ absurd (ground arith)
  | inr empty ↦ elim (Option-cases (find str_key bucket_key name db.buckets)) [
    | inl e ↦ absurd (ground arith)
    | inr (b, e) ↦ (
      omega (arith, ltb→le _ _ empty),
      rw (empty, e, delete_bucket, find-remove_self str_key bucket_key name db.buckets, get_bucket),
    )
  ]
]

-- When a bucket and key have a row, DeleteObject returns that row, and GetObject no longer finds
-- one.
pub delete_object_ok :
    (bucket key : Str) (db : Db) (o : Object)
    → get_object bucket key db ≡ ok o
    → ((delete_object bucket key db).0 ≡ ok o)
      × (get_object bucket key (delete_object bucket key db).1 ≡ err not_found)
unfolding delete_object get_object
delete_object_ok bucket key db o h =
    elim (Option-cases (find object_order object_key (bucket, key) db.objects)) [
      | inl e ↦ absurd (ground arith)
      | inr (x, e) ↦ (
        ground arith,
        rw (
          e,
          delete_object,
          find-remove_self object_order object_key (bucket, key) db.objects,
          get_object,
        ),
      )
    ]
