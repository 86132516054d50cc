-- ===== src/Multipart/Operations.antt =====
-- internal/s3api/multipart.go: CreateMultipart, UploadPart, CompleteMultipart and AbortMultipart.
use telang.Common.{
  ℕ, suc, Bool, not, ◌&&◌, List, ◌∷◌, ◌++◌, Str, str_eq, length, take, ltb, leb, ◌==◌,
  if◌then◌else◌, Result, ok, err,
}
use telang.Common.Decimal.{format_int}
use telang.Metadata.Order.{str_key, num_key, pair_key}
use telang.Metadata.Table.{put}
use telang.Metadata.Store
use telang.Metadata.Store.{MultipartUpload, MultipartPart, Object}
use telang.Metadata.Multipart
use telang.S3.Errors.{
  ServiceError, s3, plain, no_such_bucket, no_such_upload, entity_too_large, invalid_argument,
}
use telang.Service.World.{External, World, cipher_for}
use telang.Service.Objects.{PutInput, upload}
use telang.Multipart.Staging.{file_key, Staging, remove_all, RequestPart, Collected, collect}

-- What the operating system and the driver give to one call: the random id, the clock, and
-- whether `MkdirAll` and the INSERT fail.
pub record CreateInput : Type 0 where
  pub id : Str
  pub now : ℕ
  pub mkdir_fails : Bool

-- The body of one UploadPart: its bytes, whether an error stands behind them in place of io.EOF,
-- whether the temporary file can be written, synced and renamed, and whether the row can be.
pub record PartInput : Type 0 where
  pub src : Str
  pub read_fails : Bool
  pub write_fails : Bool
  pub index_fails : Bool

module _ {S : Type 0} (x : External S) where
  -- `CreateMultipart`, where `stage id` is `filepath.Join(s.StagingDir, id)`.
  unfoldable pub create_multipart :
      (Str → Str) → CreateInput → Str → Str → Staging S → Result ServiceError Str × Staging S
  create_multipart stage i bucket key g = elim (Store.get_bucket bucket g.world.db) [
    | err e ↦ (err (s3 no_such_bucket), g)
    | ok b ↦
        if i.mkdir_fails
        then (err plain, g)
        else (let (made, db) =
              Multipart.create_multipart
                (record {
                  upload_id = i.id;
                  bucket = bucket;
                  key = key;
                  staging_dir = stage i.id;
                  created_at = i.now;
                })
                g.world.db in
            elim made [
              | err e ↦ (err plain, record g { files = remove_all (stage i.id) g.files })
              | ok _ ↦ (ok i.id, record g { world = record g.world { db = db } })
            ])
  ]

  -- `UploadPart` behind the rename: the row.
  unfoldable pub record_part :
      PartInput → Str → ℕ → ℕ → Staging S → Result ServiceError Str × Staging S
  record_part i upload_id part_num size g =
      let etag = x.md5_hex i.src in
      if i.index_fails then (err plain, g) else (
        ok etag,
        record g {
          world = record g.world {
            db =
                Multipart.upsert_part
                  (record {
                    upload_id = upload_id;
                    part_number = part_num;
                    size = size;
                    etag = etag;
                  })
                  g.world.db;
          };
        },
      )

  -- `UploadPart`: a part that is too short, too long or not written is taken back.
  unfoldable pub upload_part :
      PartInput → Str → ℕ → ℕ → Staging S → Result ServiceError Str × Staging S
  unfolding record_part
  upload_part i upload_id part_num size g = elim (Multipart.get_multipart upload_id g.world.db) [
    | err e ↦ (err (s3 no_such_upload), g)
    | ok m ↦
        if ltb x.max_object_size size
        then (err (s3 entity_too_large), g)
        else if i.read_fails && leb (length i.src) size
        then (err plain, g)
        else if not (length (take (suc size) i.src) == size)
        then (err (s3 invalid_argument), g)
        else if i.write_fails
        then (err plain, g)
        else record_part i upload_id part_num size (record g {
          files =
              put (pair_key str_key num_key) file_key
                (record { dir = m.staging_dir; part_number = part_num; bytes = i.src }) g.files;
        })
  ]

  -- `_ = s.Meta.DeleteMultipart(…)`
  unfoldable pub deleted_world : Bool → Str → World S → World S
  deleted_world delete_fails upload_id w =
      if delete_fails then w else record w { db = (Multipart.delete_multipart upload_id w.db).1 }

  -- `CompleteMultipart` behind the loop: the upload under `cipher_for`, and the end of the staging
  -- directory. `delete_fails` says whether `DeleteMultipart` fails, which leaves the rows.
  unfoldable pub finish :
      Bool
      → Str
      → Str
      → Result ServiceError Object × World S
      → Staging S
      → Result ServiceError Object × Staging S
  unfolding deleted_world
  finish delete_fails upload_id dir (err e, w) g = (err e, record g { world = w })
  finish delete_fails upload_id dir (ok o, w) g = (
    ok o,
    record { world = deleted_world delete_fails upload_id w; files = remove_all dir g.files },
  )

  -- The combined entity tag: MD5 of the tags of the parts, and how many there are.
  unfoldable pub combined_etag : Collected → List RequestPart → Str
  combined_etag c parts = x.md5_hex c.etag_bytes ++ b'-' ∷ format_int (length parts)

  unfoldable pub assemble :
      Bool
      → PutInput
      → Str
      → Str
      → Str
      → Str
      → List RequestPart
      → Str
      → Collected
      → Staging S
      → Result ServiceError Object × Staging S
  unfolding finish combined_etag
  assemble delete_fails i bucket key upload_id dir parts content_type c g =
      let (found, w) = cipher_for x bucket g.world in
      elim found [
        | err e ↦ (err e, record g { world = w })
        | ok cipher ↦
            finish delete_fails upload_id dir
              (upload x i bucket key content_type c.total_size (combined_etag c parts) c.content
                cipher w)
              g
      ]

  -- `CompleteMultipart`
  unfoldable pub complete_multipart :
      (Str → Str → Bool)
      → Bool
      → PutInput
      → Str
      → Str
      → Str
      → List RequestPart
      → Str
      → Staging S
      → Result ServiceError Object × Staging S
  unfolding assemble
  complete_multipart equal_fold delete_fails i bucket key upload_id parts content_type g =
      elim (Multipart.get_multipart upload_id g.world.db) [
        | err e ↦ (err (s3 no_such_upload), g)
        | ok m ↦
            if str_eq m.bucket bucket && str_eq m.key key
            then elim (collect equal_fold upload_id m.staging_dir
                (Multipart.list_parts upload_id g.world.db) g.files parts) [
                  | err e ↦ (err e, g)
                  | ok c ↦
                      assemble delete_fails i bucket key upload_id m.staging_dir parts content_type
                        c g
                ]
            else (err (s3 no_such_upload), g)
      ]

  -- `AbortMultipart`. `delete_fails` says whether the driver fails `DeleteMultipart`.
  unfoldable pub abort_multipart :
      Bool → Str → Staging S → Result ServiceError (Unit {0}) × Staging S
  abort_multipart delete_fails upload_id g = elim (Multipart.get_multipart upload_id g.world.db) [
    | err e ↦ (err (s3 no_such_upload), g)
    | ok m ↦
        (let (gone, db) = Multipart.delete_multipart upload_id g.world.db in
          let left : Staging S = record g { files = remove_all m.staging_dir g.files } in
          if delete_fails then (err plain, left) else elim gone [
            | err e ↦ (err plain, left)
            | ok _ ↦ (ok tt, record left { world = record g.world { db = db } })
          ])
  ]
