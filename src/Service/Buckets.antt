-- ===== src/Service/Buckets.antt =====
-- internal/s3api/service.go: CreateBucket, DeleteBucket and ListBuckets.
use telang.Common.{ℕ, Bool, Str, if◌then◌else◌, Result, ok, err}
use telang.Keys.{KeyError, key_exists, create_key, remove_key}
use telang.Metadata.Order.{str_key}
use telang.Metadata.Store
use telang.Metadata.Store.{Bucket, MetaError, not_found, bucket_not_empty, bucket_exists}
use telang.Metadata.Table.{remove}
use telang.S3.Errors.{
  ServiceError, s3, plain, invalid_bucket_name, bucket_already_owned_by_you, no_such_bucket,
  bucket_not_empty as s3_bucket_not_empty,
}
use telang.S3.Paths.{valid_bucket_name}
use telang.Service.World.{World, cipher_name}

-- What the clock, the random source and the file system give to one request about a bucket.
pub record BucketInput : Type 0 where
  pub now : ℕ
  pub new_key : Str
  pub key_written : Bool
  pub key_removed : Bool

unfoldable pub create_key_err : KeyError → ServiceError
create_key_err key_exists = s3 bucket_already_owned_by_you
create_key_err e = plain

unfoldable pub create_bucket_err : MetaError → ServiceError
create_bucket_err bucket_exists = s3 bucket_already_owned_by_you
create_bucket_err e = plain

unfoldable pub delete_bucket_err : MetaError → ServiceError
delete_bucket_err not_found = s3 no_such_bucket
delete_bucket_err bucket_not_empty = s3 s3_bucket_not_empty
delete_bucket_err e = plain

module _ {S : Type 0} where
  -- `CreateBucket`: the key first, and without the row no key.
  unfoldable pub create_bucket :
      BucketInput → Str → World S → Result ServiceError (Unit {0}) × World S
  unfolding create_key_err create_bucket_err
  create_bucket i bucket w =
      let (made, keys) = create_key i.new_key i.key_written bucket w.keys in
      let (row, db) = Store.create_bucket i.now bucket bucket w.db in
      if valid_bucket_name bucket
      then elim made [
        | err e ↦ (err (create_key_err e), record w { keys = keys })
        | ok k ↦ elim row [
          | err e ↦ (
            err (create_bucket_err e),
            record w { keys = (remove_key i.key_removed bucket keys).1 },
          )
          | ok _ ↦ (ok tt, record w { keys = keys; db = db })
        ]
      ]
      else (err (s3 invalid_bucket_name), w)

  -- `DeleteBucket`: the row, then the key, then the cached cipher.
  unfoldable pub delete_bucket :
      BucketInput → Str → World S → Result ServiceError (Unit {0}) × World S
  unfolding delete_bucket_err
  delete_bucket i bucket w =
      let (gone, db) = Store.delete_bucket bucket w.db in
      elim gone [
        | err e ↦ (err (delete_bucket_err e), w)
        | ok _ ↦ (
          ok tt,
          record w {
            db = db;
            keys = (remove_key i.key_removed bucket w.keys).1;
            ciphers = remove str_key cipher_name bucket w.ciphers;
          },
        )
      ]
