-- ===== src/Service/World.antt =====
-- internal/s3api/service.go: what `Service` holds, what it calls, and cipherFor.
use telang.Common.{ℕ, Option, none, some, List, Str, ◌==◌, if◌then◌else◌, Result, ok, err}
use telang.Crypto.Layout.{Aead, Cipher, new_cipher, default_frame_size}
use telang.Crypto.Stream.{ReadError}
use telang.Keys.{KeyStore, get_key}
use telang.Metadata.Order.{str_key}
use telang.Metadata.Store.{Db}
use telang.Metadata.Table.{find, put}
use telang.Storage.Interface.{Ref, PutResult, StorageError}
use telang.S3.Errors.{ServiceError, s3, plain, no_such_bucket}

-- `cache.Cache`, whose package is not in the repository: it opens a blob through the backend, and
-- forgets one.
pub record Cache (S : Type 0) : Type 0 where
  pub open_streaming : Ref → S → Result StorageError Str × S
  pub open_at : Ref → S → Result StorageError Str × S
  pub evict : ℕ → S → S

-- What the service calls outside of the repository's own state: the backend, whose state (with the
-- cache's) is `S`, the cache, MD5 with its hexadecimal print, and AES-GCM.
pub record External (S : Type 0) : Type 0 where
  pub max_object_size : ℕ
  -- `Put(ctx, name, size, r)`, where `r` delivers the bytes and then the error.
  pub put_blob : Str → ℕ → Str → ReadError → S → Result StorageError PutResult × S
  pub get_blob : Ref → S → Result StorageError Str × S
  pub delete_blob : Ref → S → S
  pub cache : Option (Cache S)
  pub md5_hex : Str → Str
  pub gcm : Str → Aead
  pub frame_size : ℕ

pub record BucketCipher : Type 0 where
  pub bucket : Str
  pub cipher : Cipher

abbrev pub cipher_name : BucketCipher → Str
cipher_name r = r.bucket

-- `Service`: the index, the keys, `cipherCache`, and what the backend and the cache hold.
pub record World (S : Type 0) : Type 0 where
  pub db : Db
  pub keys : KeyStore
  pub ciphers : List BucketCipher
  pub ext : S

module _ {S : Type 0} (x : External S) where
  abbrev pub cipher_frame_size : ℕ
  cipher_frame_size = if x.frame_size == 0 then default_frame_size else x.frame_size

  -- `cipherFor`
  unfoldable pub cipher_for : Str → World S → Result ServiceError Cipher × World S
  cipher_for bucket w = elim (find str_key cipher_name bucket w.ciphers) [
    | some r ↦ (ok r.cipher, w)
    | none ↦ elim (get_key bucket w.keys) [
      | err e ↦ (err (s3 no_such_bucket), w)
      | ok key ↦ elim (new_cipher x.gcm key cipher_frame_size) [
        | err e ↦ (err plain, w)
        | ok c ↦ (
          ok c,
          record w {
            ciphers = put str_key cipher_name (record { bucket = bucket; cipher = c }) w.ciphers;
          },
        )
      ]
    ]
  ]

  -- `openCiphertext` and `openCiphertextAt`: through the cache if there is one.
  unfoldable pub open_ciphertext : Ref → S → Result StorageError Str × S
  open_ciphertext ref s = elim x.cache [ some c ↦ c.open_streaming ref s | none ↦ x.get_blob ref s ]

  unfoldable pub open_ciphertext_at : Ref → S → Result StorageError Str × S
  open_ciphertext_at ref s = elim x.cache [ some c ↦ c.open_at ref s | none ↦ x.get_blob ref s ]

  unfoldable pub evict : ℕ → S → S
  evict message_id s = elim x.cache [ some c ↦ c.evict message_id s | none ↦ s ]
