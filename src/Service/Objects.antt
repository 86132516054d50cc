-- ===== src/Service/Objects.antt =====
-- internal/s3api/service.go: PutObject, GetObject, GetObjectRange, HeadObject and DeleteObject.
use telang.Common.{ℕ, Bool, ◌||◌, none, Str, take, ltb, leb, if◌then◌else◌, Result, ok, err}
use telang.Crypto.Layout.{Cipher, CryptoError, ciphertext_size}
use telang.Crypto.Stream.{ReadError}
use telang.Crypto.Blob.{encrypt_all, decrypt_all}
use telang.Crypto.Range.{decrypt_range}
use telang.Metadata.Store
use telang.Metadata.Store.{Db, Object}
use telang.Storage.Interface.{Ref, PutResult, StorageError}
use telang.S3.Errors.{
  ServiceError, s3, plain, no_such_bucket, no_such_key, entity_too_large, invalid_range,
  map_backend_err,
}
use telang.Service.World.{External, World, cipher_for, open_ciphertext, open_ciphertext_at, evict}

-- What the clock, the random source and the index's driver give to one PUT: `created_at`, the base
-- nonce, and whether the INSERT fails.
pub record PutInput : Type 0 where
  pub now : ℕ
  pub base : Str
  pub index_fails : Bool

-- The metadata row of a new object.
unfoldable pub new_object : Str → Str → Str → ℕ → ℕ → Str → Str → PutResult → Object
new_object bucket key content_type size ciphertext etag base put = record {
  bucket = bucket;
  key = key;
  size = size;
  ciphertext_size = ciphertext;
  etag = etag;
  content_type = content_type;
  message_id = put.ref.message_id;
  file_id = put.ref.file_id;
  nonce = base;
  created_at = 0;
}

abbrev pub ref_of : Object → Ref
ref_of o = record { message_id = o.message_id; file_id = o.file_id }

module _ {S : Type 0} (x : External S) where
  -- `PutObject` behind `Backend.Put`: record the row, or take the message back. `now` is the time in
  -- seconds, as the table holds it; the code's row keeps the fraction of the second as well.
  unfoldable pub record_object :
      PutInput → Object → PutResult → World S → Result ServiceError Object × World S
  record_object i o put w =
      if i.index_fails then (err plain, record w { ext = x.delete_blob put.ref w.ext }) else (
        ok (record o { created_at = i.now }),
        record w { db = Store.put_object i.now none o w.db },
      )

  -- The upload of `src`, of which `size` bytes are read, under the cipher of the bucket; both
  -- `PutObject` and `CompleteMultipart` end with it.
  unfoldable pub upload :
      PutInput
      → Str
      → Str
      → Str
      → ℕ
      → Str
      → Str
      → Cipher
      → World S
      → Result ServiceError Object × World S
  unfolding record_object
  upload i bucket key content_type size etag src c w =
      let total = ciphertext_size c.frame_size size in
      let (body, end_) = encrypt_all c src size i.base in
      if ltb x.max_object_size total
      then (err (s3 entity_too_large), w)
      else (let (sent, ext) = x.put_blob key total body end_ w.ext in
          elim sent [
            | err e ↦ (err (map_backend_err e), record w { ext = ext })
            | ok put ↦
                record_object i (new_object bucket key content_type size total etag i.base put) put
                  (record w { ext = ext })
          ])

  -- `PutObject`
  unfoldable pub put_object :
      PutInput → Str → Str → Str → ℕ → Str → World S → Result ServiceError Object × World S
  put_object i bucket key content_type size src w = elim (Store.get_bucket bucket w.db) [
    | err e ↦ (err (s3 no_such_bucket), w)
    | ok b ↦
        (let (found, w') = cipher_for x bucket w in
          elim found [
            | err e ↦ (err e, w')
            | ok c ↦ upload i bucket key content_type size (x.md5_hex (take size src)) src c w'
          ])
  ]

  -- `HeadObject`
  unfoldable pub head_object : Str → Str → World S → Result ServiceError Object
  head_object bucket key w = elim (Store.get_object bucket key w.db) [
    | err e ↦ err (s3 no_such_key)
    | ok o ↦ ok o
  ]

  -- The plaintext stream that `GetObject` hands out, read to its end.
  unfoldable pub decrypt_body :
      Object
      → Cipher
      → Result StorageError Str × S
      → World S
      → Result ServiceError (Object × (Str × ReadError)) × World S
  decrypt_body o c (err e, ext) w = (err (map_backend_err e), record w { ext = ext })
  decrypt_body o c (ok body, ext) w = elim (decrypt_all c body) [
    | err e ↦ (err plain, record w { ext = ext })
    | ok p ↦ (ok (o, p), record w { ext = ext })
  ]

  -- `GetObject`
  unfoldable pub get_object :
      Str → Str → World S → Result ServiceError (Object × (Str × ReadError)) × World S
  unfolding decrypt_body
  get_object bucket key w = elim (head_object bucket key w) [
    | err e ↦ (err e, w)
    | ok o ↦
        (let (found, w') = cipher_for x bucket w in
          elim found [
            | err e ↦ (err e, w')
            | ok c ↦ decrypt_body o c (open_ciphertext x (ref_of o) w'.ext) w'
          ])
  ]

  -- The bytes that `GetObjectRange` writes to its pipe, or the error that closes it.
  unfoldable pub decrypt_part :
      Object
      → Cipher
      → ℕ
      → ℕ
      → Result StorageError Str × S
      → World S
      → Result ServiceError (Object × Result CryptoError Str) × World S
  decrypt_part o c start end_ (err e, ext) w = (err (map_backend_err e), record w { ext = ext })
  decrypt_part o c start end_ (ok body, ext) w =
      (ok (o, decrypt_range c body o.ciphertext_size start end_), record w { ext = ext })

  -- `GetObjectRange`
  unfoldable pub get_object_range :
      Str → Str → ℕ → ℕ → World S → Result ServiceError (Object × Result CryptoError Str) × World S
  unfolding decrypt_part
  get_object_range bucket key start end_ w = elim (head_object bucket key w) [
    | err e ↦ (err e, w)
    | ok o ↦
        if leb o.size end_ || ltb end_ start
        then (err (s3 invalid_range), w)
        else (let (found, w') = cipher_for x bucket w in
            elim found [
              | err e ↦ (err e, w')
              | ok c ↦ decrypt_part o c start end_ (open_ciphertext_at x (ref_of o) w'.ext) w'
            ])
  ]

  -- `DeleteObject`: a missing key is no error.
  unfoldable pub delete_object : Str → Str → World S → Result ServiceError (Unit {0}) × World S
  delete_object bucket key w =
      let (gone, db) = Store.delete_object bucket key w.db in
      elim gone [
        | err e ↦ (ok tt, w)
        | ok o ↦ (
          ok tt,
          record w { db = db; ext = x.delete_blob (ref_of o) (evict x o.message_id w.ext) },
        )
      ]
