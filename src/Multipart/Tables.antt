-- ===== src/Multipart/Tables.antt =====
-- internal/s3api/multipart.go: what the operations leave of the tables of the uploads.
use telang.Common.{
  ℕ, ◌≡◌, refl, none, Str, ltb, ok, inl, inr, Option-cases, Result-cases, Bool-cases,
}
use telang.Crypto.Layout.{Cipher, new_cipher, ciphertext_size}
use telang.Crypto.Blob.{encrypt_all}
use telang.Keys.{get_key}
use telang.Metadata.Order.{str_key}
use telang.Metadata.Table.{find, put}
use telang.Metadata.Store
use telang.Metadata.Store.{
  Db, Object, MultipartUpload, MultipartPart, upload_key, part_order, part_key, select,
  upload_not_found,
}
use telang.Metadata.Multipart
use telang.Metadata.Multipart.{get_multipart, list_parts, remove_parts}
use telang.Service.World.{External, World, cipher_for, cipher_name, cipher_frame_size}
use telang.Service.Objects.{PutInput, upload, record_object}
use telang.Storage.Interface.{PutResult}

pub create_multipart_ok :
    (u bucket key dir : Str) (now : ℕ) (db : Db)
    → find str_key upload_key u db.uploads ≡ none
    → Multipart.create_multipart
        (record { upload_id = u; bucket = bucket; key = key; staging_dir = dir; created_at = now })
        db
      ≡ (
        ok tt,
        record db {
          uploads =
              put str_key upload_key
                (record {
                  upload_id = u;
                  bucket = bucket;
                  key = key;
                  staging_dir = dir;
                  created_at = now;
                })
                db.uploads;
        },
      )
unfolding Multipart.create_multipart
create_multipart_ok u bucket key dir now db fresh = rw (fresh, Multipart.create_multipart) refl

module _ {S : Type 0} (x : External S) where
  pub cipher_for-db : (bucket : Str) (w : World S) → (cipher_for x bucket w).1.db ≡ w.db
  unfolding cipher_for
  cipher_for-db bucket w = elim (Option-cases (find str_key cipher_name bucket w.ciphers)) [
    | inr (r, e) ↦ rw (e, cipher_for) refl
    | inl e ↦
        rw (e, cipher_for)
          (elim (Result-cases (get_key bucket w.keys)) [
            | inr (d, k) ↦ rw k refl
            | inl (key, k) ↦
                rw k (elim (Result-cases (new_cipher x.gcm key (cipher_frame_size x))) [
                  | inr (d, n) ↦ rw n refl
                  | inl (c, n) ↦ rw n refl
                ])
          ])
  ]

  -- PutObject and CompleteMultipart leave the tables of the uploads alone.
  abbrev pub SameUploads : World S → World S → Type 0
  SameUploads w w' = (w'.db.uploads ≡ w.db.uploads) × (w'.db.parts ≡ w.db.parts)

  record_object-SameUploads :
      (i : PutInput) (o : Object) (r : PutResult) (w : World S)
      → SameUploads w (record_object x i o r w).1
  unfolding record_object Store.put_object
  record_object-SameUploads i o r w = elim (Bool-cases i.index_fails) [
    | inl e ↦ rw (e, record_object) (refl, refl)
    | inr e ↦ rw (e, record_object) (refl, refl)
  ]

  pub upload-SameUploads :
      (i : PutInput) (bucket key ct : Str) (size : ℕ) (etag src : Str) (c : Cipher) (w : World S)
      → SameUploads w (upload x i bucket key ct size etag src c w).1
  unfolding upload
  upload-SameUploads i bucket key ct size etag src c w =
      elim (Bool-cases (ltb x.max_object_size (ciphertext_size c.frame_size size))) [
        | inl large ↦ rw (large, upload) (refl, refl)
        | inr fits ↦
            rw (fits, upload)
              (elim (Result-cases
                (x.put_blob key (ciphertext_size c.frame_size size)
                  (encrypt_all c src size i.base).0 (encrypt_all c src size i.base).1 w.ext).0) [
                    | inr (e, f) ↦ rw f (refl, refl)
                    | inl (r, f) ↦ rw f (record_object-SameUploads i _ r _)
                  ])
      ]
