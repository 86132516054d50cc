-- ===== src/Service/Ciphers.antt =====
-- internal/s3api/service.go: the frame sizes in `cipherCache` across the operations.
use telang.Common.{
  ℕ, ◌≡◌, refl, List, [], ◌∷◌, Str, take, ltb, arith, inl, inr, Option-cases, Result-cases,
  Bool-cases,
}
use telang.Crypto.Layout.{Cipher, new_cipher, ciphertext_size}
use telang.Crypto.Blob.{encrypt_all}
use telang.Keys.{get_key}
use telang.Metadata.Order.{str_key}
use telang.Metadata.Store
use telang.Metadata.Store.{Object}
use telang.Storage.Interface.{PutResult}
use telang.Metadata.Table.{find, put}
use telang.Service.World.{External, World, BucketCipher, cipher_name, cipher_for, cipher_frame_size}
use telang.Service.Objects.{PutInput, put_object, upload, record_object}
use telang.Service.Uploads.{IsSound, AllSound, new_cipher-IsSound}

put-AllSound :
    (r : BucketCipher) (t : List BucketCipher)
    → IsSound r.cipher
    → AllSound t
    → AllSound (put str_key cipher_name r t)
unfolding put
put-AllSound r [] s a = (s, tt)
put-AllSound r (y ∷ t) s (b, a) = ground (arith, put-AllSound r t s a)

module _ {S : Type 0} (x : External S) where
  cipher_for-AllSound :
      (bucket : Str) (w : World S) → AllSound w.ciphers → AllSound (cipher_for x bucket w).1.ciphers
  unfolding cipher_for
  cipher_for-AllSound bucket w a = elim (Option-cases (find str_key cipher_name bucket w.ciphers)) [
    | inr (r, e) ↦ rw (e, cipher_for) a
    | inl e ↦
        rw (e, cipher_for)
          (elim (Result-cases (get_key bucket w.keys)) [
            | inr (d, k) ↦ rw k a
            | inl (key, k) ↦
                rw k (elim (Result-cases (new_cipher x.gcm key (cipher_frame_size x))) [
                  | inr (d, n) ↦ rw n a
                  | inl (c, n) ↦ rw n (
                      put-AllSound (record { bucket = bucket; cipher = c }) w.ciphers
                        (new_cipher-IsSound x key c n) a)
                ])
          ])
  ]

  record_object-ciphers :
      (i : PutInput) (o : Object) (r : PutResult) (w : World S)
      → (record_object x i o r w).1.ciphers ≡ w.ciphers
  unfolding record_object
  record_object-ciphers i o r w = ground (arith, Bool-cases i.index_fails)

  upload-ciphers :
      (i : PutInput) (bucket key ct : Str) (size : ℕ) (etag src : Str) (c : Cipher) (w : World S)
      → (upload x i bucket key ct size etag src c w).1.ciphers ≡ w.ciphers
  unfolding upload
  upload-ciphers i bucket key ct size etag src c w =
      elim (Bool-cases (ltb x.max_object_size (ciphertext_size c.frame_size size))) [
        | inl large ↦ rw (large, upload) refl
        | inr fits ↦
            rw (fits, upload)
              (elim (Result-cases
                (x.put_blob key (ciphertext_size c.frame_size size)
                  (encrypt_all c src size i.base).0 (encrypt_all c src size i.base).1 w.ext).0) [
                    | inr (e, f) ↦ rw f refl
                    | inl (r, f) ↦ rw f (record_object-ciphers i _ r _)
                  ])
      ]

  -- When every cipher in the cache of ciphers has a frame size from 1 to 2 ^ 30, PutObject,
  -- whether it succeeds or fails, leaves a cache in which every cipher has one.
  pub put_object-AllSound :
      (i : PutInput) (bucket key ct : Str) (size : ℕ) (src : Str) (w : World S)
      → AllSound w.ciphers
      → AllSound (put_object x i bucket key ct size src w).1.ciphers
  unfolding put_object
  put_object-AllSound i bucket key ct size src w a =
      elim (Result-cases (Store.get_bucket bucket w.db)) [
        | inr (d, e) ↦ rw (e, put_object) a
        | inl (b, e) ↦
            rw (e, put_object)
              (elim (Result-cases (cipher_for x bucket w).0) [
                | inr (d, f) ↦ rw f (cipher_for-AllSound bucket w a)
                | inl (c, f) ↦ rw f (
                    rw
                      (upload-ciphers i bucket key ct size (x.md5_hex (take size src)) src c
                        (cipher_for x bucket w).1)
                      (cipher_for-AllSound bucket w a))
              ])
      ]
