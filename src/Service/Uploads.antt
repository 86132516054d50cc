-- ===== src/Service/Uploads.antt =====
-- internal/s3api/service.go: the cipher that cipherFor finds, and what PutObject leaves behind.
use telang.Common.{
  ℕ, ◌^◌, ◌≤◌, ◌<◌, ◌≡◌, refl, sym, ap, ◌∙◌, none, some, List, [], ◌∷◌, ◌++◌, Str, length, take,
  Result, ok, arith, inl, inr, Option-cases, Result-cases,
}
use telang.Crypto.Layout.{Cipher, ciphertext_size, new_cipher, nonce_len, max_frame_size}
use telang.Crypto.Stream.{ReadError, eof}
use telang.Crypto.Blob.{encrypt_all, IsUsable, blob, encrypt_all-blob, length-blob}
use telang.Keys.{get_key}
use telang.Metadata.Order.{str_key}
use telang.Metadata.Store
use telang.Metadata.Store.{Object}
use telang.Metadata.Laws.{get-put_object_self}
use telang.Metadata.Table.{find, find-put_self}
use telang.Storage.Interface.{PutResult}
use telang.S3.Errors.{ServiceError}
use telang.Service.World.{External, World, BucketCipher, cipher_name, cipher_for, cipher_frame_size}
use telang.Service.Objects.{PutInput, new_object, ref_of, put_object, upload, record_object}

-- The frame sizes that `NewCipher` lets through.
pub record IsSound (c : Cipher) : Type 0 where
  pub frame_pos : 0 < c.frame_size
  pub frame_fits : c.frame_size ≤ max_frame_size

abbrev pub AllSound : List BucketCipher → Type 0
AllSound [] = Unit
AllSound (r ∷ t) = IsSound r.cipher × AllSound t

module _ {S : Type 0} (x : External S) where
  pub new_cipher-IsSound :
      (key : Str) (c : Cipher) → new_cipher x.gcm key (cipher_frame_size x) ≡ ok c → IsSound c
  unfolding new_cipher
  new_cipher-IsSound key c h = record { frame_pos = ground arith; frame_fits = ground arith }

  find-IsSound :
      (bucket : Str) (t : List BucketCipher) (r : BucketCipher)
      → AllSound t
      → find str_key cipher_name bucket t ≡ some r
      → IsSound r.cipher
  unfolding find
  find-IsSound bucket [] r a h = absurd (ground arith)
  find-IsSound bucket (y ∷ t) r (a, b) h = ground (arith, find-IsSound bucket t r b)

  pub cipher_for-IsSound :
      (bucket : Str) (w w' : World S) (c : Cipher)
      → AllSound w.ciphers
      → cipher_for x bucket w ≡ (ok c, w')
      → IsSound c
  unfolding cipher_for
  cipher_for-IsSound bucket w w' c a h =
      elim (Option-cases (find str_key cipher_name bucket w.ciphers)) [
        | inl e ↦ elim (Result-cases (get_key bucket w.keys)) [
          | inl (key, k) ↦ elim (Result-cases (new_cipher x.gcm key (cipher_frame_size x))) [
            | inl (d, n) ↦ ground (arith, new_cipher-IsSound key d n)
            | inr (d, n) ↦ ground arith
          ]
          | inr (d, k) ↦ ground arith
        ]
        | inr (r, e) ↦ ground (arith, find-IsSound bucket w.ciphers r a e)
      ]

  -- A cipher that was found once is found again.
  pub cipher_for-again :
      (bucket : Str) (w w' v : World S) (c : Cipher)
      → cipher_for x bucket w ≡ (ok c, w')
      → v.ciphers ≡ w'.ciphers
      → cipher_for x bucket v ≡ (ok c, v)
  unfolding cipher_for
  cipher_for-again bucket w w' v c h e =
      elim (Option-cases (find str_key cipher_name bucket w.ciphers)) [
        | inl f ↦ ground (
          arith,
          find-put_self str_key cipher_name (record { bucket = bucket; cipher = c }) w.ciphers,
        )
        | inr (r, f) ↦ ground arith
      ]

  pub put_object-inv :
      (i : PutInput) (bucket key ct : Str) (size : ℕ) (src : Str) (w w' : World S) (o : Object)
      → put_object x i bucket key ct size src w ≡ (ok o, w')
      → (c : Cipher) × (v : World S) × (cipher_for x bucket w ≡ (ok c, v))
        × (upload x i bucket key ct size (x.md5_hex (take size src)) src c v ≡ (ok o, w'))
  unfolding put_object
  put_object-inv i bucket key ct size src w w' o h =
      elim (Result-cases (Store.get_bucket bucket w.db)) [
        | inl (b, e) ↦ elim (Result-cases (cipher_for x bucket w).0) [
          | inl (c, f) ↦ (
            c,
            (cipher_for x bucket w).1,
            ap (λ (z : Result ServiceError Cipher). (z, (cipher_for x bucket w).1)) f,
            ground arith,
          )
          | inr (d, f) ↦ ground arith
        ]
        | inr (d, e) ↦ ground arith
      ]

  pub upload-inv :
      (i : PutInput) (bucket key ct : Str) (size : ℕ) (etag src : Str) (c : Cipher) (w w' : World S)
      (o : Object)
      → upload x i bucket key ct size etag src c w ≡ (ok o, w')
      → (put : PutResult) × (s' : S) × (x.put_blob key
            (ciphertext_size c.frame_size size)
            (encrypt_all c src size i.base).0
            (encrypt_all c src size i.base).1
            w.ext
          ≡ (ok put, s'))
        × (o
            ≡ record (new_object bucket key ct size
                (ciphertext_size c.frame_size size)
                etag
                i.base
                put) { created_at = i.now })
        × (w' ≡ record w {
          ext = s';
          db =
              Store.put_object i.now none
                (new_object bucket key ct size (ciphertext_size c.frame_size size) etag i.base put)
                w.db;
        })
  unfolding upload record_object
  upload-inv i bucket key ct size etag src c w w' o h =
      elim (Result-cases
        (x.put_blob key (ciphertext_size c.frame_size size) (encrypt_all c src size i.base).0
          (encrypt_all c src size i.base).1 w.ext).0) [
            | inl (put, e) ↦ (
              put,
              (x.put_blob key (ciphertext_size c.frame_size size) (encrypt_all c src size i.base).0
                  (encrypt_all c src size i.base).1 w.ext).1,
              ground arith,
              ground arith,
              ground arith,
            )
            | inr (d, e) ↦ ground arith
          ]

  -- What a PUT that succeeded leaves behind.
  pub record Stored (i : PutInput) (bucket key p : Str) (w' : World S) (o : Object) : Type 0 where
    pub cipher : Cipher
    pub put : PutResult
    pub before : S
    pub usable : IsUsable cipher i.base
    pub found : cipher_for x bucket w' ≡ (ok cipher, w')
    pub sent :
        x.put_blob key (length (blob cipher i.base p)) (blob cipher i.base p) eof before
        ≡ (ok put, w'.ext)
    pub row : Store.get_object bucket key w'.db ≡ ok o
    pub is_ref : ref_of o ≡ put.ref
    pub is_size : o.size ≡ length p
    pub is_ciphertext_size : o.ciphertext_size ≡ length (blob cipher i.base p)

  pub upload-Stored :
      (i : PutInput) (bucket key ct etag p extra : Str) (c : Cipher) (w v w' : World S)
      (put : PutResult) (s' : S) (o : Object)
      → IsUsable c i.base
      → length p < 2 ^ 63
      → cipher_for x bucket w ≡ (ok c, v)
      → x.put_blob key
          (ciphertext_size c.frame_size (length p))
          (encrypt_all c (p ++ extra) (length p) i.base).0
          (encrypt_all c (p ++ extra) (length p) i.base).1
          v.ext
        ≡ (ok put, s')
      → o
        ≡ record (new_object bucket key ct
            (length p)
            (ciphertext_size c.frame_size (length p))
            etag
            i.base
            put) { created_at = i.now }
      → w' ≡ record v {
        ext = s';
        db =
            Store.put_object i.now none
              (new_object bucket key ct
                (length p)
                (ciphertext_size c.frame_size (length p))
                etag
                i.base
                put)
              v.db;
      }
      → Stored i bucket key p w' o
  unfolding new_object
  upload-Stored i bucket key ct etag p extra c w v w' put s' o u short f sent is_o is_w =
      let long = length-blob c i.base p extra u short in
      let same : encrypt_all c (p ++ extra) (length p) i.base ≡ (blob c i.base p, eof) =
        encrypt_all-blob c i.base p extra u short in
      let sent' : x.put_blob key (length (blob c i.base p)) (blob c i.base p) eof v.ext
          ≡ (ok put, s') =
        sym (
          ap (λ (t : Str × ReadError). x.put_blob key (length (blob c i.base p)) t.0 t.1 v.ext)
            same)
        ∙ (ap
              (λ (n : ℕ).
                x.put_blob key n (encrypt_all c (p ++ extra) (length p) i.base).0
                  (encrypt_all c (p ++ extra) (length p) i.base).1 v.ext)
              long
            ∙ sent) in
      rw (is_o, is_w)
        (record {
          cipher = c;
          put = put;
          before = v.ext;
          usable = u;
          found = cipher_for-again bucket w v _ c f refl;
          sent = sent';
          row = get-put_object_self i.now none _ v.db;
          is_ref = refl;
          is_size = refl;
          is_ciphertext_size = sym long;
        })

  pub put_object-Stored :
      (i : PutInput) (bucket key ct p extra : Str) (w w' : World S) (o : Object)
      → AllSound w.ciphers
      → length i.base ≡ nonce_len
      → length p < 2 ^ 63
      → put_object x i bucket key ct (length p) (p ++ extra) w ≡ (ok o, w')
      → Stored i bucket key p w' o
  put_object-Stored i bucket key ct p extra w w' o a n short h =
      let (c, v, f, up) = put_object-inv i bucket key ct (length p) (p ++ extra) w w' o h in
      let (put, s', sent, is_o, is_w) =
        upload-inv i bucket key ct (length p) (x.md5_hex (take (length p) (p ++ extra)))
          (p ++ extra) c v w' o up in
      let s = cipher_for-IsSound bucket w v c a f in
      let u : IsUsable c i.base = record {
        frame_pos = s.frame_pos;
        frame_fits = s.frame_fits;
        twelve = n;
      } in
      upload-Stored i bucket key ct (x.md5_hex (take (length p) (p ++ extra))) p extra c w v w' put
        s' o u short f sent is_o is_w
