-- ===== src/Service/RoundTrip.antt =====
-- internal/s3api/service.go: GetObject and GetObjectRange behind PutObject.
use telang.Common.{
  ℕ, ◌+◌, ◌-◌, ◌^◌, ◌≤◌, ◌<◌, ◌≡◌, refl, ap, ◌∙◌, false, ◌||◌, ◌++◌, Str, length, take, drop, ltb,
  leb, Result, ok, err, arith, Bool-cases,
}
use telang.Crypto.Layout.{Cipher, CryptoError, nonce_len}
use telang.Crypto.Stream.{ReadError, eof}
use telang.Crypto.Blob.{decrypt_all, blob, encrypt_all-blob, decrypt_all-encrypt_all}
use telang.Crypto.Range.{decrypt_range}
use telang.Crypto.Ranged.{decrypt_range-blob}
use telang.Metadata.Order.{str_key}
use telang.Metadata.Store
use telang.Metadata.Store.{Object}
use telang.Storage.Interface.{PutResult, StorageError}
use telang.Service.World.{External, World, cipher_for, open_ciphertext, open_ciphertext_at}
use telang.Service.Objects.{
  PutInput, ref_of, put_object, head_object, get_object, get_object_range, decrypt_body,
  decrypt_part,
}
use telang.Service.Uploads.{AllSound, put_object-Stored}

module _ {S : Type 0} (x : External S) where
  -- The contract of `Backend.Put` and `Get`, and of the cache between: what was put is got back.
  pub record KeepsBlobs : Type 0 where
    pub reads :
        (name body : Str) (s s' : S) (put : PutResult)
        → x.put_blob name (length body) body eof s ≡ (ok put, s')
        → (open_ciphertext x put.ref s').0 ≡ ok body
    pub reads_at :
        (name body : Str) (s s' : S) (put : PutResult)
        → x.put_blob name (length body) body eof s ≡ (ok put, s')
        → (open_ciphertext_at x put.ref s').0 ≡ ok body

  decrypt_body_ok :
      (o : Object) (c : Cipher) (body : Str) (q : Str × ReadError) (r : Result StorageError Str × S)
      (w : World S)
      → r.0 ≡ ok body
      → decrypt_all c body ≡ ok q
      → (decrypt_body x o c r w).0 ≡ ok (o, q)
  unfolding decrypt_body
  decrypt_body_ok o c body q (ok b, s) w h d = ground arith
  decrypt_body_ok o c body q (err e, s) w h d = absurd (ground arith)

  decrypt_part_ok :
      (o : Object) (c : Cipher) (start end_ : ℕ) (body : Str) (r : Result StorageError Str × S)
      (w : World S)
      → r.0 ≡ ok body
      → (decrypt_part x o c start end_ r w).0
        ≡ ok (o, decrypt_range c body o.ciphertext_size start end_)
  unfolding decrypt_part
  decrypt_part_ok o c start end_ body (ok b, s) w h = ground arith
  decrypt_part_ok o c start end_ body (err e, s) w h = absurd (ground arith)

  pub get_object_ok :
      (bucket key : Str) (w : World S) (o : Object) (c : Cipher) (body : Str) (q : Str × ReadError)
      → Store.get_object bucket key w.db ≡ ok o
      → cipher_for x bucket w ≡ (ok c, w)
      → (open_ciphertext x (ref_of o) w.ext).0 ≡ ok body
      → decrypt_all c body ≡ ok q
      → (get_object x bucket key w).0 ≡ ok (o, q)
  unfolding get_object head_object
  get_object_ok bucket key w o c body q h e b d =
      rw
        (
          h,
          e,
          e,
          decrypt_body_ok o c body q (open_ciphertext x (ref_of o) w.ext) w b d,
          get_object,
          head_object,
        )
        refl

  pub get_object_range_ok :
      (bucket key : Str) (start end_ : ℕ) (w : World S) (o : Object) (c : Cipher) (body : Str)
      → Store.get_object bucket key w.db ≡ ok o
      → cipher_for x bucket w ≡ (ok c, w)
      → (open_ciphertext_at x (ref_of o) w.ext).0 ≡ ok body
      → start ≤ end_
      → end_ < o.size
      → (get_object_range x bucket key start end_ w).0
        ≡ ok (o, decrypt_range c body o.ciphertext_size start end_)
  unfolding get_object_range head_object
  get_object_range_ok bucket key start end_ w o c body h e b le lt =
      let inside : (leb o.size end_ || ltb end_ start) ≡ false =
        ground (arith, Bool-cases (leb o.size end_)) in
      rw
        (
          h,
          inside,
          e,
          e,
          decrypt_part_ok o c start end_ body (open_ciphertext_at x (ref_of o) w.ext) w b,
          get_object_range,
          head_object,
        )
        refl

  -- Over a backend and cache that give back each blob that was put, with ciphers of legal frame
  -- sizes in the cache of ciphers and a base nonce of 12 bytes, when PutObject stored the first
  -- `length p` bytes of its reader under a bucket and key, for p shorter than 2 ^ 63 bytes,
  -- GetObject of them returns the row that PutObject returned and a stream that delivers p and
  -- then io.EOF.
  pub get_object-put_object :
      (k : KeepsBlobs) (i : PutInput) (bucket key ct p extra : Str) (w w' : World S) (o : Object)
      → AllSound w.ciphers
      → length i.base ≡ nonce_len
      → length p < 2 ^ 63
      → put_object x i bucket key ct (length p) (p ++ extra) w ≡ (ok o, w')
      → (get_object x bucket key w').0 ≡ ok (o, (p, eof))
  get_object-put_object k i bucket key ct p extra w w' o a n short h =
      let d = put_object-Stored x i bucket key ct p extra w w' o a n short h in
      let same = encrypt_all-blob d.cipher i.base p extra d.usable short in
      get_object_ok bucket key w' o d.cipher (blob d.cipher i.base p) (p, eof) d.row d.found
        (rw d.is_ref (k.reads key (blob d.cipher i.base p) d.before w'.ext d.put d.sent))
        (rw (← ap (λ (t : Str × ReadError). t.0) same)
          (decrypt_all-encrypt_all d.cipher i.base p extra d.usable short))

  -- Over a backend and cache that give back each blob that was put, with ciphers of legal frame
  -- sizes in the cache of ciphers and a base nonce of 12 bytes, when PutObject stored the first
  -- `length p` bytes of its reader under a bucket and key, for p shorter than 2 ^ 63 bytes,
  -- GetObjectRange of them at start <= end < length p returns the row that PutObject returned and
  -- the bytes of p from start to end inclusive, with no error.
  pub get_object_range-put_object :
      (k : KeepsBlobs) (i : PutInput) (bucket key ct p extra : Str) (start end_ : ℕ)
      (w w' : World S) (o : Object)
      → AllSound w.ciphers
      → length i.base ≡ nonce_len
      → length p < 2 ^ 63
      → put_object x i bucket key ct (length p) (p ++ extra) w ≡ (ok o, w')
      → start ≤ end_
      → end_ < length p
      → (get_object_range x bucket key start end_ w').0
        ≡ ok (o, ok (take (end_ + 1 - start) (drop start p)))
  get_object_range-put_object k i bucket key ct p extra start end_ w w' o a n short h le lt =
      let d = put_object-Stored x i bucket key ct p extra w w' o a n short h in
      get_object_range_ok bucket key start end_ w' o d.cipher (blob d.cipher i.base p) d.row d.found
        (rw d.is_ref (k.reads_at key (blob d.cipher i.base p) d.before w'.ext d.put d.sent)) le
        (rw d.is_size lt)
      ∙ ap (λ (r : Result CryptoError Str). ok (o, r))
          (rw d.is_ciphertext_size (decrypt_range-blob d.cipher i.base p start end_ d.usable le lt))
