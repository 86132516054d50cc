-- ===== src/Multipart/ReadBack.antt =====
-- internal/s3api/multipart.go: GetObject behind CompleteMultipart.
use telang.Common.{
  ℕ, ◌/◌, ◌^◌, ◌≤◌, ◌<◌, ◌≡◌, refl, ap, ◌∙◌, Bool, ◌&&◌, List, [], ◌++◌, Str, str_eq, length, ltb,
  append-nil, Result, ok, err, arith, inl, inr, Option-cases, Result-cases, Bool-cases,
}
use native.Mathlib.Nat.{div-add-mod', mul-add}
use telang.Crypto.Layout.{Cipher, ciphertext_size, nonce_len}
use telang.Crypto.Stream.{ReadError, eof}
use telang.Crypto.Blob.{IsUsable, blob, encrypt_all-blob, decrypt_all-encrypt_all}
use telang.Metadata.Order.{str_key}
use telang.Metadata.Table.{find}
use telang.Metadata.Store
use telang.Metadata.Store.{Db, Object, MultipartUpload, upload_key}
use telang.Metadata.Multipart
use telang.Metadata.Multipart.{get_multipart, list_parts}
use telang.S3.Errors.{ServiceError}
use telang.Service.World.{External, World, cipher_for}
use telang.Service.Objects.{PutInput, get_object, upload}
use telang.Service.Uploads.{
  AllSound, Stored, cipher_for-IsSound, cipher_for-again, upload-inv, upload-Stored,
}
use telang.Service.RoundTrip.{KeepsBlobs, get_object_ok}
use telang.Multipart.Staging.{PartFile, Staging, RequestPart, Collected, collect, remove_all}
use telang.Multipart.Operations.{combined_etag, deleted_world, finish, assemble, complete_multipart}
use telang.Multipart.Staged.{IsStaged, AreParts, content_of, collect-AreParts}

size_le_ciphertext : (fs n : ℕ) → 0 < fs → n ≤ ciphertext_size fs n
unfolding ciphertext_size
size_le_ciphertext fs n h = ground (arith, div-add-mod' n fs, mul-add (n / fs) fs 16)

get_object-delete_multipart :
    (bucket key u : Str) (db : Db)
    → Store.get_object bucket key (Multipart.delete_multipart u db).1
      ≡ Store.get_object bucket key db
unfolding Multipart.delete_multipart Store.get_object
get_object-delete_multipart bucket key u db =
    elim (Option-cases (find str_key upload_key u db.uploads)) [
      | inl e ↦ rw (e, Multipart.delete_multipart) refl
      | inr (m, e) ↦ rw (e, Multipart.delete_multipart) refl
    ]

module _ {S : Type 0} (x : External S) where
  upload-fits :
      (i : PutInput) (bucket key ct : Str) (size : ℕ) (etag src : Str) (c : Cipher) (w w' : World S)
      (o : Object)
      → upload x i bucket key ct size etag src c w ≡ (ok o, w')
      → ciphertext_size c.frame_size size ≤ x.max_object_size
  unfolding upload
  upload-fits i bucket key ct size etag src c w w' o h =
      ground (arith, Bool-cases (ltb x.max_object_size (ciphertext_size c.frame_size size)))

  -- What an upload that was completed went through.
  record Completed (equal_fold : Str → Str → Bool) (y : Bool) (i : PutInput) (bucket key u : Str)
      (parts : List RequestPart) (ct : Str) (g g' : Staging S) (o : Object) : Type 0 where
    m : MultipartUpload
    c : Collected
    cipher : Cipher
    before : World S
    after : World S
    is_upload : get_multipart u g.world.db ≡ ok m
    is_collected : collect equal_fold u m.staging_dir (list_parts u g.world.db) g.files parts ≡ ok c
    is_cipher : cipher_for x bucket g.world ≡ (ok cipher, before)
    is_stored :
        upload x i bucket key ct c.total_size (combined_etag x c parts) c.content cipher before
        ≡ (ok o, after)
    is_world : g'.world ≡ deleted_world x y u after
    is_files : g'.files ≡ remove_all m.staging_dir g.files

  finish-inv :
      (y : Bool) (u dir : Str) (r : Result ServiceError Object × World S) (g g' : Staging S)
      (o : Object)
      → finish x y u dir r g ≡ (ok o, g')
      → (w : World S) × (r ≡ (ok o, w))
        × (g'.world ≡ deleted_world x y u w)
        × (g'.files ≡ remove_all dir g.files)
  unfolding finish
  finish-inv y u dir (err e, w) g g' o h = absurd (ground arith)
  finish-inv y u dir (ok p, w) g g' o h = (w, ground arith, ground arith, ground arith)

  complete_multipart-inv :
      (equal_fold : Str → Str → Bool) (y : Bool) (i : PutInput) (bucket key u : Str)
      (parts : List RequestPart) (ct : Str) (g g' : Staging S) (o : Object)
      → complete_multipart x equal_fold y i bucket key u parts ct g ≡ (ok o, g')
      → Completed equal_fold y i bucket key u parts ct g g' o
  unfolding complete_multipart assemble
  complete_multipart-inv equal_fold y i bucket key u parts ct g g' o h =
      elim (Result-cases (get_multipart u g.world.db)) [
        | inr (d, e) ↦ absurd (ground arith)
        | inl (m, e) ↦ elim (Bool-cases (str_eq m.bucket bucket && str_eq m.key key)) [
          | inr b ↦ absurd (ground arith)
          | inl b ↦
              elim (Result-cases
                (collect equal_fold u m.staging_dir (list_parts u g.world.db) g.files parts)) [
                  | inr (d, k) ↦ absurd (ground arith)
                  | inl (c, k) ↦ elim (Result-cases (cipher_for x bucket g.world).0) [
                    | inr (d, f) ↦ absurd (ground arith)
                    | inl (cipher, f) ↦
                        (let (after, s, is_w, is_f) =
                            finish-inv y u m.staging_dir
                              (upload x i bucket key ct c.total_size (combined_etag x c parts)
                                c.content cipher (cipher_for x bucket g.world).1)
                              g g' o (ground arith) in
                          record {
                            m = m;
                            c = c;
                            cipher = cipher;
                            before = (cipher_for x bucket g.world).1;
                            after = after;
                            is_upload = e;
                            is_collected = k;
                            is_cipher =
                                ap
                                  (λ (z : Result ServiceError Cipher).
                                    (z, (cipher_for x bucket g.world).1))
                                  f;
                            is_stored = s;
                            is_world = is_w;
                            is_files = is_f;
                          })
                  ]
                ]
        ]
      ]

  -- What a stored object is read back as from tables that have its row.
  left_object :
      (k : KeepsBlobs x) (i : PutInput) (bucket key p : Str) (w : World S) (db : Db) (o : Object)
      → length p < 2 ^ 63
      → Stored x i bucket key p w o
      → Store.get_object bucket key db ≡ ok o
      → (get_object x bucket key (record w { db = db })).0 ≡ ok (o, (p, eof))
  left_object k i bucket key p w db o short d row =
      let same = encrypt_all-blob d.cipher i.base p [] d.usable short in
      get_object_ok x bucket key _ o d.cipher (blob d.cipher i.base p) (p, eof) row
        (cipher_for-again x bucket w w _ d.cipher d.found refl)
        (rw d.is_ref (k.reads key (blob d.cipher i.base p) d.before w.ext d.put d.sent))
        (rw (← ap (λ (t : Str × ReadError). t.0) same)
          (decrypt_all-encrypt_all d.cipher i.base p [] d.usable short))

  -- What a stored object is read back as, when an upload was deleted behind it.
  get_object-Stored :
      (k : KeepsBlobs x) (y : Bool) (i : PutInput) (bucket key p u : Str) (w : World S) (o : Object)
      → length p < 2 ^ 63
      → Stored x i bucket key p w o
      → (get_object x bucket key (deleted_world x y u w)).0 ≡ ok (o, (p, eof))
  unfolding deleted_world
  get_object-Stored k y i bucket key p u w o short d = elim (Bool-cases y) [
    | inl f ↦ rw f (left_object k i bucket key p w w.db o short d d.row)
    | inr f ↦ rw f (
        left_object k i bucket key p w (Multipart.delete_multipart u w.db).1 o short d
          (get_object-delete_multipart bucket key u w.db ∙ d.row))
  ]

  -- Over a backend and cache that give back each blob that was put, with a backend limit below 2
  -- ^ 63 bytes, ciphers of legal frame sizes in the cache of ciphers, a base nonce of 12 bytes,
  -- and each row of a part whose file is there describing it, when CompleteMultipart of an upload
  -- succeeds, whether or not its DeleteMultipart fails, there is for each part of the request, in
  -- order, a file of the staging directory with its number and with an MD5 that the tag of the
  -- request matches, and GetObject returns the row that CompleteMultipart returned and a stream
  -- that delivers the bytes of these files one behind the other and then io.EOF.
  pub get_object-complete_multipart :
      (k : KeepsBlobs x) (equal_fold : Str → Str → Bool) (stage : Str → Str) (y : Bool)
      (i : PutInput) (bucket key u : Str) (parts : List RequestPart) (ct : Str) (g g' : Staging S)
      (m : MultipartUpload) (o : Object)
      → IsStaged x stage g
      → AllSound g.world.ciphers
      → length i.base ≡ nonce_len
      → x.max_object_size < 2 ^ 63
      → get_multipart u g.world.db ≡ ok m
      → complete_multipart x equal_fold y i bucket key u parts ct g ≡ (ok o, g')
      → (fs : List PartFile) × AreParts x equal_fold m.staging_dir g.files parts fs
        × ((get_object x bucket key g'.world).0 ≡ ok (o, (content_of fs, eof)))
  get_object-complete_multipart k equal_fold stage y i bucket key u parts ct g g' m o s a n top is_m
        h =
      let d = complete_multipart-inv equal_fold y i bucket key u parts ct g g' o h in
      let (fs, are, same, total) =
        collect-AreParts x equal_fold stage g u d.m parts d.c s d.is_upload d.is_collected in
      let sound = cipher_for-IsSound x bucket g.world d.before d.cipher a d.is_cipher in
      let usable : IsUsable d.cipher i.base = record {
        frame_pos = sound.frame_pos;
        frame_fits = sound.frame_fits;
        twelve = n;
      } in
      let fits =
        upload-fits i bucket key ct d.c.total_size _ d.c.content d.cipher d.before d.after o
          d.is_stored in
      let short : length d.c.content < 2 ^ 63 = omega (
        arith,
        fits,
        total,
        top,
        size_le_ciphertext d.cipher.frame_size d.c.total_size sound.frame_pos,
      ) in
      let up : upload x i bucket key ct (length d.c.content) (combined_etag x d.c parts)
            (d.c.content ++ []) d.cipher d.before
          ≡ (ok o, d.after) =
        rw (append-nil d.c.content, ← total) d.is_stored in
      let (put, s', sent, is_o, is_w) =
        upload-inv x i bucket key ct (length d.c.content) (combined_etag x d.c parts)
          (d.c.content ++ []) d.cipher d.before d.after o up in
      let st =
        upload-Stored x i bucket key ct (combined_etag x d.c parts) d.c.content [] d.cipher g.world
          d.before d.after put s' o usable short d.is_cipher sent is_o is_w in
      let is_dir : d.m.staging_dir ≡ m.staging_dir = ground (arith, d.is_upload, is_m) in
      (
        fs,
        rw (← is_dir) are,
        rw (← same, d.is_world)
            (get_object-Stored k y i bucket key d.c.content u d.after o short st),
      )
