-- ===== src/Multipart/Steps.antt =====
-- internal/s3api/multipart.go: the states behind sequences of operations on multipart uploads.
use telang.Common.{
  ℕ, suc, ◌≡◌, refl, ap, ◌∙◌, Bool, true, false, not, ◌&&◌, none, List, Str, str_eq, length, take,
  length-take, ltb, leb, ◌==◌, Result, ok, err, arith, inl, inr, Result-cases, Bool-cases,
}
use telang.Metadata.Order.{str_key}
use telang.Metadata.Table.{find}
use telang.Metadata.Store
use telang.Metadata.Store.{
  Db, Object, MultipartUpload, MultipartPart, upload_key, part_order, part_key, select,
  upload_not_found,
}
use telang.Metadata.Multipart
use telang.Metadata.Multipart.{get_multipart, list_parts, remove_parts}
use telang.S3.Errors.{ServiceError}
use telang.Service.World.{External, World, cipher_for}
use telang.Service.Objects.{PutInput, upload}
use telang.Multipart.Staging.{Staging, RequestPart, collect}
use telang.Multipart.Operations.{
  CreateInput, PartInput, create_multipart, upload_part, record_part, complete_multipart, assemble,
  finish, deleted_world, combined_etag, abort_multipart,
}
use telang.Multipart.Kept.{
  IsStaged-same, emptied-IsStaged, removed-IsStaged, added-IsStaged, part-IsStaged,
}
use telang.Multipart.Staged.{IsStaged, get_multipart-find}
use telang.Multipart.Lookups.{delete_multipart_ok}
use telang.Multipart.Tables.{create_multipart_ok, cipher_for-db, SameUploads, upload-SameUploads}

module _ {S : Type 0} (x : External S) (stage : Str → Str) where
  create_multipart-IsStaged :
      (i : CreateInput) (bucket key : Str) (g : Staging S)
      → IsStaged x stage g
      → find str_key upload_key i.id g.world.db.uploads ≡ none
      → IsStaged x stage (create_multipart x stage i bucket key g).1
  unfolding create_multipart Multipart.create_multipart
  create_multipart-IsStaged i bucket key g s fresh =
      elim (Result-cases (Store.get_bucket bucket g.world.db)) [
        | inr (d, e) ↦ rw (e, create_multipart) s
        | inl (b, e) ↦ elim (Bool-cases i.mkdir_fails) [
          | inl f ↦ rw (e, f, create_multipart) s
          | inr f ↦
              rw
                (
                  e,
                  f,
                  create_multipart_ok i.id bucket key (stage i.id) i.now g.world.db fresh,
                  create_multipart_ok i.id bucket key (stage i.id) i.now g.world.db fresh,
                  create_multipart,
                )
                (added-IsStaged x stage g _ _ s fresh refl refl refl refl)
        ]
      ]

  upload_part-IsStaged :
      (apart : (a b : Str) → stage a ≡ stage b → a ≡ b) (i : PartInput) (u : Str) (n size : ℕ)
      (g : Staging S)
      → IsStaged x stage g
      → i.index_fails ≡ false
      → IsStaged x stage (upload_part x i u n size g).1
  unfolding upload_part record_part Multipart.upsert_part
  upload_part-IsStaged apart i u n size g s w = elim (Result-cases (get_multipart u g.world.db)) [
    | inr (d, e) ↦ rw (e, upload_part) s
    | inl (m, e) ↦ elim (Bool-cases (ltb x.max_object_size size)) [
      | inl large ↦ rw (e, large, upload_part) s
      | inr fits ↦ elim (Bool-cases (i.read_fails && leb (length i.src) size)) [
        | inl bad ↦ rw (e, fits, bad, upload_part) s
        | inr whole ↦ elim (Bool-cases (not (length (take (suc size) i.src) == size))) [
          | inl off ↦ rw (e, fits, whole, off, upload_part) s
          | inr exact ↦ elim (Bool-cases i.write_fails) [
            | inl f ↦ rw (e, fits, whole, exact, f, upload_part) s
            | inr f ↦
                rw (e, fits, whole, exact, f, w, upload_part)
                  (part-IsStaged x stage apart g _ m
                    (record { upload_id = u; part_number = n; size = size; etag = x.md5_hex i.src })
                    (record { dir = m.staging_dir; part_number = n; bytes = i.src }) s
                    (get_multipart-find u m _ e) refl refl
                    (ground (arith, length-take (suc size) i.src)) refl refl refl refl)
          ]
        ]
      ]
    ]
  ]

  abort_multipart-IsStaged :
      (apart : (a b : Str) → stage a ≡ stage b → a ≡ b) (f : Bool) (u : Str) (g : Staging S)
      → IsStaged x stage g
      → IsStaged x stage (abort_multipart x f u g).1
  unfolding abort_multipart
  abort_multipart-IsStaged apart f u g s = elim (Result-cases (get_multipart u g.world.db)) [
    | inr (d, e) ↦ rw (e, abort_multipart) s
    | inl (m, e) ↦
        rw (e, abort_multipart)
          (elim (Bool-cases f) [
            | inl y ↦ rw y (emptied-IsStaged x stage g _ m.staging_dir s refl refl refl)
            | inr y ↦
                rw (y, delete_multipart_ok u m g.world.db e, delete_multipart_ok u m g.world.db e)
                  (removed-IsStaged x stage apart g _ u m s e refl refl refl)
          ])
  ]

  finish-IsStaged :
      (apart : (a b : Str) → stage a ≡ stage b → a ≡ b) (f : Bool) (u : Str) (m : MultipartUpload)
      (r : Result ServiceError Object × World S) (g : Staging S)
      → IsStaged x stage g
      → get_multipart u g.world.db ≡ ok m
      → SameUploads x g.world r.1
      → IsStaged x stage (finish x f u m.staging_dir r g).1
  unfolding finish deleted_world get_multipart
  finish-IsStaged apart f u m (err d, w) g s e (up, pa) = IsStaged-same x stage g _ s refl up pa
  finish-IsStaged apart true u m (ok o, w) g s e (up, pa) =
      emptied-IsStaged x stage g _ m.staging_dir s refl up pa
  finish-IsStaged apart false u m (ok o, w) g s e (up, pa) =
      let e' : get_multipart u w.db ≡ ok m = ground (arith, e, up) in
      rw (delete_multipart_ok u m w.db e')
        (removed-IsStaged x stage apart g _ u m s e refl (rw up refl) (rw pa refl))

  complete_multipart-IsStaged :
      (apart : (a b : Str) → stage a ≡ stage b → a ≡ b) (equal_fold : Str → Str → Bool) (y : Bool)
      (i : PutInput) (bucket key u : Str) (parts : List RequestPart) (ct : Str) (g : Staging S)
      → IsStaged x stage g
      → IsStaged x stage (complete_multipart x equal_fold y i bucket key u parts ct g).1
  unfolding complete_multipart assemble
  complete_multipart-IsStaged apart equal_fold y i bucket key u parts ct g s =
      elim (Result-cases (get_multipart u g.world.db)) [
        | inr (d, e) ↦ rw (e, complete_multipart) s
        | inl (m, e) ↦ elim (Bool-cases (str_eq m.bucket bucket && str_eq m.key key)) [
          | inr b ↦ rw (e, b, complete_multipart) s
          | inl b ↦
              elim (Result-cases
                (collect equal_fold u m.staging_dir (list_parts u g.world.db) g.files parts)) [
                  | inr (d, k) ↦ rw (e, b, k, complete_multipart) s
                  | inl (c, k) ↦
                      rw (e, b, k, complete_multipart)
                        (elim (Result-cases (cipher_for x bucket g.world).0) [
                          | inr (d, f) ↦
                              rw (f, assemble)
                                (IsStaged-same x stage g _ s refl
                                  (ap Db.uploads (cipher_for-db x bucket g.world))
                                  (ap Db.parts (cipher_for-db x bucket g.world)))
                          | inl (cipher, f) ↦
                              rw (f, assemble)
                                (finish-IsStaged apart y u m
                                  (upload x i bucket key ct c.total_size (combined_etag x c parts)
                                    c.content cipher (cipher_for x bucket g.world).1)
                                  g s e
                                  (let (up, pa) =
                                      upload-SameUploads x i bucket key ct c.total_size
                                        (combined_etag x c parts) c.content cipher
                                        (cipher_for x bucket g.world).1 in
                                    (
                                      up ∙ ap Db.uploads (cipher_for-db x bucket g.world),
                                      pa ∙ ap Db.parts (cipher_for-db x bucket g.world),
                                    )))
                        ])
                ]
        ]
      ]

  -- One call of a multipart operation, failed or not: the id of a new upload is one that no upload
  -- has, and the row of a part is written when its file is.
  pub data Step (equal_fold : Str → Str → Bool) (g : Staging S) : Staging S → Type 0 where
    create_step :
        (i : CreateInput) (bucket key : Str)
        → find str_key upload_key i.id g.world.db.uploads ≡ none
        → Step equal_fold g (create_multipart x stage i bucket key g).1
    upload_part_step :
        (i : PartInput) (u : Str) (n size : ℕ)
        → i.index_fails ≡ false
        → Step equal_fold g (upload_part x i u n size g).1
    complete_step :
        (delete_fails : Bool) (i : PutInput) (bucket key u : Str) (parts : List RequestPart)
        (ct : Str)
        → Step equal_fold g
            (complete_multipart x equal_fold delete_fails i bucket key u parts ct g).1
    abort_step :
        (delete_fails : Bool) (u : Str) → Step equal_fold g (abort_multipart x delete_fails u g).1

  pub data Reaches (equal_fold : Str → Str → Bool) (g : Staging S) : Staging S → Type 0 where
    start : Reaches equal_fold g g
    then_step :
        (h h' : Staging S) → Reaches equal_fold g h → Step equal_fold h h' → Reaches equal_fold g h'

  Step-IsStaged :
      (apart : (a b : Str) → stage a ≡ stage b → a ≡ b) (equal_fold : Str → Str → Bool)
      (g g' : Staging S)
      → IsStaged x stage g
      → Step equal_fold g g'
      → IsStaged x stage g'
  Step-IsStaged apart equal_fold g _ s (create_step i bucket key fresh) =
      create_multipart-IsStaged i bucket key g s fresh
  Step-IsStaged apart equal_fold g _ s (upload_part_step i u n size w) =
      upload_part-IsStaged apart i u n size g s w
  Step-IsStaged apart equal_fold g _ s (complete_step y i bucket key u parts ct) =
      complete_multipart-IsStaged apart equal_fold y i bucket key u parts ct g s
  Step-IsStaged apart equal_fold g _ s (abort_step y u) = abort_multipart-IsStaged apart y u g s

  -- When different upload ids have different staging directories, then from a state in which each
  -- row of a part has the size and the MD5 of its file, or its file is gone, each row belongs to
  -- an upload, and each upload has the directory of its id, every sequence of CreateMultipart,
  -- UploadPart, CompleteMultipart and AbortMultipart calls, failed or not, with DeleteMultipart
  -- failing behind the removal of the files or not, leads to such a state, provided that the id
  -- of a new upload is one that no upload has and that the row of a part can be written when its
  -- file was.
  pub Reaches-IsStaged :
      (apart : (a b : Str) → stage a ≡ stage b → a ≡ b) (equal_fold : Str → Str → Bool)
      (g g' : Staging S)
      → IsStaged x stage g
      → Reaches equal_fold g g'
      → IsStaged x stage g'
  Reaches-IsStaged apart equal_fold g _ s start = s
  Reaches-IsStaged apart equal_fold g _ s (then_step h h' r t) =
      Step-IsStaged apart equal_fold h h' (Reaches-IsStaged apart equal_fold g h s r) t
