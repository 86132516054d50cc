-- ===== src/Multipart/Staged.antt =====
-- internal/s3api/multipart.go: what the rows of the parts say of the files on disk.
use telang.Common.{
  ℕ, ◌+◌, ◌≡◌, refl, sym, ap, ◌∙◌, Bool, true, none, some, ◌⊎◌, List, [], ◌∷◌, ◌++◌, Str, ℤ, pos,
  negsuc, length, str_eq, str_eq_refl, length-append, ok, arith, inl, inr, Option-cases,
  Result-cases, Bool-cases,
}
use telang.Metadata.Order.{Key, str_key, num_key, pair_key}
use telang.Metadata.Table.{find}
use telang.Metadata.Store.{
  Db, MultipartUpload, MultipartPart, upload_key, part_order, part_key, select,
}
use telang.Metadata.Multipart.{get_multipart, list_parts}
use telang.Service.World.{External}
use telang.Multipart.Staging.{
  PartFile, file_key, Staging, RequestPart, Collected, part_of, trim_quotes, collect, add_part,
}

abbrev pub file_order : Key (Str × ℕ)
file_order = pair_key str_key num_key

-- The part `n` of the upload `m` has the file that its row describes.
pub record IsBacked {S : Type 0} (x : External S) (g : Staging S) (m : MultipartUpload) (n : ℕ)
    (p : MultipartPart) : Type 0 where
  pub file : PartFile
  pub found : find file_order file_key (m.staging_dir, n) g.files ≡ some file
  pub is_size : p.size ≡ length file.bytes
  pub is_etag : p.etag ≡ x.md5_hex file.bytes

-- A part whose file is gone, as behind a `DeleteMultipart` that failed.
abbrev pub IsGone : {S : Type 0} → Staging S → MultipartUpload → ℕ → Type 0
IsGone g m n = find file_order file_key (m.staging_dir, n) g.files ≡ none

-- A file that stands for the row of a part is the one that the row describes, and each upload has
-- its own directory.
pub record IsStaged {S : Type 0} (x : External S) (stage : Str → Str) (g : Staging S) : Type 0 where
  pub backed :
      (u : Str) (n : ℕ) (m : MultipartUpload) (p : MultipartPart)
      → find str_key upload_key u g.world.db.uploads ≡ some m
      → find part_order part_key (u, n) g.world.db.parts ≡ some p
      → IsBacked x g m n p ⊎ IsGone g m n
  pub owned :
      (u : Str) (n : ℕ) (p : MultipartPart)
      → find part_order part_key (u, n) g.world.db.parts ≡ some p
      → (m : MultipartUpload) × (find str_key upload_key u g.world.db.uploads ≡ some m)
  pub placed :
      (u : Str) (m : MultipartUpload)
      → find str_key upload_key u g.world.db.uploads ≡ some m
      → m.staging_dir ≡ stage u

-- The bytes of files, one behind the other.
abbrev pub content_of : List PartFile → Str
content_of [] = []
content_of (f ∷ fs) = f.bytes ++ content_of fs

-- `fs` are the files of the parts that a request names, each with the tag that it gives.
abbrev pub AreParts :
    {S : Type 0}
    → External S
    → (Str → Str → Bool)
    → Str
    → List PartFile
    → List RequestPart
    → List PartFile
    → Type 0
AreParts x equal_fold dir files [] [] = Unit
AreParts x equal_fold dir files (rp ∷ parts) (f ∷ fs) =
    ((n : ℕ) × (rp.part_number ≡ pos n) × (find file_order file_key (dir, n) files ≡ some f))
    × (equal_fold (trim_quotes rp.etag) (x.md5_hex f.bytes) ≡ true)
    × AreParts x equal_fold dir files parts fs
AreParts x equal_fold dir files _ _ = ⊥

find-key :
    {K R : Type 0} (k : Key K) (key : R → K) (j : K) (t : List R) (r : R)
    → find k key j t ≡ some r
    → key r ≡ j
unfolding find
find-key k key j [] r h = absurd (ground arith)
find-key k key j (x ∷ t) r h = ground (arith, k.eq_of_cmp j (key x), find-key k key j t r)

pub get_multipart-find :
    (u : Str) (m : MultipartUpload) (db : Db)
    → get_multipart u db ≡ ok m
    → find str_key upload_key u db.uploads ≡ some m
unfolding get_multipart
get_multipart-find u m db h = ground (arith, Option-cases (find str_key upload_key u db.uploads))

find-list_parts :
    (u : Str) (n : ℕ) (t : List MultipartPart)
    → find part_order part_key (u, n) (select (λ (p : MultipartPart). str_eq p.upload_id u) t)
      ≡ find part_order part_key (u, n) t
unfolding find select
find-list_parts u n [] = refl
find-list_parts u n (p ∷ t) =
    ground (arith, find-list_parts u n t, part_order.eq_of_cmp (u, n) (part_key p), str_eq_refl u)

part_of-inv :
    (z : ℤ) (u : Str) (rows : List MultipartPart) (got : MultipartPart)
    → part_of z u rows ≡ some got
    → (n : ℕ) × (z ≡ pos n) × (find part_order part_key (u, n) rows ≡ some got)
unfolding part_of
part_of-inv (pos n) u rows got h = (n, refl, h)
part_of-inv (negsuc n) u rows got h = absurd (ground arith)

module _ {S : Type 0} (x : External S) (equal_fold : Str → Str → Bool) (stage : Str → Str) where
  -- One round of the loop that goes on.
  collect-inv :
      (u dir : Str) (rows : List MultipartPart) (files : List PartFile) (rp : RequestPart)
      (parts : List RequestPart) (c : Collected)
      → collect equal_fold u dir rows files (rp ∷ parts) ≡ ok c
      → (got : MultipartPart) × (file : PartFile) × (rest : Collected) × (part_of rp.part_number u
            rows
          ≡ some got)
        × (equal_fold (trim_quotes rp.etag) got.etag ≡ true)
        × (find file_order file_key (dir, got.part_number) files ≡ some file)
        × (collect equal_fold u dir rows files parts ≡ ok rest)
        × (c.content ≡ file.bytes ++ rest.content)
        × (c.total_size ≡ got.size + rest.total_size)
  unfolding collect add_part
  collect-inv u dir rows files rp parts c h = elim (Option-cases (part_of rp.part_number u rows)) [
    | inl e ↦ absurd (ground arith)
    | inr (got, e) ↦ elim (Bool-cases (equal_fold (trim_quotes rp.etag) got.etag)) [
      | inr b ↦ absurd (ground arith)
      | inl b ↦ elim (Option-cases (find file_order file_key (dir, got.part_number) files)) [
        | inl f ↦ absurd (ground arith)
        | inr (file, f) ↦ elim (Result-cases (collect equal_fold u dir rows files parts)) [
          | inr (d, r) ↦ absurd (ground arith)
          | inl (rest, r) ↦ (got, file, rest, e, b, f, r, ground arith, ground arith)
        ]
      ]
    ]
  ]

  -- A part whose file is there has the file that its row describes.
  still-IsBacked :
      (g : Staging S) (m : MultipartUpload) (n : ℕ) (p : MultipartPart) (file : PartFile)
      → IsBacked x g m n p ⊎ IsGone g m n
      → find file_order file_key (m.staging_dir, n) g.files ≡ some file
      → IsBacked x g m n p
  still-IsBacked g m n p file (inl b) h = b
  still-IsBacked g m n p file (inr e) h = absurd (ground (arith, e, h))

  pub collect-AreParts :
      (g : Staging S) (u : Str) (m : MultipartUpload) (parts : List RequestPart) (c : Collected)
      → IsStaged x stage g
      → get_multipart u g.world.db ≡ ok m
      → collect equal_fold u m.staging_dir (list_parts u g.world.db) g.files parts ≡ ok c
      → (fs : List PartFile) × AreParts x equal_fold m.staging_dir g.files parts fs
        × (c.content ≡ content_of fs)
        × (c.total_size ≡ length c.content)
  unfolding collect list_parts
  collect-AreParts g u m [] c s e h = ([], tt, ground arith, ground arith)
  collect-AreParts g u m (rp ∷ parts) c s e h =
      let (got, file, rest, is_got, is_tag, is_file, more, is_content, is_total) =
        collect-inv u m.staging_dir (list_parts u g.world.db) g.files rp parts c h in
      let (fs, are, same, total) = collect-AreParts g u m parts rest s e more in
      let (n, is_number, is_row) =
        part_of-inv rp.part_number u (list_parts u g.world.db) got is_got in
      let row = sym (find-list_parts u n g.world.db.parts) ∙ is_row in
      let k : got.part_number ≡ n =
        ap (λ (t : Str × ℕ). t.1) (find-key part_order part_key (u, n) _ got row) in
      let found : find file_order file_key (m.staging_dir, n) g.files ≡ some file =
        rw (← k) is_file in
      let b =
        still-IsBacked g m n got file (s.backed u n m got (get_multipart-find u m _ e) row) found in
      let is : b.file ≡ file = ground (arith, b.found, found) in
      (
        file ∷ fs,
        ((n, is_number, found), rw (← is, ← b.is_etag) is_tag, are),
        rw (is_content, same) refl,
        ground (arith, length-append file.bytes rest.content, b.is_size, ap PartFile.bytes is),
      )
