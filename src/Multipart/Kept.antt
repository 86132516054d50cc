-- ===== src/Multipart/Kept.antt =====
-- internal/s3api/multipart.go: the rows of the parts and the files on disk across the operations.
use mathlib.Core.Path.{ap₂}
use telang.Common.{ℕ, ◌≡◌, ◌≢◌, sym, ap, ◌∙◌, none, some, Str, length, ok, arith, ◌⊎◌, inl, inr}
use telang.Metadata.Order.{str_key}
use telang.Metadata.Table.{
  find, put, remove, find-put_self, find-put_ne, find-remove_self, find-remove_ne,
}
use telang.Metadata.Store.{MultipartUpload, MultipartPart, upload_key, part_order, part_key}
use telang.Metadata.Multipart.{get_multipart, remove_parts}
use telang.Service.World.{External}
use telang.Multipart.Staging.{PartFile, file_key, Staging, remove_all}
use telang.Multipart.Staged.{IsStaged, IsBacked, IsGone, file_order, get_multipart-find}
use telang.Multipart.Lookups.{
  find-remove_parts_self, find-remove_parts_ne, find-remove_all, find-remove_all_self, key-cases,
}

-- A row keeps its file, or stays without one, where the file of its name is what it was.
moved :
    {S : Type 0} (x : External S) (g g' : Staging S) (m : MultipartUpload) (n : ℕ)
    (p : MultipartPart)
    → find file_order file_key (m.staging_dir, n) g'.files
      ≡ find file_order file_key (m.staging_dir, n) g.files
    → IsBacked x g m n p ⊎ IsGone g m n
    → IsBacked x g' m n p ⊎ IsGone g' m n
moved x g g' m n p same (inl k) =
    inl (record { file = k.file; found = same ∙ k.found; is_size = k.is_size; is_etag = k.is_etag })
moved x g g' m n p same (inr e) = inr (same ∙ e)

module _ {S : Type 0} (x : External S) (stage : Str → Str) where
  -- Only the tables of the uploads and the files matter.
  pub IsStaged-same :
      (g g' : Staging S)
      → IsStaged x stage g
      → g'.files ≡ g.files
      → g'.world.db.uploads ≡ g.world.db.uploads
      → g'.world.db.parts ≡ g.world.db.parts
      → IsStaged x stage g'
  IsStaged-same g g' s f u p = record {
    backed = λ v n m q a b.
        moved x g g' m n q (ap (find file_order file_key (m.staging_dir, n)) f)
          (s.backed v n m q (rw (← u) a) (rw (← p) b));
    owned = λ v n q b. rw u (s.owned v n q (rw (← p) b));
    placed = λ v m a. s.placed v m (rw (← u) a);
  }

  -- The end of an upload takes its rows and its files, and leaves the others their own.
  pub removed-IsStaged :
      (apart : (a b : Str) → stage a ≡ stage b → a ≡ b) (g g' : Staging S) (u : Str)
      (m : MultipartUpload)
      → IsStaged x stage g
      → get_multipart u g.world.db ≡ ok m
      → g'.files ≡ remove_all m.staging_dir g.files
      → g'.world.db.uploads ≡ remove str_key upload_key u g.world.db.uploads
      → g'.world.db.parts ≡ remove_parts u g.world.db.parts
      → IsStaged x stage g'
  removed-IsStaged apart g g' u m s e f up pa = record {
    backed = λ v n m' q a b.
        (let other = is_other v m' a in
          let a' = old v m' a in
          let k = s.backed v n m' q a' (sym (find-remove_parts_ne u v n _ other) ∙ rw (← pa) b) in
          let far : m'.staging_dir ≢ m.staging_dir = λ d.
            other (
              apart v u (sym (s.placed v m' a') ∙ d ∙ s.placed u m (get_multipart-find u m _ e))) in
          moved x g g' m' n q (rw f (find-remove_all m.staging_dir m'.staging_dir n g.files far))
            k);
    owned = λ v n q b.
        (let other : v ≢ u = λ d.
            (let none_left : find part_order part_key (u, n) (remove_parts u g.world.db.parts)
                  ≡ some q =
                rw (← pa, ← d) b in
              ground (arith, find-remove_parts_self u n g.world.db.parts)) in
          let (m', a) = s.owned v n q (sym (find-remove_parts_ne u v n _ other) ∙ rw (← pa) b) in
          (m', rw up (find-remove_ne str_key upload_key v u g.world.db.uploads other ∙ a)));
    placed = λ v m' a. s.placed v m' (old v m' a);
  }
    where
      is_other :
          (v : Str) (m' : MultipartUpload)
          → find str_key upload_key v g'.world.db.uploads ≡ some m'
          → v ≢ u
      is_other v m' a d =
          let left : find str_key upload_key u (remove str_key upload_key u g.world.db.uploads)
              ≡ some m' =
            rw (← up, ← d) a in
          ground (arith, find-remove_self str_key upload_key u g.world.db.uploads)

      old :
          (v : Str) (m' : MultipartUpload)
          → find str_key upload_key v g'.world.db.uploads ≡ some m'
          → find str_key upload_key v g.world.db.uploads ≡ some m'
      old v m' a =
          sym (find-remove_ne str_key upload_key v u g.world.db.uploads (is_other v m' a))
          ∙ rw (← up) a

  -- A directory that goes leaves its rows without files, and the others their own.
  pub emptied-IsStaged :
      (g g' : Staging S) (dir : Str)
      → IsStaged x stage g
      → g'.files ≡ remove_all dir g.files
      → g'.world.db.uploads ≡ g.world.db.uploads
      → g'.world.db.parts ≡ g.world.db.parts
      → IsStaged x stage g'
  emptied-IsStaged g g' dir s f up pa = record {
    backed = λ v n m q a b. elim (key-cases str_key m.staging_dir dir) [
      | inl same ↦ inr (rw (f, same) (find-remove_all_self dir n g.files))
      | inr far ↦
          moved x g g' m n q (rw f (find-remove_all dir m.staging_dir n g.files far))
            (s.backed v n m q (rw (← up) a) (rw (← pa) b))
    ];
    owned = λ v n q b. rw up (s.owned v n q (rw (← pa) b));
    placed = λ v m a. s.placed v m (rw (← up) a);
  }

  -- A new upload has no part yet.
  pub added-IsStaged :
      (g g' : Staging S) (m : MultipartUpload)
      → IsStaged x stage g
      → find str_key upload_key m.upload_id g.world.db.uploads ≡ none
      → m.staging_dir ≡ stage m.upload_id
      → g'.files ≡ g.files
      → g'.world.db.uploads ≡ put str_key upload_key m g.world.db.uploads
      → g'.world.db.parts ≡ g.world.db.parts
      → IsStaged x stage g'
  added-IsStaged g g' m s fresh dir f up pa = record {
    backed = λ v n m' q a b.
        (let (m0, a0, ne) = is_old v n q (rw (← pa) b) in
          let a' = sym (find-put_ne str_key upload_key v m g.world.db.uploads ne) ∙ (rw (← up) a) in
          moved x g g' m' n q (ap (find file_order file_key (m'.staging_dir, n)) f)
            (s.backed v n m' q a' (rw (← pa) b)));
    owned = λ v n q b.
        (let (m0, a0, ne) = is_old v n q (rw (← pa) b) in
          (m0, rw up (find-put_ne str_key upload_key v m g.world.db.uploads ne ∙ a0)));
    placed = λ v m' a. elim (key-cases str_key v m.upload_id) [
      | inl e ↦
          (let again : find str_key upload_key m.upload_id
                  (put str_key upload_key m g.world.db.uploads)
                ≡ some m' =
              rw (← up, ← e) a in
            let same : m ≡ m' =
              ground (arith, find-put_self str_key upload_key m g.world.db.uploads) in
            rw (← same, e) dir)
      | inr ne ↦
          s.placed v m'
            (sym (find-put_ne str_key upload_key v m g.world.db.uploads ne) ∙ (rw (← up) a))
    ];
  }
    where
      is_old :
          (v : Str) (n : ℕ) (q : MultipartPart)
          → find part_order part_key (v, n) g.world.db.parts ≡ some q
          → (m0 : MultipartUpload) × (find str_key upload_key v g.world.db.uploads ≡ some m0)
            × (v ≢ m.upload_id)
      is_old v n q b =
          let (m0, a0) = s.owned v n q b in
          (
            m0,
            a0,
            λ e.
                (let r : find str_key upload_key m.upload_id g.world.db.uploads ≡ some m0 =
                    rw (← e) a0 in
                  ground (arith, fresh)),
          )

  -- A part that was written and recorded.
  pub part-IsStaged :
      (apart : (a b : Str) → stage a ≡ stage b → a ≡ b) (g g' : Staging S) (m : MultipartUpload)
      (p : MultipartPart) (file : PartFile)
      → IsStaged x stage g
      → find str_key upload_key p.upload_id g.world.db.uploads ≡ some m
      → file.dir ≡ m.staging_dir
      → file.part_number ≡ p.part_number
      → p.size ≡ length file.bytes
      → p.etag ≡ x.md5_hex file.bytes
      → g'.files ≡ put file_order file_key file g.files
      → g'.world.db.uploads ≡ g.world.db.uploads
      → g'.world.db.parts ≡ put part_order part_key p g.world.db.parts
      → IsStaged x stage g'
  part-IsStaged apart g g' m p file s e dir num size etag f up pa = record {
    backed = λ v n m' q a b. elim (key-cases part_order (v, n) (part_key p)) [
      | inl same ↦
          (let again : find part_order part_key (part_key p)
                  (put part_order part_key p g.world.db.parts)
                ≡ some q =
              rw (← pa, ← same) b in
            let is_p : p ≡ q =
              ground (arith, find-put_self part_order part_key p g.world.db.parts) in
            let here : find str_key upload_key p.upload_id g.world.db.uploads ≡ some m' =
              rw (← up, ← ap (λ (z : Str × ℕ). z.0) same) a in
            let is_m : m ≡ m' = ground (arith, e) in
            let path : ◌≡◌ {A = Str × ℕ} (m'.staging_dir, n) (file_key file) =
              ap₂ (λ y z. (y, z)) (sym (ap MultipartUpload.staging_dir is_m) ∙ sym dir)
                (ap (λ (z : Str × ℕ). z.1) same ∙ sym num) in
            inl (record {
              file = file;
              found = rw (f, path) (find-put_self file_order file_key file g.files);
              is_size = rw (← is_p) size;
              is_etag = rw (← is_p) etag;
            }))
      | inr ne ↦
          (let a' : find str_key upload_key v g.world.db.uploads ≡ some m' = rw (← up) a in
            let k = s.backed v n m' q a' (old_row v n q ne b) in
            let far : ◌≢◌ {A = Str × ℕ} (m'.staging_dir, n) (file_key file) = λ d. ne (
              ap₂ (λ y z. (y, z))
                (apart v p.upload_id (
                  sym (s.placed v m' a')
                  ∙ ap (λ (z : Str × ℕ). z.0) d
                  ∙ dir
                  ∙ s.placed p.upload_id m e))
                (ap (λ (z : Str × ℕ). z.1) d ∙ num)) in
            moved x g g' m' n q
              (rw f (find-put_ne file_order file_key (m'.staging_dir, n) file g.files far)) k)
    ];
    owned = λ v n q b. elim (key-cases part_order (v, n) (part_key p)) [
      | inl same ↦ (m, rw (up, ap (λ (z : Str × ℕ). z.0) same) e)
      | inr ne ↦ rw up (s.owned v n q (old_row v n q ne b))
    ];
    placed = λ v m' a. s.placed v m' (rw (← up) a);
  }
    where
      old_row :
          (v : Str) (n : ℕ) (q : MultipartPart)
          → ◌≢◌ {A = Str × ℕ} (v, n) (part_key p)
          → find part_order part_key (v, n) g'.world.db.parts ≡ some q
          → find part_order part_key (v, n) g.world.db.parts ≡ some q
      old_row v n q ne b =
          sym (find-put_ne part_order part_key (v, n) p g.world.db.parts ne) ∙ rw (← pa) b
