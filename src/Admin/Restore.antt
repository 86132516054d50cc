-- ===== src/Admin/Restore.antt =====
-- cmd/telang/metadata_io.go: what an import restores of an export.
use telang.Common.{
  ℕ, ◌+◌, ◌≡◌, refl, ap, ◌∙◌, true, false, none, some, Option, List, [], ◌∷◌, ◌++◌, Str, map,
  length, arith,
}
use telang.Metadata.Order.{str_key}
use telang.Metadata.Table.{Above, IsSorted}
use telang.Metadata.Store.{Db, Bucket, MultipartUpload, bucket_key, list_buckets}
use telang.Metadata.Multipart.{for_each_multipart, list_parts}
use telang.Metadata.Laws.{IsValid}
use telang.Metadata.Reachable.{empty_db}
use telang.Admin.Records.{Formats, bucket_entry, object_entry, multipart_row, entries, run_export}
use telang.Admin.Import.{ImportError, Progress, run_import, import_lines}
use telang.Admin.Lines.{apply_all, import_lines_header}
use telang.Admin.Grouping.{AreOwned, grouped-sorted}
use telang.Admin.RoundTrip.{stamp, at, with_parts, apply_buckets, apply_objects, apply_multiparts}

module _ (now : ℕ) where
  Above-stamp :
      (k : Str) (bs : List Bucket)
      → Above str_key bucket_key k bs
      → Above str_key bucket_key k (map (stamp now) bs)
  Above-stamp k [] h = tt
  Above-stamp k (b ∷ bs) (a, h) = (a, Above-stamp k bs h)

  IsSorted-stamp :
      (bs : List Bucket)
      → IsSorted str_key bucket_key bs
      → IsSorted str_key bucket_key (map (stamp now) bs)
  IsSorted-stamp [] h = tt
  IsSorted-stamp (b ∷ bs) (a, h) = (Above-stamp b.name bs a, IsSorted-stamp bs h)

zero_add : (n : ℕ) → 0 + n ≡ n
zero_add n = omega arith

rows_with_parts :
    (f : Formats) (db : Db) (ms : List MultipartUpload)
    → map (multipart_row f) (map (λ (m : MultipartUpload). (m, list_parts m.upload_id db)) ms)
      ≡ map (with_parts db.parts) ms
unfolding list_parts
rows_with_parts f db [] = refl
rows_with_parts f db (m ∷ ms) = ap (λ t. with_parts db.parts m ∷ t) (rows_with_parts f db ms)

-- The tables that an import at the time `now` makes of an export.
abbrev pub restored : ℕ → Db → Progress
restored now db =
    at (length db.buckets) (length db.objects) (length db.uploads) (map (stamp now) db.buckets)
      db.objects db.uploads db.parts

module _ (f : Formats) (now : ℕ) where
  apply_entries :
      (db : Db)
      → IsValid db
      → AreOwned db.uploads db.parts
      → apply_all f now
          (map bucket_entry db.buckets
            ++ (map object_entry db.objects ++ map (with_parts db.parts) db.uploads))
          (at 0 0 0 [] [] [] [])
        ≡ (none, restored now db)
  apply_entries db v o =
      let parts = grouped-sorted db.uploads db.parts v.uploads_sorted v.parts_sorted o in
      apply_buckets f now db.buckets []
        (map object_entry db.objects ++ map (with_parts db.parts) db.uploads) 0 0 0 [] [] []
        (IsSorted-stamp now db.buckets v.buckets_sorted)
      ∙ (apply_objects f now db.objects [] (map (with_parts db.parts) db.uploads)
            (0 + length db.buckets) 0 0 (map (stamp now) db.buckets) [] [] v.objects_sorted
          ∙ (apply_multiparts f now db.uploads db.parts [] [] (0 + length db.buckets)
                (0 + length db.objects) 0 (map (stamp now) db.buckets) db.objects v.uploads_sorted
                (rw (parts) v.parts_sorted)
              ∙ rw
                  (
                    parts,
                    zero_add (length db.buckets),
                    zero_add (length db.objects),
                    zero_add (length db.uploads),
                  )
                  refl))

  -- When the rows of each table stand in the strict order of its key, each part belongs to an
  -- upload, and the export of the tables prints every line, with uploads visited in the order of
  -- their ids, then an import of these lines into empty tables ends without an error, with the
  -- counts of the three tables, and with the same tables, except that each bucket was created at
  -- the time of the import.
  pub run_import-run_export :
      (at_export : ℕ) (db : Db) (ls : List Str)
      → IsValid db
      → AreOwned db.uploads db.parts
      → run_export f at_export db ≡ (ls, true)
      → run_import f now ls false empty_db ≡ (none, restored now db)
  unfolding run_import run_export entries list_buckets for_each_multipart
  run_import-run_export at_export db ls v o e =
      let start : Progress = record {
        header = false;
        buckets = 0;
        objects = 0;
        uploads = 0;
        db = empty_db;
      } in
      let imported : import_lines f now ls start ≡ (none, restored now db) =
        import_lines_header f now at_export _ ls start e
        ∙ (rw (rows_with_parts f db db.uploads) (apply_entries db v o)) in
      ap
        (λ (u : Option ImportError × Progress). elim u.0 [
          | some y ↦ (some y, u.1)
          | none ↦ (none, u.1)
        ])
        imported
