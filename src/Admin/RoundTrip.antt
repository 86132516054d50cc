-- ===== src/Admin/RoundTrip.antt =====
-- cmd/telang/metadata_io.go: an import of an export.
use telang.Common.{
  ℕ, suc, ◌+◌, ◌≡◌, refl, ap, sym, ◌∙◌, true, Option, none, some, List, [], ◌∷◌, ◌++◌, Str,
  str_eq_iff, map, length, append_assoc, append-nil, arith, Result, ok, err,
}
use telang.Metadata.Order.{str_key}
use telang.Metadata.Table.{IsSorted}
use telang.Metadata.Appends.{put_end, find_end}
use telang.Metadata.Store.{
  Db, MetaError, Bucket, Object, MultipartUpload, MultipartPart, bucket_key, object_key, upload_key,
  part_key, object_order, part_order, select, create_bucket, put_object,
}
use telang.Metadata.Multipart.{create_multipart, upsert_part}
use telang.Admin.Records.{Formats, Entry, bucket_entry, object_entry, multipart_entry, part_data}
use telang.Admin.Import.{
  ImportError, store_error, Progress, import_bucket, import_object, import_multipart, upsert_parts,
}
use telang.Admin.Lines.{apply_entry, apply_all}
use telang.Admin.Grouping.{grouped, parts_of}

-- A bucket as the import creates it.
abbrev pub stamp : ℕ → Bucket → Bucket
stamp now b = record b { created_at = now }

-- The state with these counts and tables.
abbrev pub at :
    ℕ → ℕ → ℕ → List Bucket → List Object → List MultipartUpload → List MultipartPart → Progress
at n m u bs os us ps = record {
  header = true;
  buckets = n;
  objects = m;
  uploads = u;
  db = record { buckets = bs; objects = os; uploads = us; parts = ps };
}

-- A row that stands behind the others is created at the end.
create_bucket_end :
    (now : ℕ) (b : Bucket) (rest : List Bucket) (db : Db)
    → IsSorted str_key bucket_key (db.buckets ++ stamp now b ∷ rest)
    → create_bucket now b.name b.enc_key_id db
      ≡ (ok tt, record db { buckets = db.buckets ++ stamp now b ∷ [] })
unfolding create_bucket
create_bucket_end now b rest db h =
    rw
      (
        find_end str_key bucket_key db.buckets (stamp now b) rest h,
        create_bucket,
        put_end str_key bucket_key db.buckets (stamp now b) rest h,
      )
      refl

create_multipart_end :
    (m : MultipartUpload) (rest : List MultipartUpload) (db : Db)
    → IsSorted str_key upload_key (db.uploads ++ m ∷ rest)
    → create_multipart m db ≡ (ok tt, record db { uploads = db.uploads ++ m ∷ [] })
unfolding create_multipart
create_multipart_end m rest db h =
    rw
      (
        find_end str_key upload_key db.uploads m rest h,
        create_multipart,
        put_end str_key upload_key db.uploads m rest h,
      )
      refl

-- All parts have this id.
abbrev pub BelongTo : Str → List MultipartPart → Type 0
BelongTo id [] = Unit
BelongTo id (p ∷ ps) = (p.upload_id ≡ id) × BelongTo id ps

parts_of-BelongTo : (id : Str) (ps : List MultipartPart) → BelongTo id (parts_of id ps)
unfolding select
parts_of-BelongTo id [] = tt
parts_of-BelongTo id (p ∷ ps) = ground (arith, parts_of-BelongTo id ps, str_eq_iff p.upload_id id)

-- The entry of an upload with its parts in a table.
abbrev pub with_parts : List MultipartPart → MultipartUpload → Entry
with_parts parts m = multipart_entry m (parts_of m.upload_id parts)

upsert_parts_end :
    (id : Str) (qs rest : List MultipartPart) (db : Db)
    → BelongTo id qs
    → IsSorted part_order part_key (db.parts ++ (qs ++ rest))
    → upsert_parts id (map part_data qs) db ≡ record db { parts = db.parts ++ qs }
unfolding upsert_parts upsert_part
upsert_parts_end id [] rest db o h = simp (append-nil)
upsert_parts_end id (q ∷ qs) rest db (e, o) h =
    let assoc = append_assoc db.parts (q ∷ []) qs in
    let assoc' = append_assoc db.parts (q ∷ []) (qs ++ rest) in
    let db' : Db = record db { parts = db.parts ++ q ∷ [] } in
    let put_q : upsert_part (record q { upload_id = id }) db ≡ db' =
      ap (λ i. upsert_part (record q { upload_id = i }) db) (sym e)
      ∙ ap (λ t. record db { parts = t }) (put_end part_order part_key db.parts q (qs ++ rest) h) in
    ap (upsert_parts id (map part_data qs)) put_q
    ∙ (upsert_parts_end id qs rest db' o (rw (assoc') h) ∙ ap (λ t. record db { parts = t }) assoc)

module _ (f : Formats) (now : ℕ) where
  apply_bucket :
      (b : Bucket) (rest : List Bucket) (p : Progress)
      → IsSorted str_key bucket_key (p.db.buckets ++ stamp now b ∷ rest)
      → apply_entry f now (bucket_entry b) p ≡ (
        none,
        record p {
          buckets = suc p.buckets;
          db = record p.db { buckets = p.db.buckets ++ stamp now b ∷ [] };
        },
      )
  unfolding apply_entry import_bucket
  apply_bucket b rest p h =
      ap
        (λ (v : Result MetaError (Unit {0}) × Db). elim v.0 [
          | err e ↦ (some (store_error e), record p { db = v.1 })
          | ok x ↦ (none, record p { buckets = suc p.buckets; db = v.1 })
        ])
        (create_bucket_end now b rest p.db h)

  -- An entry that succeeds, and the later ones.
  apply_all_cons :
      (e : Entry) (es : List Entry) (p p' : Progress)
      → apply_entry f now e p ≡ (none, p')
      → apply_all f now (e ∷ es) p ≡ apply_all f now es p'
  unfolding apply_all
  apply_all_cons e es p p' h =
      ap
        (λ (u : Option ImportError × Progress). elim u.0 [
          | some y ↦ (some y, u.1)
          | none ↦ apply_all f now es u.1
        ])
        h

  pub apply_buckets :
      (bs : List Bucket) (acc : List Bucket) (es : List Entry) (n m u : ℕ) (os : List Object)
      (us : List MultipartUpload) (ps : List MultipartPart)
      → IsSorted str_key bucket_key (acc ++ map (stamp now) bs)
      → apply_all f now (map bucket_entry bs ++ es) (at n m u acc os us ps)
        ≡ apply_all f now es (at (n + length bs) m u (acc ++ map (stamp now) bs) os us ps)
  apply_buckets [] acc es n m u os us ps h =
      let e : n + length {A = Bucket} [] ≡ n = omega arith in simp (append-nil, e)
  apply_buckets (b ∷ bs) acc es n m u os us ps h =
      let assoc = append_assoc acc (stamp now b ∷ []) (map (stamp now) bs) in
      let count : suc n + length bs ≡ n + length (b ∷ bs) = omega arith in
      let p = at n m u acc os us ps in
      let p' = at (suc n) m u (acc ++ stamp now b ∷ []) os us ps in
      apply_all_cons (bucket_entry b) (map bucket_entry bs ++ es) p p'
        (apply_bucket b (map (stamp now) bs) p h)
      ∙ (apply_buckets bs (acc ++ stamp now b ∷ []) es (suc n) m u os us ps (rw (assoc) h)
          ∙ rw (assoc, count) refl)

  apply_object :
      (o : Object) (rest : List Object) (p : Progress)
      → IsSorted object_order object_key (p.db.objects ++ o ∷ rest)
      → apply_entry f now (object_entry o) p ≡ (
        none,
        record p { objects = suc p.objects; db = record p.db { objects = p.db.objects ++ o ∷ [] } },
      )
  unfolding apply_entry import_object put_object
  apply_object o rest p h =
      rw
        (
          f.decode-encode o.nonce,
          import_object,
          put_end object_order object_key p.db.objects o rest h,
        )
        refl

  pub apply_objects :
      (os : List Object) (acc : List Object) (es : List Entry) (n m u : ℕ) (bs : List Bucket)
      (us : List MultipartUpload) (ps : List MultipartPart)
      → IsSorted object_order object_key (acc ++ os)
      → apply_all f now (map object_entry os ++ es) (at n m u bs acc us ps)
        ≡ apply_all f now es (at n (m + length os) u bs (acc ++ os) us ps)
  apply_objects [] acc es n m u bs us ps h =
      let e : m + length {A = Object} [] ≡ m = omega arith in simp (append-nil, e)
  apply_objects (o ∷ os) acc es n m u bs us ps h =
      let assoc = append_assoc acc (o ∷ []) os in
      let count : suc m + length os ≡ m + length (o ∷ os) = omega arith in
      let p = at n m u bs acc us ps in
      let p' = at n (suc m) u bs (acc ++ o ∷ []) us ps in
      apply_all_cons (object_entry o) (map object_entry os ++ es) p p' (apply_object o os p h)
      ∙ (apply_objects os (acc ++ o ∷ []) es n (suc m) u bs us ps (rw (assoc) h)
          ∙ rw (assoc, count) refl)

  apply_multipart :
      (m : MultipartUpload) (qs : List MultipartPart) (ms : List MultipartUpload)
      (rest : List MultipartPart) (p : Progress)
      → BelongTo m.upload_id qs
      → IsSorted str_key upload_key (p.db.uploads ++ m ∷ ms)
      → IsSorted part_order part_key (p.db.parts ++ (qs ++ rest))
      → apply_entry f now (multipart_entry m qs) p ≡ (
        none,
        record p {
          uploads = suc p.uploads;
          db = record p.db { uploads = p.db.uploads ++ m ∷ []; parts = p.db.parts ++ qs };
        },
      )
  unfolding apply_entry import_multipart
  apply_multipart m qs ms rest p o h g =
      let db' : Db = record p.db { uploads = p.db.uploads ++ m ∷ [] } in
      ap
        (λ (v : Result MetaError (Unit {0}) × Db). elim v.0 [
          | err e ↦ (some (store_error e), record p { db = v.1 })
          | ok x ↦ (
            none,
            record p {
              uploads = suc p.uploads;
              db = upsert_parts m.upload_id (map part_data qs) v.1;
            },
          )
        ])
        (create_multipart_end m ms p.db h)
      ∙ ap (λ d. (none, record p { uploads = suc p.uploads; db = d }))
          (upsert_parts_end m.upload_id qs rest db' o g)

  pub apply_multiparts :
      (ms : List MultipartUpload) (parts : List MultipartPart) (acc : List MultipartUpload)
      (ps : List MultipartPart) (n m u : ℕ) (bs : List Bucket) (os : List Object)
      → IsSorted str_key upload_key (acc ++ ms)
      → IsSorted part_order part_key (ps ++ grouped ms parts)
      → apply_all f now (map (with_parts parts) ms) (at n m u bs os acc ps)
        ≡ (none, at n m (u + length ms) bs os (acc ++ ms) (ps ++ grouped ms parts))
  unfolding grouped
  apply_multiparts [] parts acc ps n m u bs os h g =
      let e : u + length {A = MultipartUpload} [] ≡ u = omega arith in
      unfold apply_all in simp (append-nil, e)
  apply_multiparts (x ∷ ms) parts acc ps n m u bs os h g =
      let qs = parts_of x.upload_id parts in
      let assoc = append_assoc acc (x ∷ []) ms in
      let assoc' = append_assoc ps qs (grouped ms parts) in
      let count : suc u + length ms ≡ u + length (x ∷ ms) = omega arith in
      let p = at n m u bs os acc ps in
      let p' = at n m (suc u) bs os (acc ++ x ∷ []) (ps ++ qs) in
      apply_all_cons (with_parts parts x) (map (with_parts parts) ms) p p'
        (apply_multipart x qs ms (grouped ms parts) p (parts_of-BelongTo x.upload_id parts) h g)
      ∙ (apply_multiparts ms parts (acc ++ x ∷ []) (ps ++ qs) n m (suc u) bs os (rw (assoc) h)
            (rw (assoc') g)
          ∙ rw (assoc, assoc', count) refl)
