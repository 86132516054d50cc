-- ===== src/Admin/Lines.antt =====
-- cmd/telang/metadata_io.go: the import of a line that the export printed.
use telang.Common.{
  ℕ, ◌≡◌, refl, ap, sym, ◌∙◌, true, Option, none, some, List, [], ◌∷◌, Str, codes, str_eq, inl, inr,
  Option-cases, arith,
}
use telang.Admin.Records.{
  MetaRecord, BucketData, ObjectData, MultipartData, Formats, Entry, header_entry, bucket_entry,
  object_entry, multipart_entry, bucket_data, object_data, multipart_data, export_version, emit,
  emit_entry, emit_all,
}
use telang.Admin.Import.{
  ImportError, Progress, import_bucket, import_object, import_multipart, import_record, import_line,
  import_lines,
}

module _ (f : Formats) (now : ℕ) where
  -- What the import does for an entry of the export.
  unfoldable pub apply_entry : Entry → Progress → Option ImportError × Progress
  apply_entry (header_entry t) p = (none, record p { header = true })
  apply_entry (bucket_entry b) p = import_bucket now (bucket_data b) p
  apply_entry (object_entry o) p = import_object f now (object_data f o) p
  apply_entry (multipart_entry m parts) p = import_multipart (multipart_data m parts) p

  unfoldable pub apply_all : List Entry → Progress → Option ImportError × Progress
  unfolding apply_entry
  apply_all [] p = (none, p)
  apply_all (e ∷ es) p =
      let (x, p') = apply_entry e p in
      let rest = apply_all es p' in elim x [ some y ↦ (some y, p') | none ↦ rest ]

  -- A line with a record reads as the record.
  import_line_record :
      (r : MetaRecord) (line : Str) (p : Progress)
      → r.version ≡ export_version
      → f.lines.marshal r ≡ some line
      → import_line f now line p ≡ import_record f now r p
  unfolding import_line
  import_line_record r line p v e =
      rw (f.lines.marshal-nonempty r line e, f.lines.unmarshal-marshal r line e, v) refl

  -- The payload that `emit` marshals, and its line.
  emitted :
      (kind : Str) (raw : Option Str) (line : Str)
      → emit f kind raw ≡ some line
      → (s : Str) × (raw ≡ some s)
        × (f.lines.marshal (record { version = export_version; kind = kind; payload = s })
            ≡ some line)
  unfolding emit
  emitted kind none line e = absurd (ground arith)
  emitted kind (some s) line e = (s, refl, e)

  import_line-emit_entry :
      (e : Entry) (line : Str) (p : Progress)
      → p.header ≡ true
      → emit_entry f e ≡ some line
      → import_line f now line p ≡ apply_entry e p
  unfolding emit_entry apply_entry import_record str_eq
  import_line-emit_entry (header_entry t) line p h e =
      let (s, raw, q) = emitted (codes "header") (f.headers.marshal _) line e in
      import_line_record _ line p refl q
  import_line-emit_entry (bucket_entry b) line p h e =
      let (s, raw, q) = emitted (codes "bucket") (f.buckets.marshal (bucket_data b)) line e in
      import_line_record _ line p refl q
      ∙ simp (h, f.buckets.unmarshal-marshal (bucket_data b) s raw)
  import_line-emit_entry (object_entry o) line p h e =
      let (s, raw, q) = emitted (codes "object") (f.objects.marshal (object_data f o)) line e in
      import_line_record _ line p refl q
      ∙ rw (f.objects.unmarshal-marshal (object_data f o) s raw) refl
  import_line-emit_entry (multipart_entry m ps) line p h e =
      let (s, raw, q) =
        emitted (codes "multipart") (f.multiparts.marshal (multipart_data m ps)) line e in
      import_line_record _ line p refl q
      ∙ rw (f.multiparts.unmarshal-marshal (multipart_data m ps) s raw) refl

  import_bucket_header :
      (b : BucketData) (p : Progress) → (import_bucket now b p).1.header ≡ p.header
  unfolding import_bucket
  import_bucket_header b p = ground arith

  import_object_header :
      (o : ObjectData) (p : Progress) → (import_object f now o p).1.header ≡ p.header
  unfolding import_object
  import_object_header o p = ground arith

  import_multipart_header :
      (m : MultipartData) (p : Progress) → (import_multipart m p).1.header ≡ p.header
  unfolding import_multipart
  import_multipart_header m p = ground arith

  -- An entry keeps the header's flag.
  apply_entry_header :
      (e : Entry) (p : Progress) → p.header ≡ true → (apply_entry e p).1.header ≡ true
  unfolding apply_entry
  apply_entry_header (header_entry t) p h = refl
  apply_entry_header (bucket_entry b) p h = import_bucket_header (bucket_data b) p ∙ h
  apply_entry_header (object_entry o) p h = import_object_header (object_data f o) p ∙ h
  apply_entry_header (multipart_entry m ps) p h =
      import_multipart_header (multipart_data m ps) p ∙ h

  pub import_lines-emit_all :
      (es : List Entry) (ls : List Str) (p : Progress)
      → p.header ≡ true
      → emit_all f es ≡ (ls, true)
      → import_lines f now ls p ≡ apply_all es p
  unfolding import_lines emit_all apply_all
  import_lines-emit_all [] ls p h e = rw (← ap (λ u. u.0) e) refl
  import_lines-emit_all (x ∷ es) ls p h e = elim (Option-cases (emit_entry f x)) [
    | inl n ↦ absurd (ground arith)
    | inr (line, n) ↦
        (let later = (emit_all f es).0 in
          let front : line ∷ later ≡ ls = ground arith in
          let rest : emit_all f es ≡ (later, true) = ground arith in
          ap (λ u. import_lines f now u p) (sym front)
          ∙ (ap
                (λ (u : Option ImportError × Progress). elim u.0 [
                  | some y ↦ (some y, u.1)
                  | none ↦ import_lines f now later u.1
                ])
                (import_line-emit_entry x line p h n)
              ∙ ap
                  (λ (v : Option ImportError × Progress). elim (apply_entry x p).0 [
                    | some y ↦ (some y, (apply_entry x p).1)
                    | none ↦ v
                  ])
                  (import_lines-emit_all es later (apply_entry x p).1 (apply_entry_header x p h)
                    rest)))
  ]

  -- An export with its header.
  pub import_lines_header :
      (t : ℕ) (es : List Entry) (ls : List Str) (p : Progress)
      → emit_all f (header_entry t ∷ es) ≡ (ls, true)
      → import_lines f now ls p ≡ apply_all es (record p { header = true })
  unfolding import_lines emit_all emit_entry import_record str_eq
  import_lines_header t es ls p e = elim (Option-cases (emit_entry f (header_entry t))) [
    | inl n ↦ absurd (ground arith)
    | inr (line, n) ↦
        (let later = (emit_all f es).0 in
          let front : line ∷ later ≡ ls = ground arith in
          let rest : emit_all f es ≡ (later, true) = ground arith in
          let (s, raw, q) = emitted (codes "header") (f.headers.marshal _) line n in
          ap (λ u. import_lines f now u p) (sym front)
          ∙ (ap
                (λ (u : Option ImportError × Progress). elim u.0 [
                  | some y ↦ (some y, u.1)
                  | none ↦ import_lines f now later u.1
                ])
                (import_line_record _ line p refl q)
              ∙ import_lines-emit_all es later (record p { header = true }) refl rest))
  ]
