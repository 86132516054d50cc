-- ===== src/Admin/Import.antt =====
-- cmd/telang/metadata_io.go: runImport behind the configuration.
use telang.Common.{
  ℕ, suc, Bool, true, false, Option, none, some, List, [], ◌∷◌, Str, codes, str_eq, ◌==◌,
  if◌then◌else◌, ok, err,
}
use telang.S3.Router.{is_empty}
use telang.Metadata.Store.{Db, MetaError, create_bucket, put_object, list_buckets}
use telang.Metadata.Multipart.{create_multipart, upsert_part}
use telang.Admin.Records.{
  MetaRecord, BucketData, ObjectData, MultipartPartData, MultipartData, Formats, export_version,
}

pub data ImportError : Type 0 where
  not_empty bad_line missing_header bad_payload bad_nonce unknown_kind scan_failed : ImportError
  unsupported_version : ℕ → ImportError
  store_error : MetaError → ImportError

-- The header's flag, the counts, and the tables.
pub record Progress : Type 0 where
  pub header : Bool
  pub buckets : ℕ
  pub objects : ℕ
  pub uploads : ℕ
  pub db : Db

unfoldable pub upsert_parts : Str → List MultipartPartData → Db → Db
upsert_parts upload_id [] db = db
upsert_parts upload_id (p ∷ ps) db = upsert_parts upload_id ps (
    upsert_part
      (record { upload_id = upload_id; part_number = p.part_number; size = p.size; etag = p.etag })
      db)

-- The cases of the switch behind `json.Unmarshal`. `now` is the time of an insert.
unfoldable pub import_bucket : ℕ → BucketData → Progress → Option ImportError × Progress
import_bucket now b p =
    let (created, db) = create_bucket now b.name b.enc_key_id p.db in
    elim created [
      | err e ↦ (some (store_error e), record p { db = db })
      | ok u ↦ (none, record p { buckets = suc p.buckets; db = db })
    ]

unfoldable pub import_multipart : MultipartData → Progress → Option ImportError × Progress
unfolding upsert_parts
import_multipart m p =
    let (created, db) =
      create_multipart
        (record {
          upload_id = m.upload_id;
          bucket = m.bucket;
          key = m.key;
          staging_dir = m.staging_dir;
          created_at = m.created_at;
        })
        p.db in
    elim created [
      | err e ↦ (some (store_error e), record p { db = db })
      | ok u ↦
          (none, record p { uploads = suc p.uploads; db = upsert_parts m.upload_id m.parts db })
    ]

module _ (f : Formats) (now : ℕ) where
  unfoldable pub import_object : ObjectData → Progress → Option ImportError × Progress
  import_object o p = elim (f.decode_base64 o.nonce_b64) [
    | none ↦ (some bad_nonce, p)
    | some nonce ↦ (
      none,
      record p {
        objects = suc p.objects;
        db =
            put_object now (some o.created_at)
              (record {
                bucket = o.bucket;
                key = o.key;
                size = o.size;
                ciphertext_size = o.ciphertext_size;
                etag = o.etag;
                content_type = o.content_type;
                message_id = o.message_id;
                file_id = o.file_id;
                nonce = nonce;
                created_at = o.created_at;
              })
              p.db;
      },
    )
  ]

  -- The switch on the kind.
  unfoldable pub import_record : MetaRecord → Progress → Option ImportError × Progress
  unfolding import_bucket import_object import_multipart
  import_record r p =
      if str_eq r.kind (codes "header")
      then (none, record p { header = true })
      else if str_eq r.kind (codes "bucket")
      then (if p.header
          then elim (f.buckets.unmarshal r.payload) [
            | none ↦ (some bad_payload, p)
            | some b ↦ import_bucket now b p
          ]
          else (some missing_header, p))
      else if str_eq r.kind (codes "object")
      then elim (f.objects.unmarshal r.payload) [
        | none ↦ (some bad_payload, p)
        | some o ↦ import_object o p
      ]
      else if str_eq r.kind (codes "multipart")
      then elim (f.multiparts.unmarshal r.payload) [
        | none ↦ (some bad_payload, p)
        | some m ↦ import_multipart m p
      ]
      else (some unknown_kind, p)

  -- One turn of the loop.
  unfoldable pub import_line : Str → Progress → Option ImportError × Progress
  unfolding import_record
  import_line line p = if is_empty line then (none, p) else elim (f.lines.unmarshal line) [
    | none ↦ (some bad_line, p)
    | some r ↦
        if r.version == export_version
        then import_record r p
        else (some (unsupported_version r.version), p)
  ]

  unfoldable pub import_lines : List Str → Progress → Option ImportError × Progress
  unfolding import_line
  import_lines [] p = (none, p)
  import_lines (l ∷ ls) p =
      let (e, p') = import_line l p in
      let rest = import_lines ls p' in elim e [ some x ↦ (some x, p') | none ↦ rest ]

  -- `runImport`, with the lines that the scanner delivers, and whether it ends with an error. What is
  -- written before an error stays.
  unfoldable pub run_import : List Str → Bool → Db → Option ImportError × Progress
  unfolding import_lines
  run_import ls scan_fails db =
      let start : Progress = record {
        header = false;
        buckets = 0;
        objects = 0;
        uploads = 0;
        db = db;
      } in
      let (e, p) = import_lines ls start in
      elim (list_buckets db) [
        | b ∷ bs ↦ (some not_empty, start)
        | [] ↦ elim e [
          | some x ↦ (some x, p)
          | none ↦ (if scan_fails then some scan_failed else none, p)
        ]
      ]
