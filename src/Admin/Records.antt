-- ===== src/Admin/Records.antt =====
-- cmd/telang/metadata_io.go: the records of the export, and runExport behind the configuration.
use telang.Common.{ℕ, Bool, true, false, Option, none, some, List, [], ◌∷◌, ◌++◌, Str, codes, map}
use telang.S3.Router.{is_empty}
use telang.Common.{◌≡◌}
use telang.Metadata.Store.{Db, Bucket, Object, MultipartUpload, MultipartPart, list_buckets}
use telang.Metadata.Multipart.{for_each_multipart}

-- `metaRecord`, `headerData`, `bucketData`, `objectData`, `multipartPartData` and `multipartData`.
-- Times are Unix seconds, as the tables hold them.
pub record MetaRecord : Type 0 where
  pub version : ℕ
  pub kind : Str
  pub payload : Str

pub record HeaderData : Type 0 where
  pub created_at : ℕ
  pub note : Str

pub record BucketData : Type 0 where
  pub name : Str
  pub created_at : ℕ
  pub enc_key_id : Str

pub record ObjectData : Type 0 where
  pub bucket : Str
  pub key : Str
  pub size : ℕ
  pub ciphertext_size : ℕ
  pub etag : Str
  pub content_type : Str
  pub message_id : ℕ
  pub file_id : Str
  pub nonce_b64 : Str
  pub created_at : ℕ

pub record MultipartPartData : Type 0 where
  pub part_number : ℕ
  pub size : ℕ
  pub etag : Str

pub record MultipartData : Type 0 where
  pub upload_id : Str
  pub bucket : Str
  pub key : Str
  pub staging_dir : Str
  pub created_at : ℕ
  pub parts : List MultipartPartData

-- `encoding/json` on a type: `Marshal` can fail, and `Unmarshal` reads what it prints.
pub record Codec (A : Type 0) : Type 0 where
  pub marshal : A → Option Str
  pub unmarshal : Str → Option A
  pub unmarshal-marshal : (a : A) (s : Str) → marshal a ≡ some s → unmarshal s ≡ some a
  pub marshal-nonempty : (a : A) (s : Str) → marshal a ≡ some s → is_empty s ≡ false

-- What the two commands use: JSON, and standard base64.
pub record Formats : Type 0 where
  pub lines : Codec MetaRecord
  pub headers : Codec HeaderData
  pub buckets : Codec BucketData
  pub objects : Codec ObjectData
  pub multiparts : Codec MultipartData
  pub encode_base64 : Str → Str
  pub decode_base64 : Str → Option Str
  pub decode-encode : (s : Str) → decode_base64 (encode_base64 s) ≡ some s

abbrev pub export_version : ℕ
export_version = 1

abbrev pub bucket_data : Bucket → BucketData
bucket_data b = record { name = b.name; created_at = b.created_at; enc_key_id = b.enc_key_id }

abbrev pub part_data : MultipartPart → MultipartPartData
part_data p = record { part_number = p.part_number; size = p.size; etag = p.etag }

abbrev pub multipart_data : MultipartUpload → List MultipartPart → MultipartData
multipart_data m parts = record {
  upload_id = m.upload_id;
  bucket = m.bucket;
  key = m.key;
  staging_dir = m.staging_dir;
  created_at = m.created_at;
  parts = map part_data parts;
}

-- What one call of `emit` prints.
pub data Entry : Type 0 where
  header_entry : ℕ → Entry
  bucket_entry : Bucket → Entry
  object_entry : Object → Entry
  multipart_entry : MultipartUpload → List MultipartPart → Entry

module _ (f : Formats) where
  abbrev pub object_data : Object → ObjectData
  object_data o = record {
    bucket = o.bucket;
    key = o.key;
    size = o.size;
    ciphertext_size = o.ciphertext_size;
    etag = o.etag;
    content_type = o.content_type;
    message_id = o.message_id;
    file_id = o.file_id;
    nonce_b64 = f.encode_base64 o.nonce;
    created_at = o.created_at;
  }

  -- `emit`, whose payload is marshalled first.
  unfoldable pub emit : Str → Option Str → Option Str
  emit kind none = none
  emit kind (some raw) =
      f.lines.marshal (record { version = export_version; kind = kind; payload = raw })

  unfoldable pub emit_entry : Entry → Option Str
  unfolding emit
  emit_entry (header_entry now) =
      emit (codes "header")
        (f.headers.marshal (record { created_at = now; note = codes "telang metadata export" }))
  emit_entry (bucket_entry b) = emit (codes "bucket") (f.buckets.marshal (bucket_data b))
  emit_entry (object_entry o) = emit (codes "object") (f.objects.marshal (object_data o))
  emit_entry (multipart_entry m parts) =
      emit (codes "multipart") (f.multiparts.marshal (multipart_data m parts))

  -- The lines printed before the first error, and whether there was none.
  unfoldable pub emit_all : List Entry → List Str × Bool
  unfolding emit_entry
  emit_all [] = ([], true)
  emit_all (e ∷ es) =
      let (later, done) = emit_all es in
      elim (emit_entry e) [ none ↦ ([], false) | some line ↦ (line ∷ later, done) ]

  abbrev pub multipart_row : MultipartUpload × List MultipartPart → Entry
  multipart_row (m, parts) = multipart_entry m parts

  unfoldable pub entries : ℕ → Db → List Entry
  entries now db =
      header_entry now
      ∷ (map bucket_entry (list_buckets db)
          ++ (map object_entry db.objects ++ map multipart_row (for_each_multipart db)))

  -- `runExport`
  unfoldable pub run_export : ℕ → Db → List Str × Bool
  unfolding emit_all entries
  run_export now db = emit_all (entries now db)
