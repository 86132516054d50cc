-- ===== src/Examples/AdminRuns.antt =====
-- An export with its import, and a run of fsck.
use telang.Common.{
  ℕ, zero, suc, ◌≡◌, refl, ap, sym, ◌∙◌, Bool, true, false, ◌&&◌, Option, none, some, List, [], ◌∷◌,
  ◌++◌, Str, codes, length, take, drop, take-append, drop-append, ◌==◌, Result, ok, err, arith,
  if◌then◌else◌, ◌↔◌,
}
use telang.Crypto.Stream.{ReadError, eof}
use telang.S3.Router.{is_empty}
use telang.Storage.Interface.{Ref, StorageError, not_found}
use telang.Metadata.Store
use telang.Metadata.Store.{Db, Object, Bucket, get_object}
use telang.Metadata.Reachable.{empty_db}
use telang.Metadata.Laws.{IsValid}
use telang.Admin.Fsck.{run_fsck, object_ref}
use telang.Admin.FsckLaws.{is_gone, get_object-run_fsck}
use telang.Admin.Records.{
  MetaRecord, HeaderData, BucketData, ObjectData, MultipartData, Codec, Formats, run_export,
}
use telang.Admin.Import.{run_import}
use telang.Admin.Restore.{restored, run_import-run_export}
use telang.Mtproto.Messages.{message, media_document, document, messages}
use telang.Mtproto.Backend.{Client, get, exists}
use telang.Mtproto.Laws.{exists-get}
use telang.Examples.ServiceRuns.{stored}

-- Texts one behind the other, each with its length in front.
unfoldable pack : List Str → Str
pack [] = []
pack (s ∷ ss) = length s ∷ s ++ pack ss

unfoldable unpack : ℕ → Str → List Str
unpack zero s = []
unpack (suc k) [] = []
unpack (suc k) (n ∷ s) = let rest = unpack k (drop n s) in take n s ∷ rest

unpack-pack : (ss : List Str) → unpack (length ss) (pack ss) ≡ ss
unfolding unpack pack
unpack-pack [] = refl
unpack-pack (s ∷ ss) =
    rw
      (
        take-append (length s) s (pack ss) refl,
        drop-append (length s) s (pack ss) refl,
        unpack-pack ss,
      )
      refl

opened-some : {A : Type 0} {a b : A} → some a ≡ some b → a ≡ b
opened-some e = ground arith

-- The codec of a printer with its reader.
module _ {A : Type 0} (print : A → Str) (read : Str → Option A)
    (inverse : (a : A) → read (print a) ≡ some a)
    (nonempty : (a : A) → is_empty (print a) ≡ false) where
  read-print : (a : A) (s : Str) → some (print a) ≡ some s → read s ≡ some a
  read-print a s e = ap read (sym (opened-some e)) ∙ inverse a

  print-nonempty : (a : A) (s : Str) → some (print a) ≡ some s → is_empty s ≡ false
  print-nonempty a s e = ap is_empty (sym (opened-some e)) ∙ nonempty a

  abbrev codec : Codec A
  codec = record {
    marshal = λ a. some (print a);
    unmarshal = read;
    unmarshal-marshal = read-print;
    marshal-nonempty = print-nonempty;
  }

abbrev print_line : MetaRecord → Str
print_line r = r.version ∷ pack (r.kind ∷ r.payload ∷ [])

line_of : ℕ → List Str → Option MetaRecord
line_of v (k ∷ p ∷ []) = some (record { version = v; kind = k; payload = p })
line_of v _ = none

read_line : Str → Option MetaRecord
unfolding unpack line_of
read_line [] = none
read_line (v ∷ s) = line_of v (unpack 2 s)

read_line_lem : (r : MetaRecord) → read_line (print_line r) ≡ some r
unfolding read_line
read_line_lem r = ap (line_of r.version) (unpack-pack (r.kind ∷ r.payload ∷ []))

abbrev print_header : HeaderData → Str
print_header h = h.created_at ∷ h.note

read_header : Str → Option HeaderData
read_header [] = none
read_header (t ∷ s) = some (record { created_at = t; note = s })

abbrev print_bucket : BucketData → Str
print_bucket b = b.created_at ∷ pack (b.name ∷ b.enc_key_id ∷ [])

bucket_of : ℕ → List Str → Option BucketData
bucket_of t (n ∷ k ∷ []) = some (record { name = n; created_at = t; enc_key_id = k })
bucket_of t _ = none

read_bucket : Str → Option BucketData
unfolding unpack bucket_of
read_bucket [] = none
read_bucket (t ∷ s) = bucket_of t (unpack 2 s)

read_bucket_lem : (b : BucketData) → read_bucket (print_bucket b) ≡ some b
unfolding read_bucket
read_bucket_lem b = ap (bucket_of b.created_at) (unpack-pack (b.name ∷ b.enc_key_id ∷ []))

abbrev print_object : ObjectData → Str
print_object o =
    o.size
    ∷ o.ciphertext_size
    ∷ o.message_id
    ∷ o.created_at
    ∷ pack (o.bucket ∷ o.key ∷ o.etag ∷ o.content_type ∷ o.file_id ∷ o.nonce_b64 ∷ [])

object_of : ℕ → ℕ → ℕ → ℕ → List Str → Option ObjectData
object_of n c m t (b ∷ k ∷ e ∷ y ∷ f ∷ x ∷ []) = some (record {
  bucket = b;
  key = k;
  size = n;
  ciphertext_size = c;
  etag = e;
  content_type = y;
  message_id = m;
  file_id = f;
  nonce_b64 = x;
  created_at = t;
})
object_of n c m t _ = none

read_object : Str → Option ObjectData
unfolding unpack object_of
read_object (n ∷ c ∷ m ∷ t ∷ s) = object_of n c m t (unpack 6 s)
read_object _ = none

read_object_lem : (o : ObjectData) → read_object (print_object o) ≡ some o
unfolding read_object
read_object_lem o =
    ap (object_of o.size o.ciphertext_size o.message_id o.created_at)
      (unpack-pack (o.bucket ∷ o.key ∷ o.etag ∷ o.content_type ∷ o.file_id ∷ o.nonce_b64 ∷ []))

-- A codec that prints no upload.
abbrev no_uploads : Codec MultipartData
no_uploads = record {
  marshal = λ m. none;
  unmarshal = λ s. none;
  unmarshal-marshal = λ m s e. ground arith;
  marshal-nonempty = λ m s e. ground arith;
}

full : (c : ℕ) (s : Str) → is_empty (c ∷ s) ≡ false
unfolding is_empty
full c s = refl

abbrev formats : Formats
formats = record {
  lines = codec print_line read_line read_line_lem (λ r. full _ _);
  headers = codec print_header read_header (λ h. unfold read_header in refl) (λ h. full _ _);
  buckets = codec print_bucket read_bucket read_bucket_lem (λ b. full _ _);
  objects = codec print_object read_object read_object_lem (λ o. full _ _);
  multiparts = no_uploads;
  encode_base64 = λ s. s;
  decode_base64 = λ s. some s;
  decode-encode = λ s. refl;
}

abbrev db : Db
db = record empty_db {
  buckets = record { name = codes "pets"; created_at = 1; enc_key_id = codes "pets" } ∷ [];
  objects = stored ∷ record stored { key = codes "dog"; message_id = 2 } ∷ [];
}

db-IsValid : IsValid db
unfolding telang.Metadata.Order.cmp_str telang.Metadata.Order.then_by
db-IsValid = record {
  buckets_sorted = (tt, tt);
  objects_sorted = ((refl, tt), (tt, tt));
  uploads_sorted = tt;
  parts_sorted = tt;
}

was_exported : run_export formats 9 db ≡ ((run_export formats 9 db).0, true)
unfolding run_export Store.list_buckets telang.Metadata.Multipart.for_each_multipart
was_exported = refl

run_import-run_export_example :
    run_import formats 12 (run_export formats 9 db).0 false empty_db ≡ (none, restored 12 db)
run_import-run_export_example =
    run_import-run_export formats 12 9 db (run_export formats 9 db).0 db-IsValid tt was_exported

-- The message 2 is gone.
abbrev answer : Ref → Result StorageError Bool
answer ref = ok (if ref.message_id == 2 then false else true)

get_object-run_fsck_example :
    get_object (codes "pets") (codes "dog") (run_fsck (λ r s. (answer r, s)) true db tt).db
    ≡ elim (get_object (codes "pets") (codes "dog") db) [
      | err e ↦ err e
      | ok o ↦ if true && is_gone (answer (object_ref o)) then err Store.not_found else ok o
    ]
get_object-run_fsck_example =
    get_object-run_fsck (λ r s. (answer r, s)) answer (λ r s. refl) true db tt (codes "pets")
      (codes "dog") db-IsValid.objects_sorted

-- A channel with one document.
abbrev client : Client (Unit {0}) Str
client = record {
  upload = λ name size body end_ s. (ok body, s);
  send_media = λ file name id s. (err [], s);
  get_messages = λ id s. (
    ok (
        messages (
          message id
            (media_document (document (record { id = 5; access_hash = 6; file_reference = [] })))
          ∷ [])),
    s,
  );
  delete_messages = λ id s. (ok tt, s);
  download = λ d s. (codes "meow", eof);
}

abbrev ref : Ref
ref = record { message_id = 1; file_id = [] }

exists-get_example :
    (((exists client ref tt).0 ≡ ok true)
      ↔ ((b : Str × ReadError) × ((get client ref tt).0 ≡ ok b)))
    × (((exists client ref tt).0 ≡ ok false) ↔ ((get client ref tt).0 ≡ err not_found))
    × ((exists client ref tt).1 ≡ (get client ref tt).1)
exists-get_example = exists-get client ref tt
