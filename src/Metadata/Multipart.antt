-- ===== src/Metadata/Multipart.antt =====
-- internal/metadata/metadata.go: the multipart uploads and their parts.
use telang.Common.{none, some, List, [], ◌∷◌, Str, str_eq, map, if◌then◌else◌, Result, ok, err}
use telang.Metadata.Order.{str_key}
use telang.Metadata.Table.{find, put, remove}
use telang.Metadata.Store.{
  Db, MultipartUpload, MultipartPart, MetaError, upload_not_found, db_failure, upload_key, part_key,
  part_order, select,
}

-- `CreateMultipart`: a plain INSERT, so an upload id that is there is an error of the driver.
unfoldable pub create_multipart : MultipartUpload → Db → Result MetaError (Unit {0}) × Db
create_multipart m db = elim (find str_key upload_key m.upload_id db.uploads) [
  | some x ↦ (err db_failure, db)
  | none ↦ (ok tt, record db { uploads = put str_key upload_key m db.uploads })
]

-- `GetMultipart`
unfoldable pub get_multipart : Str → Db → Result MetaError MultipartUpload
get_multipart upload_id db = elim (find str_key upload_key upload_id db.uploads) [
  | some m ↦ ok m
  | none ↦ err upload_not_found
]

-- `DELETE FROM multipart_parts WHERE upload_id = ?`
unfoldable pub remove_parts : Str → List MultipartPart → List MultipartPart
remove_parts upload_id [] = []
remove_parts upload_id (p ∷ t) =
    let rest = remove_parts upload_id t in if str_eq p.upload_id upload_id then rest else p ∷ rest

-- `DeleteMultipart`: the parts and the upload go together, or nothing does.
unfoldable pub delete_multipart : Str → Db → Result MetaError (Unit {0}) × Db
unfolding remove_parts
delete_multipart upload_id db = elim (find str_key upload_key upload_id db.uploads) [
  | none ↦ (err upload_not_found, db)
  | some m ↦ (
    ok tt,
    record db {
      parts = remove_parts upload_id db.parts;
      uploads = remove str_key upload_key upload_id db.uploads;
    },
  )
]

-- `UpsertPart`
unfoldable pub upsert_part : MultipartPart → Db → Db
upsert_part p db = record db { parts = put part_order part_key p db.parts }

-- `ListParts`
unfoldable pub list_parts : Str → Db → List MultipartPart
unfolding select
list_parts upload_id db = select (λ (p : MultipartPart). str_eq p.upload_id upload_id) db.parts

-- The rows that `ForEachMultipart` visits, each with its parts.
unfoldable pub for_each_multipart : Db → List (MultipartUpload × List MultipartPart)
unfolding list_parts
for_each_multipart db = map (λ (m : MultipartUpload). (m, list_parts m.upload_id db)) db.uploads
