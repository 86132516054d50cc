-- ===== src/Handlers/Bodies.antt =====
-- internal/s3api/handlers.go and service.go: putBodySize and stageTemp.
use telang.Common.{
  ℕ, suc, Bool, Option, none, some, [], ◌∷◌, Str, ℤ, pos, negsuc, parse_int, length, take, ltb,
  if◌then◌else◌, Result, ok, err,
}
use telang.S3.Errors.{
  S3Error, invalid_argument, ServiceError, s3, plain, entity_too_large, insufficient_storage,
}

-- What PutObject and UploadPart read of a request. An absent header is the empty string.
pub record PutRequest : Type 0 where
  pub decoded_content_length : Str
  pub content_length : ℤ
  pub content_type : Str
  pub body : Str

-- `putBodySize`, with `none` for a size that the client did not declare.
unfoldable pub declared_size : ℤ → Option ℕ
declared_size (pos n) = some n
declared_size (negsuc n) = none

unfoldable pub put_body_size : PutRequest → Result S3Error (Option ℕ)
unfolding declared_size
put_body_size r = elim r.decoded_content_length [
  | [] ↦ ok (declared_size r.content_length)
  | c ∷ v ↦ elim (parse_int (c ∷ v)) [ some (pos n) ↦ ok (some n) | _ ↦ err invalid_argument ]
]

-- What the volume answers: it works, it is full (`ENOSPC`), or another error.
pub data Disk : Type 0 where
  works no_space broken : Disk

-- What the disk answers in `stageTemp`: to MkdirAll, CreateTemp, the copy and Seek.
pub record StageInput : Type 0 where
  pub mkdir_fails : Bool
  pub create : Disk
  pub copy : Disk
  pub seek_fails : Bool

-- `stageTemp`: the bytes of the temporary file.
unfoldable pub stage_copied : Bool → Str → ℕ → Result ServiceError Str
stage_copied seek_fails copied max_size =
    if ltb max_size (length copied)
    then err (s3 entity_too_large)
    else if seek_fails
    then err plain
    else ok copied

unfoldable pub stage_temp : StageInput → Str → ℕ → Result ServiceError Str
unfolding stage_copied
stage_temp i body max_size = if i.mkdir_fails then err plain else elim i.create [
  | no_space ↦ err (s3 insufficient_storage)
  | broken ↦ err plain
  | works ↦ elim i.copy [
    | no_space ↦ err (s3 insufficient_storage)
    | broken ↦ err plain
    | works ↦ stage_copied i.seek_fails (take (suc max_size) body) max_size
  ]
]
