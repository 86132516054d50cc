-- ===== src/Multipart/Staging.antt =====
-- internal/s3api/multipart.go: the staging directories, and the parts that CompleteMultipart takes
-- from them.
use telang.Common.{
  ℕ, ◌+◌, Bool, not, Option, none, some, List, [], ◌∷◌, ◌++◌, Str, ℤ, pos, negsuc, str_eq, ◌==◌,
  if◌then◌else◌, Result, ok, err,
}
use telang.Metadata.Order.{str_key, num_key, pair_key}
use telang.Metadata.Table.{find}
use telang.Metadata.Store.{MultipartPart, select, part_order}
use telang.S3.Errors.{ServiceError, s3, plain, invalid_part}
use telang.Service.World.{World}
use telang.SigV4.Text.{hex_byte}

-- A part on disk: the file `partFileName(part_number)` of a staging directory.
pub record PartFile : Type 0 where
  pub dir : Str
  pub part_number : ℕ
  pub bytes : Str

abbrev pub file_key : PartFile → Str × ℕ
file_key f = (f.dir, f.part_number)

-- The service with its staging directories, the files in the order of their paths.
pub record Staging (S : Type 0) : Type 0 where
  pub world : World S
  pub files : List PartFile

-- `os.RemoveAll(dir)`
unfoldable pub remove_all : Str → List PartFile → List PartFile
unfolding select
remove_all dir files = select (λ (f : PartFile). not (str_eq f.dir dir)) files

-- `completeRequestPart`
pub record RequestPart : Type 0 where
  pub part_number : ℤ
  pub etag : Str

-- `strings.Trim(s, "\"")`
unfoldable pub trim_left_quotes : Str → Str
trim_left_quotes [] = []
trim_left_quotes (c ∷ s) = let rest = trim_left_quotes s in if c == b'"' then rest else c ∷ s

cons_unless_quotes : ℕ → Str → Str
cons_unless_quotes c [] = if c == b'"' then [] else c ∷ []
cons_unless_quotes c (d ∷ s) = c ∷ d ∷ s

unfoldable pub trim_right_quotes : Str → Str
unfolding cons_unless_quotes
trim_right_quotes [] = []
trim_right_quotes (c ∷ s) = cons_unless_quotes c (trim_right_quotes s)

unfoldable pub trim_quotes : Str → Str
unfolding trim_left_quotes trim_right_quotes
trim_quotes s = trim_right_quotes (trim_left_quotes s)

-- `hex.DecodeString`: the bytes before the first error.
unfoldable pub hex_decode : Str → Str
unfolding hex_byte
hex_decode [] = []
hex_decode (h ∷ []) = []
hex_decode (h ∷ l ∷ s) =
    let rest = hex_decode s in elim (hex_byte h l) [ none ↦ [] | some c ↦ c ∷ rest ]

-- What the loop of `CompleteMultipart` gathers: `totalSize`, `etagBytes`, and the content of the
-- opened files, in order.
pub record Collected : Type 0 where
  pub total_size : ℕ
  pub etag_bytes : Str
  pub content : Str

-- `have[rp.PartNumber]`
unfoldable pub part_of : ℤ → Str → List MultipartPart → Option MultipartPart
part_of (pos n) upload_id rows = find part_order telang.Metadata.Store.part_key (upload_id, n) rows
part_of (negsuc n) upload_id rows = none

unfoldable pub add_part :
    MultipartPart → Str → Result ServiceError Collected → Result ServiceError Collected
add_part got bytes (err e) = err e
add_part got bytes (ok c) = ok (record {
  total_size = got.size + c.total_size;
  etag_bytes = hex_decode got.etag ++ c.etag_bytes;
  content = bytes ++ c.content;
})

module _ (equal_fold : Str → Str → Bool) where
  -- The loop of `CompleteMultipart` over the parts of the request; `equal_fold` is
  -- `strings.EqualFold`.
  unfoldable pub collect :
      Str
      → Str
      → List MultipartPart
      → List PartFile
      → List RequestPart
      → Result ServiceError Collected
  unfolding add_part
  collect upload_id dir rows files [] =
      ok (record { total_size = 0; etag_bytes = []; content = [] })
  collect upload_id dir rows files (rp ∷ rest) =
      let more = collect upload_id dir rows files rest in
      elim (part_of rp.part_number upload_id rows) [
        | none ↦ err (s3 invalid_part)
        | some got ↦
            if equal_fold (trim_quotes rp.etag) got.etag
            then elim (find (pair_key str_key num_key) file_key (dir, got.part_number) files) [
              | none ↦ err plain
              | some f ↦ add_part got f.bytes more
            ]
            else err (s3 invalid_part)
      ]
