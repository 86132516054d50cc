-- ===== src/Handlers/Uploads.antt =====
-- internal/s3api/multipart.go: the handlers of multipart uploads.
use telang.Common.{
  ℕ, Bool, true, false, ◌&&◌, ◌||◌, Option, none, some, List, [], ◌∷◌, Str, ℤ, pos, negsuc,
  parse_int, ltb, length, take, ◌^◌, if◌then◌else◌, Result, ok, err,
}
use telang.Metadata.Store.{Object, get_bucket}
use telang.S3.Errors.{
  ServiceError, no_such_bucket, invalid_argument, malformed_xml, invalid_part_order,
}
use telang.Service.World.{External}
use telang.Service.Objects.{PutInput}
use telang.Multipart.Staging.{Staging, RequestPart}
use telang.Multipart.Operations
use telang.Multipart.Operations.{CreateInput, PartInput}
use telang.Handlers.Replies.{Reply, status_only, write_err, reply_of, quote}
use telang.Handlers.Bodies.{PutRequest, put_body_size, StageInput, stage_temp}
use telang.Handlers.Objects.{stage_err}

-- `maxParts`
abbrev pub max_parts : ℕ
max_parts = 10000

-- `<` on the part numbers of a request.
unfoldable pub ltb_int : ℤ → ℤ → Bool
ltb_int (pos a) (pos b) = ltb a b
ltb_int (pos a) (negsuc b) = false
ltb_int (negsuc a) (pos b) = true
ltb_int (negsuc a) (negsuc b) = ltb b a

-- The check of `completeMultipart`: each part number is above the one before.
unfoldable pub ascends_from : ℤ → List RequestPart → Bool
unfolding ltb_int
ascends_from n [] = true
ascends_from n (p ∷ parts) = ltb_int n p.part_number && ascends_from p.part_number parts

unfoldable pub ascends : List RequestPart → Bool
unfolding ascends_from
ascends [] = true
ascends (p ∷ parts) = ascends_from p.part_number parts

-- `strconv.Atoi` of the partNumber parameter, from 1 to `maxParts`.
unfoldable pub part_number_of : Str → Option ℕ
part_number_of s = elim (parse_int s) [
  | some (pos n) ↦ if ltb n 1 || ltb max_parts n then none else some n
  | _ ↦ none
]

unfoldable pub tagged : Result ServiceError Str → Reply
unfolding reply_of
tagged (err e) = reply_of e
tagged (ok etag) = record (status_only 200) { etag = quote etag }

unfoldable pub completed : Result ServiceError Object → Reply
unfolding reply_of
completed (err e) = reply_of e
completed (ok o) = record (status_only 200) { etag = quote o.etag }

module _ {S : Type 0} (x : External S) where
  unfoldable pub created_reply : Result ServiceError Str → Reply
  unfolding reply_of
  created_reply (err e) = reply_of e
  created_reply (ok id) = record (status_only 200) { body = id }

  -- `createMultipart`; of the answer's document, the upload id.
  unfoldable pub create_multipart :
      (Str → Str) → CreateInput → Str → Str → Staging S → Reply × Staging S
  unfolding created_reply write_err
  create_multipart stage i bucket key g = elim (get_bucket bucket g.world.db) [
    | err e ↦ (write_err no_such_bucket, g)
    | ok b ↦
        (let (made, g') = Operations.create_multipart x stage i bucket key g in
          (created_reply made, g'))
  ]

  -- `uploadPart`
  unfoldable pub upload_part :
      StageInput → PartInput → Str → Str → PutRequest → Staging S → Reply × Staging S
  unfolding part_number_of tagged write_err
  upload_part s i upload_id number r g = elim (part_number_of number) [
    | none ↦ (write_err invalid_argument, g)
    | some n ↦ elim (put_body_size r) [
      | err e ↦ (write_err e, g)
      | ok none ↦ elim (stage_temp s r.body x.max_object_size) [
        | err e ↦ (write_err (stage_err e), g)
        | ok file ↦
            (let (etag, g') =
                Operations.upload_part x (record i { src = file; read_fails = false }) upload_id n
                  (length file) g in
              (tagged etag, g'))
      ]
      | ok (some size) ↦
          (let (etag, g') =
              Operations.upload_part x (record i { src = r.body }) upload_id n size g in
            (tagged etag, g'))
    ]
  ]

  -- `completeMultipart`, where `decode` reads the request's document, of which the first MiB counts.
  unfoldable pub complete_multipart :
      (Str → Str → Bool)
      → (Str → Option (List RequestPart))
      → Bool
      → PutInput
      → Str
      → Str
      → Str
      → PutRequest
      → Staging S
      → Reply × Staging S
  unfolding ascends completed write_err
  complete_multipart equal_fold decode delete_fails i bucket key upload_id r g =
      elim (decode (take (2 ^ 20) r.body)) [
        | none ↦ (write_err malformed_xml, g)
        | some parts ↦
            if ascends parts
            then (let (done, g') =
                  Operations.complete_multipart x equal_fold delete_fails i bucket key upload_id
                    parts r.content_type g in
                (completed done, g'))
            else (write_err invalid_part_order, g)
      ]

  unfoldable pub aborted : Result ServiceError (Unit {0}) → Reply
  unfolding reply_of
  aborted (err e) = reply_of e
  aborted (ok _) = status_only 204

  -- `abortMultipart`
  unfoldable pub abort_multipart : Bool → Str → Staging S → Reply × Staging S
  unfolding aborted
  abort_multipart delete_fails upload_id g =
      let (gone, g') = Operations.abort_multipart x delete_fails upload_id g in (aborted gone, g')
