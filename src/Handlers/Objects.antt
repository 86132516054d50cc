-- ===== src/Handlers/Objects.antt =====
-- internal/s3api/handlers.go: the handlers of objects.
use telang.Common.{
  ℕ, ◌+◌, ◌-◌, Bool, true, false, none, some, [], ◌∷◌, ◌++◌, Str, codes, length, ltb, if◌then◌else◌,
  Result, ok, err,
}
use telang.Common.Decimal.{format_int}
use telang.Crypto.Layout.{CryptoError}
use telang.Crypto.Stream.{ReadError, eof}
use telang.Metadata.Store.{Object}
use telang.S3.Errors.{S3Error, ServiceError, s3, entity_too_large, internal_error, invalid_range}
use telang.S3.ByteRange.{parse_range}
use telang.Service.World.{External, World}
use telang.Service.Objects
use telang.Service.Objects.{PutInput}
use telang.Handlers.Replies.{Reply, status_only, write_err, reply_of, quote}
use telang.Handlers.Bodies.{PutRequest, put_body_size, StageInput, stage_temp}

-- The answer to an error of `stageTemp`.
unfoldable pub stage_err : ServiceError → S3Error
stage_err (s3 entity_too_large) = entity_too_large
stage_err _ = internal_error

unfoldable pub is_eof : ReadError → Bool
is_eof eof = true
is_eof _ = false

-- A body whose stream failed: the bytes that went out before are not kept.
unfoldable pub with_part : Result CryptoError Str → Reply → Reply
with_part (ok body) r = record r { body = body }
with_part (err e) r = record r { is_complete = false }

module _ {S : Type 0} (x : External S) (http_time : ℕ → Str) where
  unfoldable pub stored_reply : Result ServiceError Object × World S → Reply × World S
  unfolding reply_of
  stored_reply (err e, w) = (reply_of e, w)
  stored_reply (ok o, w) = (record (status_only 200) { etag = quote o.etag }, w)

  -- `putObject`
  unfoldable pub put_object :
      StageInput → PutInput → Str → Str → PutRequest → World S → Reply × World S
  unfolding stored_reply stage_err write_err
  put_object s i bucket key r w = elim (put_body_size r) [
    | err e ↦ (write_err e, w)
    | ok none ↦ elim (stage_temp s r.body x.max_object_size) [
      | err e ↦ (write_err (stage_err e), w)
      | ok file ↦
          stored_reply (Objects.put_object x i bucket key r.content_type (length file) file w)
    ]
    | ok (some size) ↦
        if ltb x.max_object_size size
        then (write_err entity_too_large, w)
        else stored_reply (Objects.put_object x i bucket key r.content_type size r.body w)
  ]

  -- The headers that an object has in each answer.
  abbrev pub object_reply : ℕ → Object → Reply
  object_reply status o = record (status_only status) {
    etag = quote o.etag;
    content_type = o.content_type;
    last_modified = http_time o.created_at;
  }

  unfoldable pub whole_reply :
      Result ServiceError (Object × (Str × ReadError)) × World S → Reply × World S
  unfolding reply_of is_eof
  whole_reply (err e, w) = (reply_of e, w)
  whole_reply (ok (o, (body, end_)), w) = (
    record (object_reply 200 o) {
      content_length = format_int o.size;
      body = body;
      is_complete = is_eof end_;
    },
    w,
  )

  unfoldable pub part_reply :
      Object
      → ℕ
      → ℕ
      → Result ServiceError (Object × Result CryptoError Str) × World S
      → Reply × World S
  unfolding reply_of with_part
  part_reply o start end_ (err e, w) = (reply_of e, w)
  part_reply o start end_ (ok (o', body), w) = (
    with_part body (record (object_reply 206 o) {
      content_length = format_int (end_ - start + 1);
      content_range =
          codes "bytes "
          ++ format_int start
          ++ codes "-"
          ++ format_int end_
          ++ codes "/"
          ++ format_int o.size;
    }),
    w,
  )

  -- `getObjectRange`
  unfoldable pub get_object_range : Str → Str → Str → World S → Reply × World S
  unfolding part_reply write_err
  get_object_range bucket key range w = elim (Objects.head_object x bucket key w) [
    | err e ↦ (reply_of e, w)
    | ok o ↦ elim (parse_range range o.size) [
      | none ↦ (
        record (write_err invalid_range) { content_range = codes "bytes */" ++ format_int o.size },
        w,
      )
      | some (start, end_) ↦
          part_reply o start end_ (Objects.get_object_range x bucket key start end_ w)
    ]
  ]

  -- `getObject`, with `[]` for a request that has no Range header.
  unfoldable pub get_object : Str → Str → Str → World S → Reply × World S
  unfolding whole_reply
  get_object bucket key [] w = whole_reply (Objects.get_object x bucket key w)
  get_object bucket key (c ∷ range) w = get_object_range bucket key (c ∷ range) w

  -- `headObject`
  unfoldable pub head_object : Str → Str → World S → Reply
  head_object bucket key w = elim (Objects.head_object x bucket key w) [
    | err e ↦ reply_of e
    | ok o ↦ record (object_reply 200 o) { content_length = format_int o.size }
  ]

  -- `deleteObject`
  unfoldable pub deleted_reply : Result ServiceError (Unit {0}) × World S → Reply × World S
  deleted_reply (err e, w) = (reply_of e, w)
  deleted_reply (ok _, w) = (status_only 204, w)

  unfoldable pub delete_object : Str → Str → World S → Reply × World S
  unfolding deleted_reply
  delete_object bucket key w = deleted_reply (Objects.delete_object x bucket key w)
