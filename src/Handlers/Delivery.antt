-- ===== src/Handlers/Delivery.antt =====
-- internal/s3api/handlers.go: a GET behind a PUT that was answered with 200.
use telang.Common.{
  ℕ, suc, ◌^◌, ◌≤◌, ◌<◌, ◌≡◌, Option, none, some, [], ◌++◌, Str, length, take, drop,
  take-append-drop, length-take, take_all, append-nil, ltb, Result, ok, err, arith, inl, inr,
  Result-cases, Bool-cases,
}
use telang.Common.Decimal.{format_int}
use telang.Crypto.Layout.{nonce_len}
use telang.Crypto.Stream.{ReadError, eof}
use telang.Metadata.Store.{Object}
use telang.S3.Errors.{entity_too_large, S3Error, http_status, ServiceError, write_service_err}
use telang.Service.World.{External, World}
use telang.Service.Objects
use telang.Service.Objects.{PutInput}
use telang.Service.Uploads.{AllSound, put_object-Stored}
use telang.Service.RoundTrip.{KeepsBlobs, get_object-put_object}
use telang.Handlers.Replies.{Reply, write_err, reply_of}
use telang.Handlers.Bodies.{PutRequest, put_body_size, StageInput, stage_temp, stage_copied}
use telang.Handlers.Objects.{
  put_object, get_object, stored_reply, object_reply, whole_reply, stage_err, is_eof,
}

http_status-error : (e : S3Error) → 400 ≤ http_status e
unfolding http_status
http_status-error e = grind arith

-- The bytes of a body that a PUT stores.
abbrev pub sent : Option ℕ → Str → Str
sent none body = body
sent (some size) body = take size body

module _ {S : Type 0} (x : External S) (http_time : ℕ → Str) where
  stored_reply_ok :
      (r : Result ServiceError Object × World S) (reply : Reply) (w' : World S)
      → stored_reply x http_time r ≡ (reply, w')
      → reply.status ≡ 200
      → (o : Object) × (r ≡ (ok o, w'))
  unfolding stored_reply reply_of write_err
  stored_reply_ok (ok o, w) reply w' h st = (o, ground arith)
  stored_reply_ok (err e, w) reply w' h st =
      absurd (ground (arith, http_status-error (write_service_err e)))

-- `stageTemp` stages all of a body or nothing.
stage_temp_ok :
    (s : StageInput) (body : Str) (max_size : ℕ) (file : Str)
    → stage_temp s body max_size ≡ ok file
    → file ≡ body
unfolding stage_temp stage_copied
stage_temp_ok s body max_size file h =
    ground (arith, take_all (suc max_size) body, length-take (suc max_size) body)

module _ {S : Type 0} (x : External S) (http_time : ℕ → Str) where
  put_object-inv :
      (s : StageInput) (i : PutInput) (bucket key : Str) (r : PutRequest) (w w' : World S)
      (d : Option ℕ) (reply : Reply)
      → put_body_size r ≡ ok d
      → length (sent d r.body) ≡ (elim d [ none ↦ length r.body | some size ↦ size ])
      → put_object x http_time s i bucket key r w ≡ (reply, w')
      → reply.status ≡ 200
      → (extra : Str) × (o : Object) × (Objects.put_object x i bucket key r.content_type
            (length (sent d r.body))
            (sent d r.body ++ extra)
            w
          ≡ (ok o, w'))
  unfolding put_object write_err
  put_object-inv s i bucket key r w w' none reply e l h st =
      elim (Result-cases (stage_temp s r.body x.max_object_size)) [
        | inr (f, k) ↦ absurd (ground (arith, http_status-error (stage_err f)))
        | inl (file, k) ↦
            (let (o, put) =
                stored_reply_ok x http_time
                  (Objects.put_object x i bucket key r.content_type (length file) file w) reply w'
                  (ground arith) st in
              (
                [],
                o,
                rw (append-nil r.body, ← stage_temp_ok s r.body x.max_object_size file k) put,
              ))
      ]
  put_object-inv s i bucket key r w w' (some size) reply e l h st =
      elim (Bool-cases (ltb x.max_object_size size)) [
        | inl large ↦ absurd (ground (arith, http_status-error entity_too_large))
        | inr fits ↦
            (let (o, put) =
                stored_reply_ok x http_time
                  (Objects.put_object x i bucket key r.content_type size r.body w) reply w'
                  (ground arith) st in
              (drop size r.body, o, rw (l, take-append-drop size r.body) put))
      ]

  whole_reply_ok :
      (o : Object) (p : Str) (r : Result ServiceError (Object × (Str × ReadError)) × World S)
      → r.0 ≡ ok (o, (p, eof))
      → (whole_reply x http_time r).0
        ≡ record (object_reply x http_time 200 o) { content_length = format_int o.size; body = p }
  unfolding whole_reply is_eof
  whole_reply_ok o p (ok (o', (body, end_)), w) h = ground arith
  whole_reply_ok o p (err e, w) h = absurd (ground arith)

  -- Over a backend and cache that give back each blob that was put, with ciphers of legal frame
  -- sizes in the cache of ciphers and a base nonce of 12 bytes, when putObject answers 200 to a
  -- body that is as long as its declared size, if it declares one, and shorter than 2 ^ 63 bytes,
  -- then getObject without a Range header answers 200 with an object whose size is that of the
  -- bytes sent, its Content-Length and headers, and these bytes as the whole body.
  pub get_object-put_object_200 :
      (k : KeepsBlobs x) (s : StageInput) (i : PutInput) (bucket key : Str) (r : PutRequest)
      (w w' : World S) (d : Option ℕ) (reply : Reply)
      → AllSound w.ciphers
      → length i.base ≡ nonce_len
      → length (sent d r.body) < 2 ^ 63
      → put_body_size r ≡ ok d
      → length (sent d r.body) ≡ (elim d [ none ↦ length r.body | some size ↦ size ])
      → put_object x http_time s i bucket key r w ≡ (reply, w')
      → reply.status ≡ 200
      → (o : Object) × (o.size ≡ length (sent d r.body))
        × ((get_object x http_time bucket key [] w').0 ≡ record (object_reply x http_time 200 o) {
          content_length = format_int o.size;
          body = sent d r.body;
        })
  unfolding get_object whole_reply is_eof
  get_object-put_object_200 k s i bucket key r w w' d reply a n short e l h st =
      let (extra, o, put) = put_object-inv s i bucket key r w w' d reply e l h st in
      let got =
        get_object-put_object x k i bucket key r.content_type (sent d r.body) extra w w' o a n short
          put in
      let st =
        put_object-Stored x i bucket key r.content_type (sent d r.body) extra w w' o a n short
          put in
      (o, st.is_size, whole_reply_ok o (sent d r.body) (Objects.get_object x bucket key w') got)
