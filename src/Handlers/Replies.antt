-- ===== src/Handlers/Replies.antt =====
-- internal/s3api/handlers.go: what a handler writes to the client.
use telang.Common.{ℕ, Bool, true, Option, none, some, [], ◌∷◌, ◌++◌, Str, has_prefix, if◌then◌else◌}
use telang.S3.Errors.{S3Error, http_status, ServiceError, write_service_err}

-- The status, the error document, the headers that depend on the object, the body, and whether the
-- body's stream came to its end without an error. An empty header is one that is not set.
pub record Reply : Type 0 where
  pub status : ℕ
  pub error : Option S3Error
  pub etag : Str
  pub content_length : Str
  pub content_range : Str
  pub content_type : Str
  pub last_modified : Str
  pub body : Str
  pub is_complete : Bool

-- `w.WriteHeader(status)` and nothing else.
abbrev pub status_only : ℕ → Reply
status_only status = record {
  status = status;
  error = none;
  etag = [];
  content_length = [];
  content_range = [];
  content_type = [];
  last_modified = [];
  body = [];
  is_complete = true;
}

-- `writeErr`
unfoldable pub write_err : S3Error → Reply
write_err e = record (status_only (http_status e)) { error = some e }

-- `writeServiceErr`
unfoldable pub reply_of : ServiceError → Reply
unfolding write_err
reply_of e = write_err (write_service_err e)

-- `quote`
unfoldable pub quote : Str → Str
quote s = if has_prefix s (b'"' ∷ []) then s else b'"' ∷ s ++ b'"' ∷ []
