-- ===== src/Storage/Interface.antt =====
-- internal/storage/storage.go: `Ref`, `PutResult`, the sentinel errors and the `Backend` interface.
use telang.Common.{ℕ, Str}

pub record Ref : Type 0 where
  pub message_id : ℕ
  pub file_id : Str

pub record PutResult : Type 0 where
  pub ref : Ref
  pub size : ℕ

-- An error of a backend: one that `errors.Is` finds a sentinel in, or another.
pub data StorageError : Type 0 where
  too_large not_found throttled unavailable other_failure : StorageError
