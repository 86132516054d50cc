-- ===== src/Admin/Fsck.antt =====
-- cmd/telang/fsck.go, behind the configuration.
use telang.Common.{
  ℕ, suc, Bool, true, false, List, [], ◌∷◌, Str, ltb, if◌then◌else◌, Result, ok, err,
}
use telang.Metadata.Store.{Db, Object, delete_object}
use telang.Storage.Interface.{Ref, StorageError}

-- `orphan`
pub record Orphan : Type 0 where
  pub bucket : Str
  pub key : Str
  pub message_id : ℕ

-- What the walk counts, with its list of orphans.
pub record Report : Type 0 where
  pub checked : ℕ
  pub orphans : List Orphan
  pub query_errors : ℕ

abbrev pub orphan_key : Orphan → Str × Str
orphan_key o = (o.bucket, o.key)

abbrev pub object_ref : Object → Ref
object_ref o = record { message_id = o.message_id; file_id = o.file_id }

-- What the answer of `Exists` on a row adds to the report of the later rows.
unfoldable pub add_answer : Object → Result StorageError Bool → Report → Report
add_answer o (err e) r = record r { checked = suc r.checked; query_errors = suc r.query_errors }
add_answer o (ok true) r = record r { checked = suc r.checked }
add_answer o (ok false) r = record r {
  checked = suc r.checked;
  orphans = record { bucket = o.bucket; key = o.key; message_id = o.message_id } ∷ r.orphans;
}

-- The walk over the objects, with `Exists` and the backend's state.
unfoldable pub walk :
    {S : Type 0} → (Ref → S → Result StorageError Bool × S) → List Object → S → Report × S
unfolding add_answer
walk exists [] s = (record { checked = 0; orphans = []; query_errors = 0 }, s)
walk exists (o ∷ os) s =
    let (answer, s') = exists (object_ref o) s in
    let (r, s'') = walk exists os s' in (add_answer o answer r, s'')

-- The loop of `--fix`, with the count of the rows that it removes.
unfoldable pub remove_orphans : List Orphan → Db → ℕ × Db
remove_orphans [] db = (0, db)
remove_orphans (o ∷ os) db =
    let (gone, db') = delete_object o.bucket o.key db in
    let (n, db'') = remove_orphans os db' in (elim gone [ ok x ↦ suc n | err e ↦ n ], db'')

-- How `fsck` ends: the report, the rows removed, and whether it returns an error.
pub record Outcome (S : Type 0) : Type 0 where
  pub report : Report
  pub removed : ℕ
  pub fails : Bool
  pub db : Db
  pub backend : S

-- `runFsck`
unfoldable pub run_fsck :
    {S : Type 0} → (Ref → S → Result StorageError Bool × S) → Bool → Db → S → Outcome S
unfolding walk remove_orphans
run_fsck exists fix db s =
    let (r, s') = walk exists db.objects s in
    let (n, db') = if fix then remove_orphans r.orphans db else (0, db) in
    record { report = r; removed = n; fails = ltb 0 r.query_errors; db = db'; backend = s' }
