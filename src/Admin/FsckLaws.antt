-- ===== src/Admin/FsckLaws.antt =====
-- cmd/telang/fsck.go: which rows `fsck --fix` removes.
use Prim.Native.Nat.{Ordering}
use telang.Common.{
  ◌≡◌, refl, ap, ◌∙◌, Bool, true, false, ◌&&◌, Option, none, some, List, [], ◌∷◌, Str,
  if◌then◌else◌, Result, ok, err, arith, inl, inr, Option-cases,
}
use telang.Metadata.Order.{str_key}
use telang.Metadata.Table.{find, remove, Above, IsSorted, find-remove_self, find-remove_ne}
use telang.Metadata.Store.{
  Db, Object, object_key, object_order, get_object, delete_object, not_found,
}
use telang.Storage.Interface.{Ref, StorageError}
use telang.Admin.Fsck.{
  Orphan, Report, orphan_key, object_ref, add_answer, walk, remove_orphans, run_fsck,
}

-- The backend says that the message is gone.
unfoldable pub is_gone : Result StorageError Bool → Bool
is_gone (ok false) = true
is_gone r = false

abbrev find_object : Str × Str → List Object → Option Object
find_object k os = find object_order object_key k os

abbrev find_orphan : Str × Str → List Orphan → Option Orphan
find_orphan k os = find object_order orphan_key k os

Above-none :
    (k : Str × Str) (os : List Object)
    → Above object_order object_key k os
    → find_object k os ≡ none
unfolding find
Above-none k [] h = refl
Above-none k (o ∷ os) (a, h) = ground (arith, Above-none k os h)

abbrev has_orphan : Str × Str → List Orphan → Bool
has_orphan k os = elim (find_orphan k os) [ some o ↦ true | none ↦ false ]

abbrev orphan_of : Object → Orphan
orphan_of o = record { bucket = o.bucket; key = o.key; message_id = o.message_id }

add_answer_orphans :
    (o : Object) (a : Result StorageError Bool) (r : Report)
    → (add_answer o a r).orphans ≡ (if is_gone a then orphan_of o ∷ r.orphans else r.orphans)
unfolding add_answer is_gone
add_answer_orphans o (err e) r = refl
add_answer_orphans o (ok true) r = refl
add_answer_orphans o (ok false) r = refl

kept_none :
    (k j : Str × Str) (db : Db)
    → find_object j db.objects ≡ none
    → find_object k db.objects
      ≡ elim (object_order.cmp k j) [ Ordering.eq ↦ none | _ ↦ find_object k db.objects ]
kept_none k j db e = ground (arith, same_none, object_order.eq_of_cmp k j)
  where
    same_none : k ≡ j → find_object k db.objects ≡ none
    same_none q = ap (λ i. find_object i db.objects) q ∙ e

removed_find :
    (k j : Str × Str) (os : List Object)
    → find_object k (remove object_order object_key j os)
      ≡ elim (object_order.cmp k j) [ Ordering.eq ↦ none | _ ↦ find_object k os ]
removed_find k j os = ground (
  arith,
  same_none,
  object_order.eq_of_cmp k j,
  same_cmp,
  find-remove_ne object_order object_key k j os,
)
  where
    same_none : k ≡ j → find_object k (remove object_order object_key j os) ≡ none
    same_none q =
        ap (λ i. find_object i (remove object_order object_key j os)) q
        ∙ find-remove_self object_order object_key j os

    same_cmp : k ≡ j → object_order.cmp k j ≡ Ordering.eq
    same_cmp q = ap (λ i. object_order.cmp i j) q ∙ object_order.cmp_refl j

delete_object_find :
    (k j : Str × Str) (db : Db)
    → find_object k (delete_object j.0 j.1 db).1.objects
      ≡ elim (object_order.cmp k j) [ Ordering.eq ↦ none | _ ↦ find_object k db.objects ]
unfolding delete_object
delete_object_find k j db = elim (Option-cases (find_object j db.objects)) [
  | inl e ↦ rw (e, delete_object) (kept_none k j db e)
  | inr (o, e) ↦ rw (e, delete_object) (removed_find k j db.objects)
]

-- The loop of `--fix` removes the rows of its list, and no others.
remove_orphans_find :
    (k : Str × Str) (os : List Orphan) (db : Db)
    → find_object k (remove_orphans os db).1.objects
      ≡ (if has_orphan k os then none else find_object k db.objects)
unfolding remove_orphans find
remove_orphans_find k [] db = refl
remove_orphans_find k (o ∷ os) db =
    let db' = (delete_object o.bucket o.key db).1 in
    rw (remove_orphans_find k os db', delete_object_find k (orphan_key o) db) (ground arith)

module _ {S : Type 0} (exists : Ref → S → Result StorageError Bool × S)
    (answer : Ref → Result StorageError Bool)
    (stable : (r : Ref) (s : S) → exists r s ≡ (answer r, s)) where
  abbrev orphans_of : List Object → S → List Orphan
  orphans_of os s = (walk exists os s).0.orphans

  -- What the walk leaves of a list with a first row.
  orphans_cons :
      (o : Object) (os : List Object) (s : S)
      → orphans_of (o ∷ os) s ≡ (
          if is_gone (answer (object_ref o))
          then orphan_of o ∷ orphans_of os s
          else orphans_of os s)
  unfolding walk
  orphans_cons o os s =
      add_answer_orphans o (exists (object_ref o) s).0
        (walk exists os (exists (object_ref o) s).1).0
      ∙ ap
          (λ (u : Result StorageError Bool × S).
            if is_gone u.0
            then orphan_of o ∷ (walk exists os u.1).0.orphans
            else (walk exists os u.1).0.orphans)
          (stable (object_ref o) s)

  orphans_none :
      (k : Str × Str) (os : List Object) (s : S)
      → find_object k os ≡ none
      → find_orphan k (orphans_of os s) ≡ none
  unfolding find walk
  orphans_none k [] s h = refl
  orphans_none k (o ∷ os) s h = rw (orphans_cons o os s) (ground (arith, orphans_none k os s))

  -- An object is listed if its message is gone.
  has_orphan_of :
      (k : Str × Str) (os : List Object) (s : S)
      → IsSorted object_order object_key os
      → has_orphan k (orphans_of os s)
        ≡ elim (find_object k os) [ some o ↦ is_gone (answer (object_ref o)) | none ↦ false ]
  unfolding find walk
  has_orphan_of k [] s h = refl
  has_orphan_of k (o ∷ os) s (a, h) = rw (orphans_cons o os s) (
      ground (
        arith,
        has_orphan_of k os s h,
        orphans_none k os s,
        Above-none (object_key o) os a,
        object_order.eq_of_cmp k (object_key o),
      ))

  -- With the objects in the strict order of their keys, and a backend whose answers to Exists do
  -- not change, after fsck GetObject finds no object that it did not find before, and the same
  -- row for each other object, except that with --fix it no longer finds one for whose message
  -- the backend has answered that it does not exist; an error of the backend keeps the row.
  pub get_object-run_fsck :
      (fix : Bool) (db : Db) (s : S) (bucket key : Str)
      → IsSorted object_order object_key db.objects
      → get_object bucket key (run_fsck exists fix db s).db ≡ elim (get_object bucket key db) [
        | err e ↦ err e
        | ok o ↦ if fix && is_gone (answer (object_ref o)) then err not_found else ok o
      ]
  unfolding run_fsck get_object
  get_object-run_fsck false db s bucket key h = ground arith
  get_object-run_fsck true db s bucket key h = ground (
    arith,
    remove_orphans_find (bucket, key) (orphans_of db.objects s) db,
    has_orphan_of (bucket, key) db.objects s h,
  )
