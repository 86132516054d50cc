-- ===== src/Metadata/Refinement.antt =====
-- internal/metadata/metadata.go: the objects' statements against a map from keys to objects.
use mathlib.Core.Path.{ap₂}
use telang.Common.{
  ℕ, ◌≡◌, ◌≢◌, refl, ap, ◌∙◌, true, false, ◌&&◌, Option, none, some, List, [], ◌∷◌, Str, str_eq,
  eq_of_str_eq, str_eq_refl, if◌then◌else◌, Result, ok, err, arith, inl, inr, Option-cases,
  Bool-cases,
}
use telang.Metadata.Table.{find, find-put_self, find-put_ne, find-remove_self, find-remove_ne}
use telang.Metadata.Store.{
  Db, Object, MetaError, object_order, object_key, put_object, get_object, delete_object,
}
use telang.Metadata.Laws.{stamped, put_object-stamped}

-- The promise of the store: a map from a bucket and a key to an object.
abbrev pub Shelf : Type 0
Shelf = Str → Str → Option Object

pub data Op : Type 0 where
  put_op : (now : ℕ) (created : Option ℕ) (o : Object) → Op
  get_op : (bucket key : Str) → Op
  delete_op : (bucket key : Str) → Op

-- What an operation answers: an object, or that there is none. A PUT answers nothing.
abbrev pub answer : Result MetaError Object → Option Object
answer (ok o) = some o
answer (err e) = none

-- One operation on the map.
unfoldable pub shelf_step : Op → Shelf → Option Object × Shelf
shelf_step (put_op now created o) f = (
  none,
  λ b k. if str_eq b o.bucket && str_eq k o.key then some (stamped now created o) else f b k,
)
shelf_step (get_op bucket key) f = (f bucket key, f)
shelf_step (delete_op bucket key) f =
    (f bucket key, λ b k. if str_eq b bucket && str_eq k key then none else f b k)

-- One operation of the store.
unfoldable pub store_step : Op → Db → Option Object × Db
store_step (put_op now created o) db = (none, put_object now created o db)
store_step (get_op bucket key) db = (answer (get_object bucket key db), db)
store_step (delete_op bucket key) db =
    let (gone, db') = delete_object bucket key db in (answer gone, db')

unfoldable pub shelf_run : List Op → Shelf → List (Option Object)
unfolding shelf_step
shelf_run [] f = []
shelf_run (op ∷ ops) f = (shelf_step op f).0 ∷ shelf_run ops (shelf_step op f).1

unfoldable pub store_run : List Op → Db → List (Option Object)
unfolding store_step
store_run [] db = []
store_run (op ∷ ops) db = (store_step op db).0 ∷ store_run ops (store_step op db).1

-- The objects' table holds the map.
pub record Holds (db : Db) (f : Shelf) : Type 0 where
  pub holds : (b k : Str) → find object_order object_key (b, k) db.objects ≡ f b k

get_object-answer :
    (b k : Str) (db : Db)
    → answer (get_object b k db) ≡ find object_order object_key (b, k) db.objects
unfolding get_object
get_object-answer b k db =
    ground (arith, Option-cases (find object_order object_key (b, k) db.objects))

store_step-answer :
    (op : Op) (db : Db) (f : Shelf) → Holds db f → (store_step op db).0 ≡ (shelf_step op f).0
unfolding store_step shelf_step delete_object
store_step-answer (put_op now created o) db f h = refl
store_step-answer (get_op b k) db f h = get_object-answer b k db ∙ h.holds b k
store_step-answer (delete_op b k) db f h =
    ground (arith, h.holds b k, Option-cases (find object_order object_key (b, k) db.objects))

same_key : (b k c l : Str) → (str_eq b c && str_eq k l) ≡ true → ◌≡◌ {A = Str × Str} (b, k) (c, l)
same_key b k c l h =
    ap₂ (λ y z. (y, z)) (eq_of_str_eq b c (ground arith)) (eq_of_str_eq k l (ground arith))

other_key : (b k c l : Str) → (str_eq b c && str_eq k l) ≡ false → ◌≢◌ {A = Str × Str} (b, k) (c, l)
other_key b k c l h e = ground (
  arith,
  str_eq_refl c,
  str_eq_refl l,
  ap (λ (z : Str × Str). str_eq z.0 c) e,
  ap (λ (z : Str × Str). str_eq z.1 l) e,
)

abbrev look : Str × Str → Db → Option Object
look z d = find object_order object_key z d.objects

module _ (db : Db) where
  look-put_self :
      (now : ℕ) (created : Option ℕ) (o : Object)
      → look (o.bucket, o.key) (put_object now created o db) ≡ some (stamped now created o)
  look-put_self now none o =
      rw (put_object-stamped now none o db)
        (find-put_self object_order object_key (stamped now none o) db.objects)
  look-put_self now (some t) o =
      rw (put_object-stamped now (some t) o db)
        (find-put_self object_order object_key (stamped now (some t) o) db.objects)

  look-put_ne :
      (now : ℕ) (created : Option ℕ) (o : Object) (z : Str × Str)
      → z ≢ (o.bucket, o.key)
      → look z (put_object now created o db) ≡ look z db
  look-put_ne now none o z h =
      rw (put_object-stamped now none o db)
        (find-put_ne object_order object_key z (stamped now none o) db.objects h)
  look-put_ne now (some t) o z h =
      rw (put_object-stamped now (some t) o db)
        (find-put_ne object_order object_key z (stamped now (some t) o) db.objects h)

  look-delete_self : (b k : Str) → look (b, k) (delete_object b k db).1 ≡ none
  unfolding delete_object
  look-delete_self b k = elim (Option-cases (find object_order object_key (b, k) db.objects)) [
    | inl e ↦ rw (e, delete_object) e
    | inr (o, e) ↦
        rw (e, delete_object) (find-remove_self object_order object_key (b, k) db.objects)
  ]

  look-delete_ne :
      (b k : Str) (z : Str × Str) → z ≢ (b, k) → look z (delete_object b k db).1 ≡ look z db
  unfolding delete_object
  look-delete_ne b k z h = elim (Option-cases (find object_order object_key (b, k) db.objects)) [
    | inl e ↦ rw (e, delete_object) refl
    | inr (o, e) ↦
        rw (e, delete_object) (find-remove_ne object_order object_key z (b, k) db.objects h)
  ]

store_step-Holds :
    (op : Op) (db : Db) (f : Shelf) → Holds db f → Holds (store_step op db).1 (shelf_step op f).1
unfolding store_step shelf_step
store_step-Holds (put_op now created o) db f h = record {
  holds = λ b k. elim (Bool-cases (str_eq b o.bucket && str_eq k o.key)) [
    | inl e ↦ rw e (
        ap (λ z. look z (put_object now created o db)) (same_key b k o.bucket o.key e)
        ∙ look-put_self db now created o)
    | inr e ↦
        rw e (look-put_ne db now created o (b, k) (other_key b k o.bucket o.key e) ∙ h.holds b k)
  ];
}
store_step-Holds (get_op b k) db f h = h
store_step-Holds (delete_op bucket key) db f h = record {
  holds = λ b k. elim (Bool-cases (str_eq b bucket && str_eq k key)) [
    | inl e ↦ rw e (
        ap (λ z. look z (delete_object bucket key db).1) (same_key b k bucket key e)
        ∙ look-delete_self db bucket key)
    | inr e ↦ rw e (look-delete_ne db bucket key (b, k) (other_key b k bucket key e) ∙ h.holds b k)
  ];
}

-- When a map from buckets and keys to objects agrees with the objects table, every sequence of
-- PutObject, GetObject and DeleteObject on the store gives the answers that it gives on the map.
pub store_run-shelf_run :
    (ops : List Op) (db : Db) (f : Shelf) → Holds db f → store_run ops db ≡ shelf_run ops f
unfolding store_run shelf_run
store_run-shelf_run [] db f h = refl
store_run-shelf_run (op ∷ ops) db f h =
    rw
      (
        store_step-answer op db f h,
        store_run-shelf_run ops (store_step op db).1 (shelf_step op f).1
            (store_step-Holds op db f h),
      )
      refl
