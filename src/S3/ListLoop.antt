-- ===== src/S3/ListLoop.antt =====
-- internal/s3api/list.go: the loop of listObjectsV2 comes to an end.
use Prim.Native.Nat.{Ordering}
use telang.Common.{
  ℕ, zero, suc, ◌+◌, ◌-◌, ◌≤◌, ◌<◌, ◌≡◌, ◌⊎◌, refl, ap, sym, ◌∙◌, Bool, true, false, some, List, [],
  ◌∷◌, Str, length, take, ltb, leb, ◌==◌, if◌then◌else◌, index, trim_prefix, arith, inl, inr,
  Bool-cases, Option-cases,
}
use telang.Metadata.Order.{cmp_str, cmp_str_refl, cmp_str_flip, cmp_str_trans, str_key}
use telang.Metadata.Store.{Db, Object, select, is_listed, is_gt, list_objects}
use telang.S3.Router.{is_empty}
use telang.S3.Listing.{
  Page, Flow, go_on, break_loop, non_empty, counted, add_contents, add_prefix, list_row, list_rows,
  list_loop,
}

abbrev Has : {R : Type 0} → R → List R → Type 0
Has o [] = ⊥
Has o (x ∷ t) = (x ≡ o) ⊎ Has o t

Has-take : {R : Type 0} (n : ℕ) (o : R) (t : List R) → Has o (take n t) → Has o t
Has-take zero o t h = absurd h
Has-take (suc n) o [] h = absurd h
Has-take (suc n) o (x ∷ t) (inl e) = inl e
Has-take (suc n) o (x ∷ t) (inr h) = inr (Has-take n o t h)

Has-if :
    {R : Type 0} (b : Bool) (o x : R) (t : List R)
    → Has o (if b then x ∷ t else t)
    → ((x ≡ o) × (b ≡ true)) ⊎ Has o t
Has-if true o x t (inl e) = inl (e, refl)
Has-if true o x t (inr h) = inr h
Has-if false o x t h = inr h

Has-page :
    {R : Type 0} (b : Bool) (n : ℕ) (o : R) (t : List R)
    → Has o (if◌then◌else◌ {A = List R × Bool} b (take n t, true) (t, false)).0
    → Has o t
Has-page true n o t h = Has-take n o t h
Has-page false n o t h = h

Has-select :
    {R : Type 0} (p : R → Bool) (o : R) (t : List R) → Has o (select p t) → Has o t × (p o ≡ true)
unfolding select
Has-select p o [] h = absurd h
Has-select p o (x ∷ t) h = elim (Has-if (p x) o x (select p t) h) [
  | inl (e, f) ↦ (inl e, rw (← e) f)
  | inr later ↦ (let (a, b) = Has-select p o t later in (inr a, b))
]

Flow-cases : (f : Flow) → ((p : Page) × (f ≡ go_on p)) ⊎ ((p : Page) × (f ≡ break_loop p))
Flow-cases (go_on p) = inl (p, refl)
Flow-cases (break_loop p) = inr (p, refl)

length-select : {R : Type 0} (p : R → Bool) (t : List R) → length (select p t) ≤ length t
unfolding select
length-select p [] = omega arith
length-select p (x ∷ t) = ground (arith, length-select p t)

length-select_le :
    {R : Type 0} (p q : R → Bool) (t : List R)
    → ((r : R) → q r ≡ true → p r ≡ true)
    → length (select q t) ≤ length (select p t)
unfolding select
length-select_le p q [] imp = omega arith
length-select_le p q (x ∷ t) imp = ground (arith, imp x, length-select_le p q t imp)

length-select_lt :
    {R : Type 0} (p q : R → Bool) (o : R) (t : List R)
    → ((r : R) → q r ≡ true → p r ≡ true)
    → Has o t
    → p o ≡ true
    → q o ≡ false
    → length (select q t) < length (select p t)
unfolding select
length-select_lt p q o [] imp h a b = absurd h
length-select_lt p q o (x ∷ t) imp (inl e) a b =
    let a' : p x ≡ true = rw e a in
    let b' : q x ≡ false = rw e b in ground (arith, length-select_le p q t imp)
length-select_lt p q o (x ∷ t) imp (inr h) a b =
    ground (arith, imp x, length-select_lt p q o t imp h a b)

gt_of_cmp_str : (a b : Str) → cmp_str a b ≡ Ordering.lt → cmp_str b a ≡ Ordering.gt
gt_of_cmp_str a b h = go (cmp_str b a) refl
  where
    go : (o : Ordering) → cmp_str b a ≡ o → cmp_str b a ≡ Ordering.gt
    go Ordering.gt e = e
    go Ordering.lt e = absurd (ground (arith, cmp_str_trans a b a h e, cmp_str_refl a))
    go Ordering.eq e =
        absurd (ground (arith, ap (λ z. cmp_str a z) (str_key.eq_of_cmp b a e), cmp_str_refl a))

cmp_str_gt_trans :
    (a b c : Str)
    → cmp_str a b ≡ Ordering.gt
    → cmp_str b c ≡ Ordering.gt
    → cmp_str a c ≡ Ordering.gt
cmp_str_gt_trans a b c h e =
    gt_of_cmp_str c a (cmp_str_trans c b a (cmp_str_flip b c e) (cmp_str_flip a b h))

module _ (db : Db) (bucket prefix delimiter : Str) (max_keys : ℕ) where
  -- The rows that are still ahead.
  abbrev ahead : Str → ℕ
  ahead cursor = length (select (is_listed bucket prefix cursor) db.objects)

  is_listed_trans :
      (cursor after : Str) (r : Object)
      → cmp_str after cursor ≡ Ordering.gt
      → is_listed bucket prefix after r ≡ true
      → is_listed bucket prefix cursor r ≡ true
  unfolding is_listed is_gt
  is_listed_trans cursor after r h e = ground (arith, cmp_str_gt_trans r.key after cursor)

  counted-cursor :
      (more : Bool) (p p' : Page)
      → counted db bucket prefix delimiter max_keys more p ≡ go_on p'
      → p' ≡ p
  unfolding counted
  counted-cursor more p p' h = ground (arith, Bool-cases (leb max_keys p.emitted))

  list_row-cursor :
      (more : Bool) (o : Object) (p p' : Page)
      → list_row db bucket prefix delimiter max_keys more o p ≡ go_on p'
      → p'.cursor ≡ o.key
  unfolding list_row add_contents add_prefix
  list_row-cursor more o p p' h = ground (
    arith,
    counted-cursor more,
    Option-cases (index (trim_prefix o.key prefix) delimiter),
    Bool-cases (is_empty delimiter),
  )

  rows_after :
      (more : Bool) (o : Object) (batch : List Object) (p p' q : Page)
      → list_row db bucket prefix delimiter max_keys more o p ≡ go_on q
      → list_rows db bucket prefix delimiter max_keys more (o ∷ batch) p ≡ go_on p'
      → list_rows db bucket prefix delimiter max_keys more batch q ≡ go_on p'
  unfolding list_rows
  rows_after more o batch p p' q f h =
      let opened : list_rows db bucket prefix delimiter max_keys more (o ∷ batch) p
          ≡ list_rows db bucket prefix delimiter max_keys more batch q =
        rw (f, list_rows) refl in
      sym opened ∙ h

  -- A batch that was gone through leaves the cursor at one of its rows.
  list_rows-cursor :
      (more : Bool) (batch : List Object) (p p' : Page)
      → list_rows db bucket prefix delimiter max_keys more batch p ≡ go_on p'
      → non_empty batch ≡ true
      → (o : Object) × Has o batch × (p'.cursor ≡ o.key)
  unfolding list_rows non_empty
  list_rows-cursor more [] p p' h e = absurd (ground arith)
  list_rows-cursor more (o ∷ []) p p' h e =
      elim (Flow-cases (list_row db bucket prefix delimiter max_keys more o p)) [
        | inl (q, f) ↦
            (let same : p' ≡ q = ground arith in
              (o, inl refl, rw same (list_row-cursor more o p q f)))
        | inr (q, f) ↦ absurd (ground arith)
      ]
  list_rows-cursor more (o ∷ o' ∷ batch) p p' h e =
      elim (Flow-cases (list_row db bucket prefix delimiter max_keys more o p)) [
        | inl (q, f) ↦
            (let (r, has, c) =
                list_rows-cursor more (o' ∷ batch) q p' (rows_after more o (o' ∷ batch) p p' q f h)
                  refl in
              (r, inr has, c))
        | inr (q, f) ↦ absurd (ground arith)
      ]

  -- The batch of `ListObjects` holds rows behind the cursor.
  list_objects-Has :
      (cursor : Str) (n : ℕ) (o : Object)
      → Has o (list_objects bucket prefix cursor n db).0
      → Has o (select (is_listed bucket prefix cursor) db.objects)
  unfolding list_objects
  list_objects-Has cursor n o h =
      let m = if n == 0 then 1000 else n in
      let sel = select (is_listed bucket prefix cursor) db.objects in
      Has-take (m + 1) o sel (Has-page (ltb m (length (take (m + 1) sel))) m o (take (m + 1) sel) h)

  nearer :
      (p q : Page)
      → (let t = list_objects bucket prefix p.cursor (max_keys - p.emitted) db in
          list_rows db bucket prefix delimiter max_keys t.1 t.0 p ≡ go_on q)
      → non_empty (list_objects bucket prefix p.cursor (max_keys - p.emitted) db).0 ≡ true
      → ahead q.cursor < ahead p.cursor
  unfolding is_listed is_gt
  nearer p q f e =
      let (o, has, c) = list_rows-cursor _ _ p q f e in
      let (there, listed) =
        Has-select (is_listed bucket prefix p.cursor) o db.objects
          (list_objects-Has p.cursor _ o has) in
      let behind : cmp_str o.key p.cursor ≡ Ordering.gt = ground arith in
      rw c (
        length-select_lt (is_listed bucket prefix p.cursor) (is_listed bucket prefix o.key) o
          db.objects (λ r. is_listed_trans p.cursor o.key r behind) there listed
          (ground (arith, cmp_str_refl o.key)))

  -- Fuel for one round more than there are rows behind the cursor is enough.
  list_loop-ends :
      (fuel : ℕ) (p : Page)
      → ahead p.cursor < fuel
      → (p' : Page) × (list_loop db bucket prefix delimiter max_keys fuel p ≡ some p')
  unfolding list_loop
  list_loop-ends zero p h = absurd (omega arith)
  list_loop-ends (suc fuel) p h =
      let batch = (list_objects bucket prefix p.cursor (max_keys - p.emitted) db).0 in
      let more = (list_objects bucket prefix p.cursor (max_keys - p.emitted) db).1 in
      elim (Bool-cases (non_empty batch)) [
        | inr e ↦ rw e (p, refl)
        | inl e ↦
            rw e (elim (Flow-cases (list_rows db bucket prefix delimiter max_keys more batch p)) [
              | inr (q, f) ↦ rw f (q, refl)
              | inl (q, f) ↦ rw f (elim (Bool-cases more) [
                | inr l ↦ rw l (q, refl)
                | inl m ↦ rw m (list_loop-ends fuel q (omega (arith, nearer p q f e)))
              ])
            ])
      ]

  -- With more rounds of fuel than the index has objects, the loop of listObjectsV2 returns a
  -- page, from any cursor, prefix, delimiter and number of keys.
  pub list_loop_total :
      (fuel : ℕ) (p : Page)
      → length db.objects < fuel
      → (p' : Page) × (list_loop db bucket prefix delimiter max_keys fuel p ≡ some p')
  list_loop_total fuel p h =
      list_loop-ends fuel p
        (omega (arith, length-select (is_listed bucket prefix p.cursor) db.objects))
