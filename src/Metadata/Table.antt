-- ===== src/Metadata/Table.antt =====
-- A STRICT table with a primary key: its rows, in the order of the key. `INSERT … ON CONFLICT DO
-- UPDATE` is `put`, `DELETE … WHERE key = ?` is `remove`, and `ORDER BY key` is the list itself.
use Prim.Native.Nat.{Ordering}
use telang.Common.{◌≡◌, ◌≢◌, refl, Bool, true, false, Option, none, some, List, [], ◌∷◌, arith}
use telang.Metadata.Order.{Key}

pub ordering_is_eq : Ordering → Bool
ordering_is_eq Ordering.eq = true
ordering_is_eq o = false

module _ {K R : Type 0} (k : Key K) (key : R → K) where
  unfoldable pub find : K → List R → Option R
  find j [] = none
  find j (r ∷ t) = elim (k.cmp j (key r)) [ Ordering.eq ↦ some r | _ ↦ find j t ]

  unfoldable pub put : R → List R → List R
  put r [] = r ∷ []
  put r (x ∷ t) = elim (k.cmp (key r) (key x)) [
    | Ordering.lt ↦ r ∷ x ∷ t
    | Ordering.eq ↦ r ∷ t
    | Ordering.gt ↦ x ∷ put r t
  ]

  unfoldable pub remove : K → List R → List R
  remove j [] = []
  remove j (x ∷ t) = elim (k.cmp j (key x)) [ Ordering.eq ↦ remove j t | _ ↦ x ∷ remove j t ]

  -- A later row has a larger key.
  abbrev pub Above : K → List R → Type 0
  Above j [] = Unit
  Above j (x ∷ t) = (k.cmp j (key x) ≡ Ordering.lt) × Above j t

  abbrev pub IsSorted : List R → Type 0
  IsSorted [] = Unit
  IsSorted (x ∷ t) = Above (key x) t × IsSorted t

  pub find-put_self : (r : R) (t : List R) → find (key r) (put r t) ≡ some r
  unfolding find put
  find-put_self r [] = ground (arith, k.cmp_refl (key r))
  find-put_self r (x ∷ t) = ground (arith, k.cmp_refl (key r), find-put_self r t)

  pub find-put_ne : (j : K) (r : R) (t : List R) → j ≢ key r → find j (put r t) ≡ find j t
  unfolding find put
  find-put_ne j r [] h = ground (arith, k.eq_of_cmp j (key r))
  find-put_ne j r (x ∷ t) h =
      ground (arith, k.eq_of_cmp j (key r), k.eq_of_cmp (key r) (key x), find-put_ne j r t h)

  pub find-remove_self : (j : K) (t : List R) → find j (remove j t) ≡ none
  unfolding find remove
  find-remove_self j [] = refl
  find-remove_self j (x ∷ t) = ground (arith, find-remove_self j t)

  pub find-remove_ne : (i j : K) (t : List R) → i ≢ j → find i (remove j t) ≡ find i t
  unfolding find remove
  find-remove_ne i j [] h = refl
  find-remove_ne i j (x ∷ t) h =
      ground (arith, k.eq_of_cmp i (key x), k.eq_of_cmp j (key x), find-remove_ne i j t h)

  Above-put :
      (j : K) (r : R) (t : List R) → k.cmp j (key r) ≡ Ordering.lt → Above j t → Above j (put r t)
  unfolding put
  Above-put j r [] h a = (h, tt)
  Above-put j r (x ∷ t) h (b, a) = ground (arith, Above-put j r t h a)

  Above-trans : (i j : K) (t : List R) → k.cmp i j ≡ Ordering.lt → Above j t → Above i t
  Above-trans i j [] h a = tt
  Above-trans i j (x ∷ t) h (b, a) = (k.cmp_trans i j (key x) h b, Above-trans i j t h a)

  Above-remove : (i j : K) (t : List R) → Above i t → Above i (remove j t)
  unfolding remove
  Above-remove i j [] a = tt
  Above-remove i j (x ∷ t) (b, a) = ground (arith, Above-remove i j t a)

  pub put-IsSorted : (r : R) (t : List R) → IsSorted t → IsSorted (put r t)
  unfolding put
  put-IsSorted r [] h = (tt, tt)
  put-IsSorted r (x ∷ t) (a, h) = ground (
    arith,
    put-IsSorted r t h,
    Above-put (key x) r t,
    k.cmp_flip (key r) (key x),
    k.eq_of_cmp (key r) (key x),
    Above-trans (key r) (key x) t,
  )

  pub remove-IsSorted : (j : K) (t : List R) → IsSorted t → IsSorted (remove j t)
  unfolding remove
  remove-IsSorted j [] h = tt
  remove-IsSorted j (x ∷ t) (a, h) =
      ground (arith, remove-IsSorted j t h, Above-remove (key x) j t a)
