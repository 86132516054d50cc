-- ===== src/Metadata/Appends.antt =====
-- A STRICT table that is filled in the order of its key.
use Prim.Native.Nat.{Ordering}
use telang.Common.{◌≡◌, refl, none, List, [], ◌∷◌, ◌++◌, arith}
use telang.Metadata.Order.{Key}
use telang.Metadata.Table.{find, put, Above, IsSorted}

module _ {K R : Type 0} (k : Key K) (key : R → K) where
  Above-end :
      (j : K) (t : List R) (r : R) (rest : List R)
      → Above k key j (t ++ r ∷ rest)
      → k.cmp j (key r) ≡ Ordering.lt
  Above-end j [] r rest (a, h) = a
  Above-end j (x ∷ t) r rest (a, h) = Above-end j t r rest h

  -- A key below another one is not above it.
  cmp_gt : (i j : K) → k.cmp i j ≡ Ordering.lt → k.cmp j i ≡ Ordering.gt
  cmp_gt i j h =
      elim (k.cmp j i) as (λ o. k.cmp j i ≡ o → k.cmp j i ≡ Ordering.gt) [
        | Ordering.lt ↦ λ e. ground (arith, k.cmp_trans i j i, k.cmp_refl i)
        | Ordering.eq ↦ λ e. ground (arith, k.eq_of_cmp j i, k.cmp_refl i)
        | Ordering.gt ↦ λ e. e
      ]
        refl

  pub put_end :
      (t : List R) (r : R) (rest : List R)
      → IsSorted k key (t ++ r ∷ rest)
      → put k key r t ≡ t ++ r ∷ []
  unfolding put
  put_end [] r rest h = refl
  put_end (x ∷ t) r rest (a, h) =
      ground (arith, cmp_gt (key x) (key r), Above-end (key x) t r rest a, put_end t r rest h)

  pub find_end :
      (t : List R) (r : R) (rest : List R)
      → IsSorted k key (t ++ r ∷ rest)
      → find k key (key r) t ≡ none
  unfolding find
  find_end [] r rest h = refl
  find_end (x ∷ t) r rest (a, h) =
      ground (arith, cmp_gt (key x) (key r), Above-end (key x) t r rest a, find_end t r rest h)
