-- ===== src/SigV4/Order.antt =====
-- internal/sigv4/sigv4.go: the order of the parameters of a canonical query.
use mathlib.Core.List.{Perm, foldr}
use mathlib.Core.List.Perm
use mathlib.Core.List
use native.Mathlib.Nat.{ℕ_set}
use telang.Common.{◌≡◌, refl, sym, ap, ◌∙◌, [], ◌∷◌, List, Str, map, codes, arith}
use telang.Metadata.Order.{Key}
use telang.SigV4.Text.{join, split}
use telang.SigV4.Canonical.{
  insert, sort, pair_order, escaped_pair, print_pair, canonical_parts, canonical_query_raw,
  non_empty_parts,
}

module _ {K : Type 0} (k : Key K) where
  insert-insert :
      (a b : K) (t : List K) → insert k.cmp a (insert k.cmp b t) ≡ insert k.cmp b (insert k.cmp a t)
  unfolding insert
  insert-insert a b [] = ground (
    arith,
    k.cmp_flip a b,
    k.cmp_flip b a,
    k.eq_of_cmp a b,
    k.eq_of_cmp b a,
    k.cmp_refl a,
    k.cmp_refl b,
    k.cmp_trans a b a,
  )
  insert-insert a b (y ∷ t) = ground (
    arith,
    insert-insert a b t,
    k.cmp_flip a b,
    k.cmp_flip b a,
    k.eq_of_cmp a b,
    k.eq_of_cmp b a,
    k.cmp_refl a,
    k.cmp_refl b,
    k.cmp_trans a b a,
    k.cmp_flip a y,
    k.cmp_flip b y,
    k.eq_of_cmp a y,
    k.eq_of_cmp b y,
    k.cmp_trans a b y,
    k.cmp_trans b a y,
    k.cmp_trans y a b,
    k.cmp_trans y b a,
    k.cmp_trans y a y,
    k.cmp_trans y b y,
    k.cmp_refl y,
  )

  sort-foldr : (t : List K) → sort k.cmp t ≡ foldr (insert k.cmp) [] t
  unfolding sort
  sort-foldr [] = refl
  sort-foldr (x ∷ t) = ap (insert k.cmp x) (sort-foldr t)

  pub sort-perm : IsSet K → (s t : List K) → Perm s t → sort k.cmp s ≡ sort k.cmp t
  sort-perm is_set s t p =
      sort-foldr s
      ∙ Perm.foldr-eq (List.is_set is_set) (insert k.cmp) insert-insert p []
      ∙ sym (sort-foldr t)

pairs_set : IsSet (Str × Str)
pairs_set = hlevel ℕ_set

pub canonical_parts-perm : (s t : List Str) → Perm s t → canonical_parts s ≡ canonical_parts t
unfolding canonical_parts
canonical_parts-perm s t p =
    ap (λ (l : List (Str × Str)). join (codes "&") (map print_pair l))
      (sort-perm pair_order pairs_set _ _ (Perm.map escaped_pair p))

whole_query : (q : Str) → canonical_query_raw q ≡ canonical_parts (non_empty_parts (split b'&' q))
unfolding canonical_query_raw split non_empty_parts canonical_parts sort join
whole_query [] = refl
whole_query (c ∷ q) = refl

-- Two raw queries whose non-empty parts are the same up to their order have the same canonical
-- query.
pub canonical_query_raw_perm :
    (q q' : Str)
    → Perm (non_empty_parts (split b'&' q)) (non_empty_parts (split b'&' q'))
    → canonical_query_raw q ≡ canonical_query_raw q'
canonical_query_raw_perm q q' p = whole_query q ∙ canonical_parts-perm _ _ p ∙ sym (whole_query q')
