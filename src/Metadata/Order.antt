-- ===== src/Metadata/Order.antt =====
-- The orders of the primary keys: SQLite's BINARY collation on text (the order of the code points,
-- which is that of the UTF-8 bytes), on a pair of texts, and on a text with a number.
use Prim.Native.Nat.{compare, Ordering}
use telang.Common.{ℕ, ◌≡◌, refl, [], ◌∷◌, Str, arith}

-- A total order as a three-way comparison.
pub record Key (K : Type 0) : Type 0 where
  pub cmp : K → K → Ordering
  pub cmp_refl : (a : K) → cmp a a ≡ Ordering.eq
  pub eq_of_cmp : (a b : K) → cmp a b ≡ Ordering.eq → a ≡ b
  pub cmp_flip : (a b : K) → cmp a b ≡ Ordering.gt → cmp b a ≡ Ordering.lt
  pub cmp_trans :
      (a b c : K) → cmp a b ≡ Ordering.lt → cmp b c ≡ Ordering.lt → cmp a c ≡ Ordering.lt

-- The first comparison that is not equal decides.
unfoldable pub then_by : Ordering → Ordering → Ordering
then_by Ordering.eq o = o
then_by o o' = o

unfoldable pub cmp_str : Str → Str → Ordering
unfolding then_by
cmp_str [] [] = Ordering.eq
cmp_str [] (y ∷ t) = Ordering.lt
cmp_str (x ∷ s) [] = Ordering.gt
cmp_str (x ∷ s) (y ∷ t) = then_by (compare x y) (cmp_str s t)

pub cmp_str_refl : (s : Str) → cmp_str s s ≡ Ordering.eq
unfolding cmp_str
cmp_str_refl [] = refl
cmp_str_refl (x ∷ s) = ground (arith, cmp_str_refl s)

pub eq_of_cmp_str : (s t : Str) → cmp_str s t ≡ Ordering.eq → s ≡ t
unfolding cmp_str
eq_of_cmp_str [] [] h = refl
eq_of_cmp_str [] (y ∷ t) h = ground arith
eq_of_cmp_str (x ∷ s) [] h = ground arith
eq_of_cmp_str (x ∷ s) (y ∷ t) h = ground (arith, eq_of_cmp_str s t)

pub cmp_str_flip : (s t : Str) → cmp_str s t ≡ Ordering.gt → cmp_str t s ≡ Ordering.lt
unfolding cmp_str
cmp_str_flip [] [] h = ground arith
cmp_str_flip [] (y ∷ t) h = ground arith
cmp_str_flip (x ∷ s) [] h = refl
cmp_str_flip (x ∷ s) (y ∷ t) h = ground (arith, cmp_str_flip s t)

pub cmp_str_trans :
    (s t u : Str)
    → cmp_str s t ≡ Ordering.lt
    → cmp_str t u ≡ Ordering.lt
    → cmp_str s u ≡ Ordering.lt
unfolding cmp_str
cmp_str_trans [] [] u h g = ground arith
cmp_str_trans [] (y ∷ t) [] h g = ground arith
cmp_str_trans [] (y ∷ t) (z ∷ u) h g = refl
cmp_str_trans (x ∷ s) [] u h g = ground arith
cmp_str_trans (x ∷ s) (y ∷ t) [] h g = ground arith
cmp_str_trans (x ∷ s) (y ∷ t) (z ∷ u) h g = ground (arith, cmp_str_trans s t u)

instance abbrev pub str_key : Key Str
str_key = record {
  cmp = cmp_str;
  cmp_refl = cmp_str_refl;
  eq_of_cmp = eq_of_cmp_str;
  cmp_flip = cmp_str_flip;
  cmp_trans = cmp_str_trans;
}

pub compare_refl : (a : ℕ) → compare a a ≡ Ordering.eq
compare_refl a = ground arith

pub eq_of_compare : (a b : ℕ) → compare a b ≡ Ordering.eq → a ≡ b
eq_of_compare a b h = ground arith

pub compare_flip : (a b : ℕ) → compare a b ≡ Ordering.gt → compare b a ≡ Ordering.lt
compare_flip a b h = ground arith

pub compare_trans :
    (a b c : ℕ) → compare a b ≡ Ordering.lt → compare b c ≡ Ordering.lt → compare a c ≡ Ordering.lt
compare_trans a b c h g = ground arith

instance abbrev pub num_key : Key ℕ
num_key = record {
  cmp = compare;
  cmp_refl = compare_refl;
  eq_of_cmp = eq_of_compare;
  cmp_flip = compare_flip;
  cmp_trans = compare_trans;
}

module _ {A B : Type 0} (ka : Key A) (kb : Key B) where
  abbrev pub cmp_pair : A × B → A × B → Ordering
  cmp_pair (a, b) (c, d) = then_by (ka.cmp a c) (kb.cmp b d)

  pub cmp_pair_trans :
      (p q r : A × B)
      → cmp_pair p q ≡ Ordering.lt
      → cmp_pair q r ≡ Ordering.lt
      → cmp_pair p r ≡ Ordering.lt
  unfolding then_by
  cmp_pair_trans (a, b) (c, d) (e, f) h g =
      grind (arith, ka.cmp_trans a c e, kb.cmp_trans b d f, ka.eq_of_cmp a c, ka.eq_of_cmp c e)

  pub cmp_pair_flip : (p q : A × B) → cmp_pair p q ≡ Ordering.gt → cmp_pair q p ≡ Ordering.lt
  unfolding then_by
  cmp_pair_flip (a, b) (c, d) h =
      ground
        (arith, ka.cmp_flip a c, kb.cmp_flip b d, ka.eq_of_cmp a c, ka.cmp_refl a, ka.cmp_refl c)

  pub eq_of_cmp_pair : (p q : A × B) → cmp_pair p q ≡ Ordering.eq → p ≡ q
  unfolding then_by
  eq_of_cmp_pair (a, b) (c, d) h = ground (arith, ka.eq_of_cmp a c, kb.eq_of_cmp b d)

  pub cmp_pair_refl : (p : A × B) → cmp_pair p p ≡ Ordering.eq
  unfolding then_by
  cmp_pair_refl (a, b) = ground (arith, ka.cmp_refl a, kb.cmp_refl b)

  abbrev pub pair_key : Key (A × B)
  pair_key = record {
    cmp = cmp_pair;
    cmp_refl = cmp_pair_refl;
    eq_of_cmp = eq_of_cmp_pair;
    cmp_flip = cmp_pair_flip;
    cmp_trans = cmp_pair_trans;
  }
