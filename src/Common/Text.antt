-- ===== src/Common/Text.antt =====
-- What the source uses of Go's `strings` and `strconv`, over strings as lists of numbers.
use Prim.Native.Nat.{ℕ, zero, suc, ◌+◌, ◌-◌, ◌*◌, ◌%◌, ◌^◌, ◌<◌}
use mathlib.Core.Path.{◌≡◌, refl}
use mathlib.Core.Logic.{◌↔◌, ◌≢◌}
use mathlib.Core.Bool.{Bool, true, false, ◌&&◌}
use mathlib.Core.Option
use mathlib.Core.Option.{Option, none, some}
use mathlib.Core.List.{[], ◌∷◌, ◌++◌}
use native.Mathlib.Omega.{arith}
use telang.Common.Tests.{Str, ltb, leb, ◌==◌, if◌then◌else◌, str_eq}
use telang.Common.Lists.{length, take, drop}

pub data ℤ : Type 0 where
  pos : ℕ → ℤ
  negsuc : ℕ → ℤ

-- `n == 0`
unfoldable pub is_zero : ℤ → Bool
is_zero (pos zero) = true
is_zero (pos (suc n)) = false
is_zero (negsuc n) = false

-- A number of 64 bits, read as a signed one.
unfoldable pub int64 : ℕ → ℤ
int64 n = let m = n % 2 ^ 64 in if ltb m (2 ^ 63) then pos m else negsuc (2 ^ 64 - 1 - m)

-- `strings.HasPrefix(s, prefix)`
unfoldable pub has_prefix : Str → Str → Bool
has_prefix s [] = true
has_prefix [] (p ∷ ps) = false
has_prefix (c ∷ s) (p ∷ ps) = c == p && has_prefix s ps

-- `strings.TrimPrefix`
unfoldable pub trim_prefix : Str → Str → Str
unfolding has_prefix
trim_prefix s p = if has_prefix s p then drop (length p) s else s

-- `strings.IndexByte(s, c)`, with `none` for -1.
unfoldable pub index_byte : Str → ℕ → Option ℕ
index_byte [] c = none
index_byte (x ∷ s) c = if x == c then some 0 else Option.map suc (index_byte s c)

-- `strings.Index(s, sub)`, with `none` for -1.
unfoldable pub index : Str → Str → Option ℕ
unfolding has_prefix
index [] sub = if has_prefix [] sub then some 0 else none
index (x ∷ s) sub = if has_prefix (x ∷ s) sub then some 0 else Option.map suc (index s sub)

-- `strings.Contains`
unfoldable pub contains : Str → Str → Bool
unfolding index
contains s sub = elim (index s sub) [ none ↦ false | some i ↦ true ]

-- The digits of a decimal number behind `acc`; `none` at any other byte.
unfoldable pub digits_from : ℕ → Str → Option ℕ
digits_from acc [] = some acc
digits_from acc (c ∷ s) =
    let rest = digits_from (acc * 10 + (c - b'0')) s in
    if leb b'0' c && leb c b'9' then rest else none

unfoldable pub decimal : Str → Option ℕ
unfolding digits_from
decimal [] = none
decimal (c ∷ s) = digits_from 0 (c ∷ s)

-- `strconv.ParseInt(s, 10, 64)`, with `none` for a syntax or a range error.
unfoldable pub signed : Bool → Option ℕ → Option ℤ
signed neg none = none
signed false (some n) = if ltb n (2 ^ 63) then some (pos n) else none
signed true (some zero) = some (pos 0)
signed true (some (suc n)) = if leb (suc n) (2 ^ 63) then some (negsuc n) else none

unfoldable pub parse_int : Str → Option ℤ
unfolding decimal signed
parse_int [] = none
parse_int (c ∷ s) =
    if c == b'-'
    then signed true (decimal s)
    else if c == b'+'
    then signed false (decimal s)
    else signed false (decimal (c ∷ s))

-- A parsed number is an `int64`.
pub decimal-pos : (s : Str) (n : ℕ) → parse_int s ≡ some (pos n) → n < 2 ^ 63
unfolding parse_int
decimal-pos [] n h = ground arith
decimal-pos (c ∷ s) n h = ground arith

pub str_eq_refl : (s : Str) → str_eq s s ≡ true
unfolding str_eq
str_eq_refl [] = refl
str_eq_refl (c ∷ s) = ground (arith, str_eq_refl s)

pub eq_of_str_eq : (s t : Str) → str_eq s t ≡ true → s ≡ t
unfolding str_eq
eq_of_str_eq [] [] h = refl
eq_of_str_eq [] (y ∷ t) h = ground arith
eq_of_str_eq (x ∷ s) [] h = ground arith
eq_of_str_eq (x ∷ s) (y ∷ t) h = ground (arith, eq_of_str_eq s t)

pub str_eq_iff : (s t : Str) → (str_eq s t ≡ true) ↔ (s ≡ t)
str_eq_iff s t = (eq_of_str_eq s t, λ e. subst_eq e)
  where
    subst_eq : s ≡ t → str_eq s t ≡ true
    subst_eq e = rw (← e) (str_eq_refl s)

abbrev pub Lacks : ℕ → Str → Type 0
Lacks c [] = Unit
Lacks c (x ∷ s) = (x ≢ c) × Lacks c s

pub index_byte-Lacks : (s t : Str) (c : ℕ) → Lacks c s → index_byte (s ++ c ∷ t) c ≡ some (length s)
unfolding index_byte
index_byte-Lacks [] t c h = ground arith
index_byte-Lacks (d ∷ s) t c (a, h) = ground (arith, index_byte-Lacks s t c h)

pub index_byte-none : (s : Str) (c : ℕ) → Lacks c s → index_byte s c ≡ none
unfolding index_byte
index_byte-none [] c h = refl
index_byte-none (d ∷ s) c (a, h) = ground (arith, index_byte-none s c h)

-- What stands before the first `c` holds no `c`, and `s` is cut at it.
pub index_byte-cut :
    (s : Str) (c i : ℕ)
    → index_byte s c ≡ some i
    → Lacks c (take i s) × (take i s ++ c ∷ drop (suc i) s ≡ s)
unfolding index_byte
index_byte-cut [] c i h = ground arith
index_byte-cut (x ∷ s) c zero h = ground arith
index_byte-cut (x ∷ s) c (suc i) h = ground (arith, index_byte-cut s c i)

pub Lacks-none : (s : Str) (c : ℕ) → index_byte s c ≡ none → Lacks c s
unfolding index_byte
Lacks-none [] c h = tt
Lacks-none (x ∷ s) c h = ground (arith, Lacks-none s c)
