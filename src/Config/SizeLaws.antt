-- ===== src/Config/SizeLaws.antt =====
-- internal/config/config.go: ParseSize of a whole number with its unit.
use telang.Common.{
  ℕ, ◌+◌, Bool, ◌&&◌, ◌||◌, leb, str_eq, if◌then◌else◌, ◌*◌, ◌^◌, ◌≤◌, ◌≡◌, ◌≢◌, refl, ap, sym, ◌∙◌,
  true, false, some, [], ◌∷◌, ◌++◌, Str, codes, length, take, drop, take-append, drop-append, ok,
  arith, append-nil,
}
use telang.Common.Decimal.{format_int, AreDigits, AreDigits-format_int, format_int-ne-nil}
use telang.S3.Router.{is_empty}
use telang.Config.Sizes.{Numbers, units, unit_in, cut_of, size_of, parse_trimmed, parse_size}

-- The letters of ASCII.
abbrev pub is_small : ℕ → Bool
is_small c = leb b'a' c && leb c b'z'

abbrev pub is_capital : ℕ → Bool
is_capital c = leb b'A' c && leb c b'Z'

abbrev pub AreLetters : Str → Type 0
AreLetters [] = Unit
AreLetters (c ∷ s) = ((is_small c || is_capital c) ≡ true) × AreLetters s

unfoldable pub lower_ascii : Str → Str
lower_ascii [] = []
lower_ascii (c ∷ s) = let rest = lower_ascii s in if is_capital c then (c + 32) ∷ rest else c ∷ rest

-- The units that the documentation of ParseSize names: bytes, powers of 1000, and powers of 1024.
pub data Prefix : Type 0 where
  kilo mega giga tera : Prefix

pub data SizeUnit : Type 0 where
  bare bytes : SizeUnit
  metric metric_bytes binary_bytes : Prefix → SizeUnit

abbrev pub exponent : Prefix → ℕ
exponent kilo = 1
exponent mega = 2
exponent giga = 3
exponent tera = 4

abbrev pub initial : Prefix → ℕ
initial kilo = b'k'
initial mega = b'm'
initial giga = b'g'
initial tera = b't'

abbrev pub name : SizeUnit → Str
name bare = []
name bytes = codes "b"
name (metric p) = initial p ∷ []
name (metric_bytes p) = initial p ∷ codes "b"
name (binary_bytes p) = initial p ∷ codes "ib"

abbrev pub factor : SizeUnit → ℕ
factor bare = 1
factor bytes = 1
factor (metric p) = 1000 ^ exponent p
factor (metric_bytes p) = 1000 ^ exponent p
factor (binary_bytes p) = 1024 ^ exponent p

unit_in-name : (u : SizeUnit) → unit_in units (name u) ≡ some (factor u)
unfolding unit_in str_eq
unit_in-name bare = refl
unit_in-name bytes = refl
unit_in-name (metric kilo) = refl
unit_in-name (metric mega) = refl
unit_in-name (metric giga) = refl
unit_in-name (metric tera) = refl
unit_in-name (metric_bytes kilo) = refl
unit_in-name (metric_bytes mega) = refl
unit_in-name (metric_bytes giga) = refl
unit_in-name (metric_bytes tera) = refl
unit_in-name (binary_bytes kilo) = refl
unit_in-name (binary_bytes mega) = refl
unit_in-name (binary_bytes giga) = refl
unit_in-name (binary_bytes tera) = refl

AreLetters-lower_ascii : (s : Str) → AreLetters s → AreLetters (lower_ascii s)
unfolding lower_ascii
AreLetters-lower_ascii [] h = tt
AreLetters-lower_ascii (c ∷ s) (a, h) = ground (arith, AreLetters-lower_ascii s h)

-- The documented behaviour of Go's functions on such texts, and of floating-point numbers on whole
-- numbers up to 2^53, which they hold exactly.
pub record IsExact {F : Type 0} (x : Numbers F) (of : ℕ → F) : Type 0 where
  pub digit : (c : ℕ) → b'0' ≤ c → c ≤ b'9' → x.is_digit c ≡ true
  pub letter : (c : ℕ) → (is_small c || is_capital c) ≡ true → x.is_digit c ≡ false
  pub trim_digits : (s t : Str) → AreDigits s → AreLetters t → x.trim_space (s ++ t) ≡ s ++ t
  pub lower : (s : Str) → AreLetters s → x.to_lower s ≡ lower_ascii s
  pub parses : (n : ℕ) → n ≤ 2 ^ 53 → x.parse_float (format_int n) ≡ some (of n)
  pub scales : (n m : ℕ) → n * m ≤ 2 ^ 53 → x.scale (of n) m ≡ of (n * m)
  pub positive : (n : ℕ) → x.is_negative (of n) ≡ false
  pub small : (n : ℕ) → n ≤ 2 ^ 53 → x.is_too_large (of n) ≡ false
  pub truncates : (n : ℕ) → n ≤ 2 ^ 53 → x.truncate (of n) ≡ n

module _ {F : Type 0} (x : Numbers F) (of : ℕ → F) (exact : IsExact x of) where
  cut_of-letters : (s : Str) → AreLetters s → cut_of x s ≡ 0
  unfolding cut_of
  cut_of-letters [] h = refl
  cut_of-letters (c ∷ s) (a, h) = ground (arith, exact.letter c)

  cut_of-digits : (s t : Str) → AreDigits s → AreLetters t → cut_of x (s ++ t) ≡ length s
  unfolding cut_of
  cut_of-digits [] t h l = cut_of-letters t l
  cut_of-digits (c ∷ s) t (a, b, h) l = ground (arith, exact.digit c, cut_of-digits s t h l)

  trim-format_int : (n : ℕ) → x.trim_space (format_int n) ≡ format_int n
  trim-format_int n =
      ap x.trim_space (sym (append-nil (format_int n)))
      ∙ (exact.trim_digits (format_int n) [] (AreDigits-format_int n) tt
          ∙ append-nil (format_int n))

  is_empty-append : (s t : Str) → s ≢ [] → is_empty (s ++ t) ≡ false
  unfolding is_empty
  is_empty-append [] t n = absurd (n refl)
  is_empty-append (c ∷ s) t n = refl

  size_of-whole :
      (n : ℕ) (unit : Str) (mult : ℕ)
      → unit_in units unit ≡ some mult
      → n * mult ≤ 2 ^ 53
      → size_of x (of n) unit ≡ ok (n * mult)
  unfolding size_of
  size_of-whole n unit mult u h =
      rw
        (
          exact.positive n,
          u,
          exact.scales n mult h,
          exact.small (n * mult) h,
          exact.truncates (n * mult) h,
        )
        refl

  -- The number and the unit that the text is cut into.
  number_part :
      (n : ℕ) (unit : Str)
      → AreLetters unit
      → x.trim_space (take (cut_of x (format_int n ++ unit)) (format_int n ++ unit)) ≡ format_int n
  number_part n unit l =
      rw
        (
          cut_of-digits (format_int n) unit (AreDigits-format_int n) l,
          take-append (length (format_int n)) (format_int n) unit refl,
        )
        (trim-format_int n)

  unit_part :
      (n : ℕ) (unit : Str)
      → AreLetters unit
      → x.trim_space (x.to_lower (drop (cut_of x (format_int n ++ unit)) (format_int n ++ unit)))
        ≡ lower_ascii unit
  unit_part n unit l =
      rw
        (
          cut_of-digits (format_int n) unit (AreDigits-format_int n) l,
          drop-append (length (format_int n)) (format_int n) unit refl,
          exact.lower unit l,
        )
        (exact.trim_digits [] (lower_ascii unit) tt (AreLetters-lower_ascii unit l))

  parse_trimmed-format_int :
      (n : ℕ) (unit : Str) (mult : ℕ)
      → AreLetters unit
      → unit_in units (lower_ascii unit) ≡ some mult
      → n ≤ 2 ^ 53
      → n * mult ≤ 2 ^ 53
      → parse_trimmed x (format_int n ++ unit) ≡ ok (n * mult)
  unfolding parse_trimmed
  parse_trimmed-format_int n unit mult l u k h =
      let full = is_empty-append (format_int n) unit (format_int-ne-nil n) in
      let full' : is_empty (format_int n) ≡ false =
        ap is_empty (sym (append-nil (format_int n)))
        ∙ is_empty-append (format_int n) [] (format_int-ne-nil n) in
      rw (full, number_part n unit l, full', exact.parses n k, unit_part n unit l)
        (size_of-whole n (lower_ascii unit) mult u h)

  -- With functions on text that behave as documented, and floating-point numbers that are exact
  -- for whole numbers up to 2 ^ 53, ParseSize of the decimal print of n and a unit in letters of
  -- either case returns n times the factor of the unit, for n and that product up to 2 ^ 53: 1
  -- without a unit and for b; and for k, m, g and t, with the exponents 1 to 4, a power of 1000
  -- when the letter stands alone or with b behind it, and a power of 1024 with ib behind it.
  pub parse_size-format_int :
      (n : ℕ) (u : SizeUnit) (written : Str)
      → AreLetters written
      → lower_ascii written ≡ name u
      → n ≤ 2 ^ 53
      → n * factor u ≤ 2 ^ 53
      → parse_size x (format_int n ++ written) ≡ ok (n * factor u)
  unfolding parse_size
  parse_size-format_int n u written l same k h =
      let known : unit_in units (lower_ascii written) ≡ some (factor u) =
        rw same (unit_in-name u) in
      ap (parse_trimmed x) (exact.trim_digits (format_int n) written (AreDigits-format_int n) l)
      ∙ parse_trimmed-format_int n written (factor u) l known k h
