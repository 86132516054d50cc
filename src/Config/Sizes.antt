-- ===== src/Config/Sizes.antt =====
-- internal/config/config.go: ParseSize.
use telang.Common.{
  ℕ, Bool, ◌||◌, Option, none, some, List, [], ◌∷◌, Str, codes, str_eq, ◌==◌, take, drop, suc,
  if◌then◌else◌, Result, ok, err,
}
use telang.S3.Router.{is_empty}

-- What ParseSize uses of Go's `strings` and `unicode`, and of its 64-bit floating-point numbers `F`.
-- `parse_float` gives `none` where `ParseFloat` returns an error.
pub record Numbers (F : Type 0) : Type 0 where
  pub trim_space : Str → Str
  pub to_lower : Str → Str
  pub is_digit : ℕ → Bool
  pub parse_float : Str → Option F
  pub is_negative : F → Bool
  pub scale : F → ℕ → F
  -- `out > float64(1<<62)`
  pub is_too_large : F → Bool
  -- `int64(out)`
  pub truncate : F → ℕ

pub data SizeError : Type 0 where
  empty_size no_number bad_number negative_size unknown_unit size_overflow : SizeError

-- The switch on the unit.
abbrev pub units : List (Str × ℕ)
units =
    (codes "", 1)
    ∷ (codes "b", 1)
    ∷ (codes "k", 1000)
    ∷ (codes "kb", 1000)
    ∷ (codes "m", 1000000)
    ∷ (codes "mb", 1000000)
    ∷ (codes "g", 1000000000)
    ∷ (codes "gb", 1000000000)
    ∷ (codes "t", 1000000000000)
    ∷ (codes "tb", 1000000000000)
    ∷ (codes "kib", 1024)
    ∷ (codes "mib", 1048576)
    ∷ (codes "gib", 1073741824)
    ∷ (codes "tib", 1099511627776)
    ∷ []

unfoldable pub unit_in : List (Str × ℕ) → Str → Option ℕ
unit_in [] u = none
unit_in ((name, mult) ∷ rest) u =
    let later = unit_in rest u in if str_eq u name then some mult else later

module _ {F : Type 0} (x : Numbers F) where
  -- `cut`: where the first character stands that is neither a digit nor a dot.
  unfoldable pub cut_of : Str → ℕ
  cut_of [] = 0
  cut_of (c ∷ s) = let more = cut_of s in if x.is_digit c || c == b'.' then suc more else 0

  unfoldable pub size_of : F → Str → Result SizeError ℕ
  unfolding unit_in
  size_of n unit = if x.is_negative n then err negative_size else elim (unit_in units unit) [
    | none ↦ err unknown_unit
    | some mult ↦
        if x.is_too_large (x.scale n mult)
        then err size_overflow
        else ok (x.truncate (x.scale n mult))
  ]

  -- `ParseSize` of a text whose space is trimmed.
  unfoldable pub parse_trimmed : Str → Result SizeError ℕ
  unfolding cut_of size_of
  parse_trimmed s =
      let number = x.trim_space (take (cut_of s) s) in
      let unit = x.trim_space (x.to_lower (drop (cut_of s) s)) in
      if is_empty s
      then err empty_size
      else if is_empty number
      then err no_number
      else elim (x.parse_float number) [ none ↦ err bad_number | some n ↦ size_of n unit ]

  -- `ParseSize`
  unfoldable pub parse_size : Str → Result SizeError ℕ
  unfolding parse_trimmed
  parse_size s = parse_trimmed (x.trim_space s)
