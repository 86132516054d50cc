-- ===== src/S3/ByteRange.antt =====
-- internal/s3api/handlers.go: parseRange.
use telang.Common.{
  ℕ, suc, ◌-◌, ◌^◌, ◌≤◌, ◌<◌, ◌≡◌, refl, false, ◌||◌, Option, none, some, [], ◌∷◌, ◌++◌, Str, codes,
  length, take, drop, ltb, leb, ◌==◌, if◌then◌else◌, ℤ, pos, parse_int, has_prefix, trim_prefix,
  index_byte, contains, index, arith, Option-cases, inl, inr, take-append, append-nil, ap, sym, ◌∙◌,
  ◌≢◌,
}
use telang.Common.Decimal.{
  AreDigits, format_int, format_int-ne-nil, AreDigits-format_int, parse_int-format_int,
  index_byte-digits, contains-digits,
}

-- `loStr == ""`: the last `n` bytes.
unfoldable pub suffix_range : Option ℤ → ℕ → Option (ℕ × ℕ)
suffix_range (some (pos n)) size =
    let m = if ltb size n then size else n in
    if n == 0 || size == 0 then none else some (size - m, size - 1)
suffix_range _ size = none

-- `hiStr == ""`: from `start` to the end.
unfoldable pub open_range : Option ℤ → ℕ → Option (ℕ × ℕ)
open_range (some (pos start)) size = if leb size start then none else some (start, size - 1)
open_range _ size = none

unfoldable pub closed_range : Option ℤ → Option ℤ → ℕ → Option (ℕ × ℕ)
closed_range (some (pos start)) (some (pos end_)) size =
    if ltb end_ start || leb size start
    then none
    else some (start, if leb size end_ then size - 1 else end_)
closed_range _ _ size = none

-- The switch of `parseRange` on the two sides of the dash.
unfoldable pub range_of : Str → Str → ℕ → Option (ℕ × ℕ)
unfolding suffix_range open_range closed_range
range_of [] [] size = none
range_of [] (c ∷ hi) size = suffix_range (parse_int (c ∷ hi)) size
range_of (c ∷ lo) [] size = open_range (parse_int (c ∷ lo)) size
range_of (c ∷ lo) (d ∷ hi) size = closed_range (parse_int (c ∷ lo)) (parse_int (d ∷ hi)) size

-- `parseRange`, with `none` for `errBadRange`.
unfoldable pub parse_range : Str → ℕ → Option (ℕ × ℕ)
parse_range s size =
    let spec = trim_prefix s (codes "bytes=") in
    if has_prefix s (codes "bytes=")
    then (if contains spec (codes ",") then none else elim (index_byte spec b'-') [
      | none ↦ none
      | some dash ↦ range_of (take dash spec) (drop (suc dash) spec) size
    ])
    else none

closed_range-inside :
    (x y : Option ℤ) (size : ℕ) {a b : ℕ}
    → closed_range x y size ≡ some (a, b)
    → (a ≤ b) × (b < size)
unfolding closed_range
closed_range-inside x y size h = ground arith

range_of-inside :
    (lo hi : Str) (size : ℕ) {a b : ℕ} → range_of lo hi size ≡ some (a, b) → (a ≤ b) × (b < size)
unfolding range_of
range_of-inside [] [] size h = ground arith
range_of-inside [] (c ∷ hi) size h = ground arith
range_of-inside (c ∷ lo) [] size h = ground arith
range_of-inside (c ∷ lo) (d ∷ hi) size h =
    closed_range-inside (parse_int (c ∷ lo)) (parse_int (d ∷ hi)) size h

-- A Range header that parseRange accepts gives a start that is not behind the end, and an end
-- inside the object.
pub parse_range-inside :
    (s : Str) (size : ℕ) {a b : ℕ} → parse_range s size ≡ some (a, b) → (a ≤ b) × (b < size)
unfolding parse_range
parse_range-inside s size h =
    let spec = trim_prefix s (codes "bytes=") in
    elim (Option-cases (index_byte spec b'-')) [
      | inl e ↦ ground arith
      | inr (d, e) ↦ range_of-inside (take d spec) (drop (suc d) spec) size (ground arith)
    ]

parse_range-split :
    (lo hi : Str) (size : ℕ)
    → index_byte (lo ++ b'-' ∷ hi) b'-' ≡ some (length lo)
    → contains (lo ++ b'-' ∷ hi) (codes ",") ≡ false
    → parse_range (codes "bytes=" ++ lo ++ b'-' ∷ hi) size ≡ range_of lo hi size
unfolding parse_range trim_prefix has_prefix
parse_range-split lo hi size d e =
    rw (e, d, take-append (length lo) lo (b'-' ∷ hi) refl, drop_behind lo b'-' hi)
  where
    drop_behind : (s : Str) (c : ℕ) (t : Str) → drop (suc (length s)) (s ++ c ∷ t) ≡ t
    drop_behind [] c t = refl
    drop_behind (x ∷ s) c t = drop_behind s c t

range_of-digits :
    (lo hi : Str) (size : ℕ)
    → lo ≢ []
    → hi ≢ []
    → range_of lo hi size ≡ closed_range (parse_int lo) (parse_int hi) size
unfolding range_of
range_of-digits [] hi size l h = absurd (l refl)
range_of-digits (c ∷ lo) [] size l h = absurd (h refl)
range_of-digits (c ∷ lo) (d ∷ hi) size l h = refl

behind_dash : (t : Str) → contains (b'-' ∷ t) (b',' ∷ []) ≡ contains t (b',' ∷ [])
unfolding contains index has_prefix
behind_dash t = ground arith

no_comma_behind : (t : Str) → AreDigits t → contains (b'-' ∷ t) (b',' ∷ []) ≡ false
no_comma_behind t h =
    behind_dash t
    ∙ ap (λ s. contains s (b',' ∷ [])) (sym (append-nil t))
    ∙ contains-digits t [] b',' h (omega arith)
    ∙ (unfold contains index has_prefix in refl)

-- For a <= b, a < size and b < 2 ^ 63, parseRange reads "bytes=a-b" as the range from a to b, or
-- to the last byte of the object where b lies behind it.
pub parse_range-closed :
    (a b size : ℕ)
    → a ≤ b
    → a < size
    → b < 2 ^ 63
    → parse_range (codes "bytes=" ++ format_int a ++ b'-' ∷ format_int b) size
      ≡ some (a, if leb size b then size - 1 else b)
parse_range-closed a b size le inside fits =
    let sign =
      index_byte-digits (format_int a) (format_int b) b'-' (AreDigits-format_int a) (omega arith) in
    let no_comma : contains (format_int a ++ b'-' ∷ format_int b) (codes ",") ≡ false =
      contains-digits (format_int a) (b'-' ∷ format_int b) b',' (AreDigits-format_int a)
        (omega arith)
      ∙ no_comma_behind (format_int b) (AreDigits-format_int b) in
    rw
      (
        parse_range-split (format_int a) (format_int b) size sign no_comma,
        range_of-digits (format_int a) (format_int b) size (format_int-ne-nil a)
            (format_int-ne-nil b),
        parse_int-format_int a (omega arith),
        parse_int-format_int b fits,
      )
      (unfold closed_range in ground arith)
