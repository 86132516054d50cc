-- ===== src/Common/Decimal.antt =====
-- `strconv.FormatInt` and `%d` of a number that is not negative, and what reading it back gives.
use Prim.Native.Nat.{ℕ, zero, suc, ◌+◌, ◌-◌, ◌*◌, ◌/◌, ◌%◌, ◌^◌, ◌≤◌, ◌<◌}
use mathlib.Core.Path.{◌≡◌, refl}
use mathlib.Core.Logic.{◌≢◌, inl, inr}
use mathlib.Core.Option.{some}
use mathlib.Core.List.{[], ◌∷◌, ◌++◌, concat-ne-nil}
use native.Mathlib.Omega.{arith}
use telang.Common.Tests.{Str, ltb, ltb→le, if◌then◌else◌, Bool-cases}
use telang.Common.Lists.{length}
use telang.Common.Text.{
  pos, digits_from, decimal, parse_int, index_byte, contains, index, has_prefix,
}

-- The digits of `n`; each round drops one, so `suc n` rounds are enough.
format_digits : ℕ → ℕ → Str
format_digits zero n = []
format_digits (suc fuel) n =
    let more = format_digits fuel (n / 10) ++ (b'0' + n % 10) ∷ [] in
    if ltb n 10 then (b'0' + n) ∷ [] else more

unfoldable pub format_int : ℕ → Str
unfolding format_digits
format_int n = format_digits (suc n) n

abbrev pub AreDigits : Str → Type 0
AreDigits [] = Unit
AreDigits (c ∷ s) = (b'0' ≤ c) × (c ≤ b'9') × AreDigits s

AreDigits-append : (s t : Str) → AreDigits s → AreDigits t → AreDigits (s ++ t)
AreDigits-append [] t hs ht = ht
AreDigits-append (c ∷ s) t (a, b, hs) ht = (a, b, AreDigits-append s t hs ht)

AreDigits-format : (fuel n : ℕ) → AreDigits (format_digits fuel n)
unfolding format_digits
AreDigits-format zero n = tt
AreDigits-format (suc fuel) n = elim (Bool-cases (ltb n 10)) [
  | inl small ↦ rw small (ground arith)
  | inr more ↦ rw more (
      AreDigits-append (format_digits fuel (n / 10)) _ (AreDigits-format fuel (n / 10))
        (omega arith, omega arith, tt))
]

digits_from-append :
    (s : Str) (acc n d : ℕ)
    → AreDigits s
    → digits_from acc s ≡ some n
    → d < 10
    → digits_from acc (s ++ (b'0' + d) ∷ []) ≡ some (n * 10 + d)
unfolding digits_from
digits_from-append [] acc n d h e lt = ground arith
digits_from-append (c ∷ s) acc n d (a, b, h) e lt =
    ground (arith, digits_from-append s (acc * 10 + (c - b'0')) n d h)

digits_from-format : (fuel n : ℕ) → n < fuel → digits_from 0 (format_digits fuel n) ≡ some n
unfolding format_digits
digits_from-format zero n h = absurd (omega arith)
digits_from-format (suc fuel) n h = elim (Bool-cases (ltb n 10)) [
  | inl small ↦ rw small (unfold digits_from in ground arith)
  | inr more ↦
      let whole : n / 10 * 10 + n % 10 ≡ n = omega arith in
      rw (
        more,
        digits_from-append (format_digits fuel (n / 10)) 0 (n / 10) (n % 10)
            (AreDigits-format fuel (n / 10))
            (digits_from-format fuel (n / 10) (omega (arith, ltb→le _ _ more))) (omega arith),
        whole,
      )
]

decimal-digits : (s : Str) (n : ℕ) → s ≢ [] → digits_from 0 s ≡ some n → decimal s ≡ some n
unfolding decimal
decimal-digits [] n h e = absurd (h refl)
decimal-digits (c ∷ s) n h e = e

-- Digits are read with no sign in front.
parse_int-digits :
    (s : Str) (n : ℕ)
    → s ≢ []
    → AreDigits s
    → digits_from 0 s ≡ some n
    → n < 2 ^ 63
    → parse_int s ≡ some (pos n)
unfolding parse_int
parse_int-digits [] n ne h e lt = absurd (ne refl)
parse_int-digits (c ∷ s) n ne (a, b, h) e lt = ground (arith, e)

format_digits-ne-nil : (fuel n : ℕ) → format_digits (suc fuel) n ≢ []
unfolding format_digits
format_digits-ne-nil fuel n = elim (Bool-cases (ltb n 10)) [
  | inl small ↦ rw small (λ e. cc e)
  | inr more ↦ rw more (concat-ne-nil _ (format_digits fuel (n / 10)))
]

pub AreDigits-format_int : (n : ℕ) → AreDigits (format_int n)
unfolding format_int
AreDigits-format_int n = AreDigits-format (suc n) n

pub format_int-ne-nil : (n : ℕ) → format_int n ≢ []
unfolding format_int
format_int-ne-nil n = format_digits-ne-nil n n

-- An `int64` is read back from its decimal print.
pub parse_int-format_int : (n : ℕ) → n < 2 ^ 63 → parse_int (format_int n) ≡ some (pos n)
parse_int-format_int n h =
    parse_int-digits (format_int n) n (format_int-ne-nil n) (AreDigits-format_int n)
      (unfold format_int in digits_from-format (suc n) n (omega arith)) h

pub decimal-format_int : (n : ℕ) → decimal (format_int n) ≡ some n
decimal-format_int n =
    decimal-digits (format_int n) n (format_int-ne-nil n)
      (unfold format_int in digits_from-format (suc n) n (omega arith))

-- No sign and no comma stands in a decimal number.
pub index_byte-digits :
    (s t : Str) (c : ℕ) → AreDigits s → c < b'0' → index_byte (s ++ c ∷ t) c ≡ some (length s)
unfolding index_byte
index_byte-digits [] t c h lt = ground arith
index_byte-digits (d ∷ s) t c (a, b, h) lt = ground (arith, index_byte-digits s t c h lt)

pub contains-digits :
    (s t : Str) (c : ℕ) → AreDigits s → c < b'0' → contains (s ++ t) (c ∷ []) ≡ contains t (c ∷ [])
unfolding contains index has_prefix
contains-digits [] t c h lt = refl
contains-digits (d ∷ s) t c (a, b, h) lt = ground (arith, contains-digits s t c h lt)
