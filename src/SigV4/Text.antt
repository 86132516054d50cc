-- ===== src/SigV4/Text.antt =====
-- What sigv4.go uses of Go's `strings`, `strconv`, `encoding/hex` and `net/url`, over bytes.
use mathlib.Core.Option
use telang.Common.{
  ℕ, ◌+◌, ◌-◌, ◌*◌, ◌/◌, ◌%◌, ◌^◌, Bool, true, false, ◌&&◌, ◌||◌, Option, none, some, List, [], ◌∷◌,
  ◌++◌, Str, ltb, leb, ◌==◌, if◌then◌else◌,
}

-- `strings.Split(s, c)` at a separator of one byte.
unfoldable pub extend_first : ℕ → List Str → List Str
extend_first x [] = (x ∷ []) ∷ []
extend_first x (p ∷ ps) = (x ∷ p) ∷ ps

unfoldable pub split : ℕ → Str → List Str
unfolding extend_first
split c [] = [] ∷ []
split c (x ∷ s) = let rest = split c s in if x == c then [] ∷ rest else extend_first x rest

-- `strings.Join(parts, sep)`
unfoldable pub join : Str → List Str → Str
join sep [] = []
join sep (p ∷ []) = p
join sep (p ∷ q ∷ ps) = p ++ sep ++ join sep (q ∷ ps)

-- The digit that `%X` or `%x` prints for a number below 16, with `a` for ten.
unfoldable pub hex_digit : ℕ → ℕ → ℕ
hex_digit a d = if ltb d 10 then b'0' + d else a + (d - 10)

-- `hex.EncodeToString`
unfoldable pub hex_encode : Str → Str
unfolding hex_digit
hex_encode [] = []
hex_encode (c ∷ s) = hex_digit b'a' (c / 16) ∷ hex_digit b'a' (c % 16) ∷ hex_encode s

-- The value of a hexadecimal digit of either case.
unfoldable pub unhex : ℕ → Option ℕ
unhex c =
    if leb b'0' c && leb c b'9'
    then some (c - b'0')
    else if leb b'a' c && leb c b'f'
    then some (c - b'a' + 10)
    else if leb b'A' c && leb c b'F'
    then some (c - b'A' + 10)
    else none

unfoldable pub all_hex : Str → Bool
unfolding unhex
all_hex [] = true
all_hex (c ∷ s) = elim (unhex c) [ none ↦ false | some d ↦ all_hex s ]

unfoldable pub hex_from : ℕ → Str → Option ℕ
unfolding unhex
hex_from acc [] = some acc
hex_from acc (c ∷ s) = elim (unhex c) [ none ↦ none | some d ↦ hex_from (acc * 16 + d) s ]

-- `strconv.ParseUint(s, 16, 63)`, with `none` for a syntax or a range error.
unfoldable pub below_63 : Option ℕ → Option ℕ
below_63 none = none
below_63 (some n) = if ltb n (2 ^ 63) then some n else none

unfoldable pub parse_uint : Str → Option ℕ
unfolding hex_from below_63
parse_uint [] = none
parse_uint (c ∷ s) = below_63 (hex_from 0 (c ∷ s))

-- `url.QueryUnescape`, with `none` for a bad escape.
unfoldable pub prepend : Option ℕ → Option Str → Option Str
prepend (some c) (some s) = some (c ∷ s)
prepend _ _ = none

unfoldable pub hex_byte : ℕ → ℕ → Option ℕ
unfolding unhex
hex_byte h l = elim (unhex h) [ none ↦ none | some d ↦ Option.map (λ e. d * 16 + e) (unhex l) ]

unfoldable pub query_unescape : Str → Option Str
unfolding hex_byte prepend
query_unescape [] = some []
query_unescape (c ∷ []) = if c == b'%' then none else some ((if c == b'+' then b' ' else c) ∷ [])
query_unescape (c ∷ h ∷ []) =
    if c == b'%'
    then none
    else prepend (some (if c == b'+' then b' ' else c)) (query_unescape (h ∷ []))
query_unescape (c ∷ h ∷ l ∷ s) =
    let escaped = prepend (hex_byte h l) (query_unescape s) in
    let plain = prepend (some (if c == b'+' then b' ' else c)) (query_unescape (h ∷ l ∷ s)) in
    if c == b'%' then escaped else plain

-- `strings.TrimRight(line, "\r\n")`
unfoldable pub trim_eol : Str → Str
trim_eol [] = []
trim_eol (c ∷ s) =
    let rest = trim_eol s in
    elim rest [ x ∷ t ↦ c ∷ x ∷ t | [] ↦ if c == 13 || c == 10 then [] else c ∷ [] ]
