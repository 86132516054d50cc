-- ===== src/SigV4/Escape.antt =====
-- internal/sigv4/sigv4.go: awsEscape against the decoder of `net/url`.
use telang.Common.{
  ℕ, ◌/◌, ◌%◌, ◌<◌, ◌≡◌, refl, ap, ◌∙◌, true, false, Option, some, [], ◌∷◌, Str, ◌==◌, arith,
  Bool-cases, inl, inr,
}
use telang.Crypto.Nonces.{AreBytes}
use telang.SigV4.Text.{hex_digit, unhex, hex_byte, prepend, query_unescape}
use telang.SigV4.Canonical.{is_unreserved, escape_byte, aws_escape}

unhex-hex_digit : (d : ℕ) → d < 16 → unhex (hex_digit b'A' d) ≡ some d
unfolding unhex hex_digit
unhex-hex_digit d h = ground arith

hex_byte_lem :
    (c : ℕ) → c < 256 → hex_byte (hex_digit b'A' (c / 16)) (hex_digit b'A' (c % 16)) ≡ some c
unfolding hex_byte
hex_byte_lem c h =
    rw (unhex-hex_digit (c / 16) (omega arith), unhex-hex_digit (c % 16) (omega arith), hex_byte)
      (ap some (omega arith))

unescape_plain :
    (c : ℕ) (s : Str)
    → (c == b'%') ≡ false
    → (c == b'+') ≡ false
    → query_unescape (c ∷ s) ≡ prepend (some c) (query_unescape s)
unfolding query_unescape prepend
unescape_plain c [] h g = ground arith
unescape_plain c (x ∷ []) h g = ground arith
unescape_plain c (x ∷ y ∷ s) h g = ground arith

plain_byte : (c : ℕ) → is_unreserved c ≡ true → ((c == b'%') ≡ false) × ((c == b'+') ≡ false)
unfolding is_unreserved
plain_byte c h = ground arith

unescape_escaped :
    (c : ℕ) (s : Str)
    → c < 256
    → query_unescape (b'%' ∷ hex_digit b'A' (c / 16) ∷ hex_digit b'A' (c % 16) ∷ s)
      ≡ prepend (some c) (query_unescape s)
unfolding query_unescape
unescape_escaped c s h = rw (hex_byte_lem c h) refl

prepend-some : (c : ℕ) (o : Option Str) (s : Str) → o ≡ some s → prepend (some c) o ≡ some (c ∷ s)
unfolding prepend
prepend-some c o s e = rw e refl

-- For a string of bytes, url.QueryUnescape of what awsEscape prints with slashes encoded gives
-- the string back.
pub query_unescape-aws_escape : (s : Str) → AreBytes s → query_unescape (aws_escape true s) ≡ some s
unfolding aws_escape escape_byte
query_unescape-aws_escape [] h = unfold query_unescape in refl
query_unescape-aws_escape (c ∷ s) (b, bs) = elim (Bool-cases (is_unreserved c)) [
  | inl u ↦
      let (p, q) = plain_byte c u in
      rw (u, aws_escape)
        (unescape_plain c (aws_escape true s) p q
          ∙ prepend-some c _ s (query_unescape-aws_escape s bs))
  | inr u ↦
      rw (u, aws_escape)
        (unescape_escaped c (aws_escape true s) b
          ∙ prepend-some c _ s (query_unescape-aws_escape s bs))
]
