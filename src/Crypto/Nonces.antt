-- ===== src/Crypto/Nonces.antt =====
-- crypto.go: frameNonce, and how the index of a frame enters the nonce.
use telang.Common.{
  if◌then◌else◌, ◌+◌, ℕ, zero, suc, ◌/◌, ◌%◌, ◌^◌, ◌<◌, bit_xor, ◌≡◌, ◌≢◌, refl, sym, ap, ◌∙◌, ◌++◌,
  ◌∷◌, Str, length, take, drop, [], arith, length-drop, length-take, ◌==◌, drop-append,
}
use telang.Crypto.Layout.{big_endian, from_big_endian, xor_bytes, frame_nonce, nonce_len}
use telang.Crypto.BigEndian.{length-big_endian, from_big_endian-eight}

-- How many of the first `n` numbers a second XOR with `a` fails to give back, and how many pairs of
-- a byte and one of the first `n` numbers that makes.
failures_at : ℕ → ℕ → ℕ
failures_at a zero = 0
failures_at a (suc n) = (if bit_xor a (bit_xor a n) == n then 0 else 1) + failures_at a n

failures : ℕ → ℕ
failures zero = 0
failures (suc n) = failures_at n 256 + failures n

no_failure : failures 256 ≡ 0
unfolding failures failures_at
no_failure = refl

given_back : (a n x : ℕ) → failures_at a n ≡ 0 → x < n → bit_xor a (bit_xor a x) ≡ x
unfolding failures_at
given_back a zero x none_fails below = absurd (omega arith)
given_back a (suc n) x none_fails below = ground (arith, given_back a n x)

no_failure_at : (n a : ℕ) → failures n ≡ 0 → a < n → failures_at a 256 ≡ 0
unfolding failures
no_failure_at zero a none_fails below = absurd (omega arith)
no_failure_at (suc n) a none_fails below = ground (arith, no_failure_at n a)

xor_twice : (a x : ℕ) → a < 256 → x < 256 → bit_xor a (bit_xor a x) ≡ x
xor_twice a x ha hx = given_back a 256 x (no_failure_at 256 a no_failure ha) hx

abbrev pub AreBytes : Str → Type 0
AreBytes [] = Unit
AreBytes (b ∷ bs) = (b < 256) × AreBytes bs

AreBytes-append : (xs ys : Str) → AreBytes xs → AreBytes ys → AreBytes (xs ++ ys)
AreBytes-append [] ys hx hy = hy
AreBytes-append (x ∷ xs) ys (h, hx) hy = (h, AreBytes-append xs ys hx hy)

AreBytes-drop : (n : ℕ) (xs : Str) → AreBytes xs → AreBytes (drop n xs)
AreBytes-drop zero xs h = h
AreBytes-drop (suc n) [] h = tt
AreBytes-drop (suc n) (x ∷ xs) (_, h) = AreBytes-drop n xs h

AreBytes-big_endian : (k n : ℕ) → AreBytes (big_endian k n)
unfolding big_endian
AreBytes-big_endian zero n = tt
AreBytes-big_endian (suc k) n =
    AreBytes-append (big_endian k (n / 256)) ((n % 256) ∷ []) (AreBytes-big_endian k (n / 256))
      (omega arith, tt)

-- XOR by the same bytes again gives the index bytes back.
xor_bytes_twice :
    (as_ bs : Str)
    → length as_ ≡ length bs
    → AreBytes as_
    → AreBytes bs
    → xor_bytes as_ (xor_bytes as_ bs) ≡ bs
unfolding xor_bytes
xor_bytes_twice [] [] h ha hb = refl
xor_bytes_twice [] (b ∷ bs) h ha hb = absurd (omega arith)
xor_bytes_twice (a ∷ as_) [] h ha hb = absurd (omega arith)
xor_bytes_twice (a ∷ as_) (b ∷ bs) h (ha, has) (hb, hbs) =
    rw (xor_twice a b ha hb, xor_bytes_twice as_ bs (omega arith) has hbs)

module _ (base : Str) (twelve : length base ≡ nonce_len) (bytes : AreBytes base) where
  -- The index bytes can be read off a frame's nonce.
  index_of_nonce : (i : ℕ) → xor_bytes (drop 4 base) (drop 4 (frame_nonce base i)) ≡ big_endian 8 i
  unfolding frame_nonce
  index_of_nonce i =
      let four : length (take 4 base) ≡ 4 = omega (arith, length-take 4 base) in
      let eight : length (drop 4 base) ≡ length (big_endian 8 i) =
        omega (arith, length-drop 4 base, length-big_endian 8 i) in
      rw (drop-append 4 (take 4 base) (xor_bytes (drop 4 base) (big_endian 8 i)) four) (
        xor_bytes_twice (drop 4 base) (big_endian 8 i) eight (AreBytes-drop 4 base bytes)
          (AreBytes-big_endian 8 i))

  -- Under one base nonce, two frames with the same nonce are the same frame.
  pub frame_nonce_injective :
      (i j : ℕ) → i < 2 ^ 64 → j < 2 ^ 64 → frame_nonce base i ≡ frame_nonce base j → i ≡ j
  frame_nonce_injective i j hi hj e =
      sym (from_big_endian-eight i hi)
      ∙ ap (λ t. from_big_endian t 0)
          (sym (index_of_nonce i)
            ∙ ap (λ t. xor_bytes (drop 4 base) (drop 4 t)) e
            ∙ index_of_nonce j)
      ∙ from_big_endian-eight j hj

  -- Under one base nonce of 12 bytes, two frames with different indices below 2 ^ 64 are sealed
  -- with different nonces.
  pub frame_nonce_ne :
      (i j : ℕ) → i < 2 ^ 64 → j < 2 ^ 64 → i ≢ j → frame_nonce base i ≢ frame_nonce base j
  frame_nonce_ne i j hi hj ne e = ne (frame_nonce_injective i j hi hj e)
