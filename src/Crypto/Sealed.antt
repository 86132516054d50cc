-- ===== src/Crypto/Sealed.antt =====
-- The specification of the ciphertext: the plaintext cut into frames, each sealed under its index.
use native.Mathlib.Nat.{
  div-eq-sub-div, mod-eq-sub-mod, div-eq_of_lt, mod-eq_of_lt, div_self, mod_self, eq-or-lt_of_le,
  le_of_lt,
}
use telang.Common.{
  ℕ, zero, suc, ◌+◌, ◌-◌, ◌≤◌, ◌<◌, ◌≡◌, ◌++◌, Str, length, take, drop, leb, if◌then◌else◌, [],
  arith, length-append, length-take, length-drop, leb→le, leb→lt, ap, true, false, inl, inr,
  Bool-cases,
}
use telang.Crypto.Layout.{
  Aead, Cipher, ciphertext_size, frame_nonce, frame_aad, tag_len, header_size,
}

module _ (c : Cipher) (base : Str) where
  abbrev pub seal_at : ℕ → Str → Str
  seal_at i p = Aead.seal c.aead (frame_nonce base i) p (frame_aad i)

  -- `k` bounds the number of frames.
  pub sealed : ℕ → ℕ → Str → Str
  sealed zero i p = []
  sealed (suc k) i p =
      if leb (length p) c.frame_size
      then seal_at i p
      else seal_at i (take c.frame_size p) ++ sealed k (i + 1) (drop c.frame_size p)

  pub sealed_last :
      (k i : ℕ) (p : Str) → leb (length p) c.frame_size ≡ true → sealed (suc k) i p ≡ seal_at i p
  unfolding sealed
  sealed_last k i p h = rw h

  pub sealed_more :
      (k i : ℕ) (p : Str)
      → leb (length p) c.frame_size ≡ false
      → sealed (suc k) i p
        ≡ seal_at i (take c.frame_size p) ++ sealed k (i + 1) (drop c.frame_size p)
  unfolding sealed
  sealed_more k i p h = rw h

  pub length-seal_at : (i : ℕ) (p : Str) → length (seal_at i p) ≡ length p + 16
  length-seal_at i p = Aead.length-seal c.aead _ p _

pub ciphertext_size_one :
    (fs n : ℕ) → 0 < fs → n ≤ fs → ciphertext_size fs n ≡ header_size + (n + tag_len)
unfolding ciphertext_size
ciphertext_size_one fs n pos h = elim (eq-or-lt_of_le h) [
  | inl e ↦ rw (e, div_self pos, mod_self fs) (ground arith)
  | inr l ↦ rw (div-eq_of_lt l, mod-eq_of_lt l) (ground arith)
]

pub ciphertext_size_more :
    (fs n : ℕ) → 0 < fs → fs < n → ciphertext_size fs n ≡ fs + tag_len + ciphertext_size fs (n - fs)
unfolding ciphertext_size
ciphertext_size_more fs n pos h =
    rw (div-eq-sub-div pos (le_of_lt h), mod-eq-sub-mod (le_of_lt h)) (ground arith)

module _ (c : Cipher) (base : Str) (pos : 0 < c.frame_size) where
  -- The sealed frames have the length that `CiphertextSize` announces, less the header's.
  pub length-sealed :
      (k i : ℕ) (p : Str)
      → length p < k
      → header_size + length (sealed c base k i p) ≡ ciphertext_size c.frame_size (length p)
  length-sealed zero i p h = absurd (omega arith)
  length-sealed (suc k) i p h = elim (Bool-cases (leb (length p) c.frame_size)) [
    | inl one ↦ rw (sealed_last c base k i p one) (
        omega (
          arith,
          length-seal_at c base i p,
          ciphertext_size_one c.frame_size (length p) pos (leb→le _ _ one),
        ))
    | inr more ↦
        let long : c.frame_size < length p = leb→lt _ _ more in
        let shorter : length (drop c.frame_size p) ≡ length p - c.frame_size =
          length-drop c.frame_size p in
        rw (sealed_more c base k i p more, length-append)
          (omega (
            arith,
            length-seal_at c base i (take c.frame_size p),
            length-take c.frame_size p,
            ciphertext_size_more c.frame_size (length p) pos long,
            length-sealed k (i + 1) (drop c.frame_size p) (omega arith),
            ap (ciphertext_size c.frame_size) shorter,
          ))
  ]

  -- More fuel than frames changes nothing.
  pub sealed_fuel :
      (k m i : ℕ) (p : Str)
      → length p < k
      → length p < m
      → sealed c base k i p ≡ sealed c base m i p
  sealed_fuel zero m i p h g = absurd (omega arith)
  sealed_fuel (suc k) zero i p h g = absurd (omega arith)
  sealed_fuel (suc k) (suc m) i p h g = elim (Bool-cases (leb (length p) c.frame_size)) [
    | inl one ↦ rw (sealed_last c base k i p one, sealed_last c base m i p one)
    | inr more ↦
        let long : c.frame_size < length p = leb→lt _ _ more in
        let shorter : length (drop c.frame_size p) ≡ length p - c.frame_size =
          length-drop c.frame_size p in
        rw (
          sealed_more c base k i p more,
          sealed_more c base m i p more,
          sealed_fuel k m (i + 1) (drop c.frame_size p) (omega arith) (omega arith),
        )
  ]

  -- Sealing makes nothing shorter.
  pub length-le-sealed :
      (k i : ℕ) (p : Str) → length p < k → length p ≤ length (sealed c base k i p)
  length-le-sealed zero i p h = absurd (omega arith)
  length-le-sealed (suc k) i p h = elim (Bool-cases (leb (length p) c.frame_size)) [
    | inl one ↦ rw (sealed_last c base k i p one) (omega (arith, length-seal_at c base i p))
    | inr more ↦
        let long : c.frame_size < length p = leb→lt _ _ more in
        let shorter : length (drop c.frame_size p) ≡ length p - c.frame_size =
          length-drop c.frame_size p in
        rw (sealed_more c base k i p more, length-append)
          (omega (
            arith,
            length-seal_at c base i (take c.frame_size p),
            length-take c.frame_size p,
            length-le-sealed k (i + 1) (drop c.frame_size p) (omega arith),
          ))
  ]
