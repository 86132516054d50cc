-- ===== src/Crypto/FrameAt.antt =====
-- Where a frame stands in the ciphertext: the arithmetic behind `frameOffset` in DecryptRange.
use native.Mathlib.Nat.{zero-mul}
use telang.Common.{
  ℕ, zero, suc, ◌+◌, ◌-◌, ◌*◌, ◌<◌, ◌≡◌, ap, ◌++◌, Str, length, take, drop, leb, ltb, if◌then◌else◌,
  arith, length-append, length-drop, length-take, inl, inr, Bool-cases, leb→le, leb→lt, lt→leb,
  drop-append, drop-drop, take-append, take_all,
}
use telang.Crypto.Layout.{Cipher}
use telang.Crypto.Sealed.{seal_at, sealed, length-seal_at, sealed_last, sealed_more}

module _ (c : Cipher) (base : Str) (pos : 0 < c.frame_size) where
  -- Frame `j` begins behind `j` whole frames, each with its tag.
  pub drop-sealed :
      (j k m i : ℕ) (p : Str)
      → k ≡ j + m
      → j * c.frame_size < length p
      → drop (j * (c.frame_size + 16)) (sealed c base k i p)
        ≡ sealed c base m (i + j) (drop (j * c.frame_size) p)
  drop-sealed zero k m i p e h =
      let q : k ≡ m = omega arith in
      let z : i + 0 ≡ i = omega arith in rw (q, z, zero-mul, zero-mul)
  drop-sealed (suc j) zero m i p e h = absurd (omega arith)
  drop-sealed (suc j) (suc k) m i p e h =
      let long : c.frame_size < length p = omega arith in
      let shorter : length (drop c.frame_size p) ≡ length p - c.frame_size =
        length-drop c.frame_size p in
      let first = seal_at c base i (take c.frame_size p) in
      let full : length first ≡ c.frame_size + 16 =
        omega (arith, length-seal_at c base i (take c.frame_size p), length-take c.frame_size p) in
      let next : i + 1 + j ≡ i + suc j = omega arith in
      rw (
        sealed_more c base k i p (lt→leb _ _ long),
        ← drop-drop (j * (c.frame_size + 16)) (c.frame_size + 16) (suc j * (c.frame_size + 16))
            (first ++ sealed c base k (i + 1) (drop c.frame_size p)) (omega arith),
        drop-append (c.frame_size + 16) first (sealed c base k (i + 1) (drop c.frame_size p)) full,
        drop-sealed j k m (i + 1) (drop c.frame_size p) (omega arith) (omega arith),
        drop-drop (j * c.frame_size) c.frame_size (suc j * c.frame_size) p (omega arith),
        next,
      )

  -- The first frame of `q`, read with the size that DecryptRange computes.
  pub take-sealed :
      (m i n : ℕ) (q : Str)
      → length q < m
      → n ≡ (
          if ltb (length (sealed c base m i q)) (c.frame_size + 16)
          then length (sealed c base m i q)
          else c.frame_size + 16)
      → take n (sealed c base m i q) ≡ seal_at c base i (take c.frame_size q)
  take-sealed zero i n q h e = absurd (omega arith)
  take-sealed (suc m) i n q h e = elim (Bool-cases (leb (length q) c.frame_size)) [
    | inl one ↦
        let all : take c.frame_size q ≡ q = take_all c.frame_size q (leb→le _ _ one) in
        let last = sealed_last c base m i q one in
        rw (all, last)
          (take_all n (seal_at c base i q)
            (ground (arith, e, ap length last, length-seal_at c base i q, leb→le _ _ one)))
    | inr more ↦
        let long : c.frame_size < length q = leb→lt _ _ more in
        let first = seal_at c base i (take c.frame_size q) in
        let full : length first ≡ c.frame_size + 16 =
          omega
            (arith, length-seal_at c base i (take c.frame_size q), length-take c.frame_size q) in
        let rest = sealed c base m (i + 1) (drop c.frame_size q) in
        let two = sealed_more c base m i q more in
        let size : n ≡ c.frame_size + 16 =
          ground (arith, e, ap length two, length-append first rest, full) in
        rw (two, size, take-append (c.frame_size + 16) first rest full)
  ]

  pub sealed-long :
      (m i : ℕ) (q : Str) → length q < m → 0 < length q → 16 < length (sealed c base m i q)
  sealed-long zero i q h g = absurd (omega arith)
  sealed-long (suc m) i q h g = elim (Bool-cases (leb (length q) c.frame_size)) [
    | inl one ↦ rw (sealed_last c base m i q one) (omega (arith, length-seal_at c base i q))
    | inr more ↦
        let long : c.frame_size < length q = leb→lt _ _ more in
        rw (sealed_more c base m i q more, length-append)
          (omega (arith, length-seal_at c base i (take c.frame_size q), length-take c.frame_size q))
  ]
