-- ===== src/Crypto/BigEndian.antt =====
-- `encoding/binary`: the width and the value of big-endian numbers.
use telang.Common.{
  ℕ, zero, suc, ◌/◌, ◌%◌, ◌^◌, ◌<◌, ◌≡◌, refl, ◌∷◌, [], length, arith, length-append,
}
use telang.Crypto.Layout.{big_endian, from_big_endian}

pub length-big_endian : (k n : ℕ) → length (big_endian k n) ≡ k
unfolding big_endian
length-big_endian zero n = refl
length-big_endian (suc k) n =
    omega (
      arith,
      length-append (big_endian k (n / 256)) ((n % 256) ∷ []),
      length-big_endian k (n / 256),
    )

pub from_big_endian-four : (n : ℕ) → n < 2 ^ 32 → from_big_endian (big_endian 4 n) 0 ≡ n
unfolding from_big_endian big_endian
from_big_endian-four n h = omega arith

pub from_big_endian-eight : (n : ℕ) → n < 2 ^ 64 → from_big_endian (big_endian 8 n) 0 ≡ n
unfolding from_big_endian big_endian
from_big_endian-eight n h = omega arith
