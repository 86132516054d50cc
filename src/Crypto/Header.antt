-- ===== src/Crypto/Header.antt =====
-- crypto.go: the header that NewEncrypterWithNonce writes and readHeader reads.
use telang.Common.{
  ℕ, ◌%◌, ◌^◌, ◌≤◌, ◌<◌, ◌≡◌, refl, ap, true, ◌++◌, Str, length, take, drop, arith, length-append,
  take_all, take-append, drop-append, ok,
}
use telang.Crypto.Layout.{
  header_of, header_size, nonce_len, max_frame_size, big_endian, from_big_endian,
}
use telang.Crypto.BigEndian.{length-big_endian, from_big_endian-four}
use telang.Crypto.Decrypt.{header_fields, has_version, read_header}

module _ (base : Str) (fs : ℕ) (twelve : length base ≡ nonce_len) (pos : 0 < fs)
    (fits : fs ≤ max_frame_size) (rest : Str) where
  base_taken : take nonce_len base ≡ base
  base_taken = take_all nonce_len base (omega arith)

  pub length-header_of : length (header_of base fs) ≡ header_size
  unfolding header_of
  length-header_of = omega (
    arith,
    length-append (take nonce_len base) (big_endian 4 (fs % 2 ^ 32)),
    ap length base_taken,
    length-big_endian 4 (fs % 2 ^ 32),
  )

  pub take-header : take header_size (header_of base fs ++ rest) ≡ header_of base fs
  take-header = take-append header_size (header_of base fs) rest length-header_of

  pub drop-header : drop header_size (header_of base fs ++ rest) ≡ rest
  drop-header = drop-append header_size (header_of base fs) rest length-header_of

  pub has_version-header : has_version (header_of base fs ++ rest) ≡ true
  unfolding has_version header_of
  has_version-header = refl

  header_base : take nonce_len (drop 1 (header_of base fs)) ≡ base
  unfolding header_of
  header_base = rw base_taken (take-append nonce_len base _ twelve)

  header_size_field : from_big_endian (take 4 (drop 13 (header_of base fs))) 0 ≡ fs
  unfolding header_of
  header_size_field =
      let low : fs % 2 ^ 32 ≡ fs = omega arith in
      rw
        (
          base_taken,
          low,
          drop-append nonce_len base (big_endian 4 fs) twelve,
          take_all 4 (big_endian 4 fs) (omega (arith, length-big_endian 4 fs)),
        )
        (from_big_endian-four fs (omega arith))

  pub header_fields-header :
      header_fields (header_of base fs) ≡ record { base = base; frame_size = fs }
  unfolding header_fields
  header_fields-header = λ i. record { base = header_base i; frame_size = header_size_field i }

  -- For a base nonce of 12 bytes and a frame size from 1 to 2 ^ 30, readHeader at the start of
  -- the header that NewEncrypterWithNonce writes, with any bytes behind it, finds that base nonce
  -- and frame size.
  pub read_header-header :
      read_header (header_of base fs ++ rest) ≡ ok (record { base = base; frame_size = fs })
  unfolding read_header
  read_header-header = ground (
    arith,
    take-header,
    header_fields-header,
    has_version-header,
    length-append (header_of base fs) rest,
    length-header_of,
  )
