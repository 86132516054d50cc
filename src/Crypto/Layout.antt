-- ===== src/Crypto/Layout.antt =====
-- crypto.go: constants, the cipher, sizes, nonces, associated data and the header.
use telang.Common.{
  ℕ, zero, suc, ◌+◌, ◌*◌, ◌/◌, ◌%◌, ◌^◌, bit_xor, ◌≡◌, ◌||◌, Option, some, [], ◌∷◌, ◌++◌, Str,
  length, take, drop, ltb, ◌==◌, if◌then◌else◌, Result, ok, err, ℤ, int64,
}

-- `cipher.AEAD` as `crypto/cipher` documents GCM: `open` undoes `seal` under the same key, nonce
-- and associated data, and `seal` adds a tag of 16 bytes. The key is the one the value was made
-- with.
pub record Aead : Type 0 where
  pub seal : Str → Str → Str → Str
  pub open_sealed : Str → Str → Str → Option Str
  pub open_sealed-seal :
      (nonce plain aad : Str) → open_sealed nonce (seal nonce plain aad) aad ≡ some plain
  pub length-seal : (nonce plain aad : Str) → length (seal nonce plain aad) ≡ length plain + 16

abbrev pub version : ℕ
version = 1

abbrev pub header_size : ℕ
header_size = 17

abbrev pub nonce_len : ℕ
nonce_len = 12

abbrev pub tag_len : ℕ
tag_len = 16

abbrev pub default_frame_size : ℕ
default_frame_size = 65536

abbrev pub max_frame_size : ℕ
max_frame_size = 2 ^ 30

-- The errors that the package returns, one for each message.
pub data CryptoError : Type 0 where
  bad_version short_input short_header bad_range past_end short_read unexpected_eof : CryptoError
  bad_frame_size : ℕ → CryptoError
  bad_key_length : ℕ → CryptoError
  open_failed : ℕ → CryptoError
  -- The run-time panic of `plain[lo:hi]` out of bounds.
  slice_out_of_range : CryptoError

pub record Cipher : Type 0 where
  pub aead : Aead
  pub frame_size : ℕ

-- `NewCipher`: `gcm key` is `cipher.NewGCM` over `aes.NewCipher`, which accept every 32-byte key.
unfoldable pub new_cipher : (Str → Aead) → Str → ℕ → Result CryptoError Cipher
new_cipher gcm key frame_size =
    let fs = if frame_size == 0 then default_frame_size else frame_size in
    if length key == 32
    then (if ltb max_frame_size fs
        then err (bad_frame_size fs)
        else ok (record { aead = gcm key; frame_size = fs }))
    else err (bad_key_length (length key))

-- The sum of `CiphertextSize` at a size that is not negative, before int64 wraps it: they are the
-- same where it is below 2 ^ 63. The callers in the model take it there.
unfoldable pub ciphertext_size : ℕ → ℕ → ℕ
ciphertext_size fs plaintext_size =
    let full = plaintext_size / fs in
    let rem = plaintext_size % fs in
    let out = header_size + full * (fs + tag_len) in
    if ltb 0 rem || plaintext_size == 0 then out + (rem + tag_len) else out

-- `CiphertextSize` at a size that is not negative, in int64. A sum and a product of remainders wrap
-- as their last value does.
unfoldable pub ciphertext_size_int64 : ℕ → ℕ → ℤ
unfolding ciphertext_size
ciphertext_size_int64 fs plaintext_size = int64 (ciphertext_size fs plaintext_size)

-- `binary.BigEndian.PutUint32` and `PutUint64`: the last `k` base-256 digits of `n`.
unfoldable pub big_endian : ℕ → ℕ → Str
big_endian zero n = []
big_endian (suc k) n = big_endian k (n / 256) ++ (n % 256) ∷ []

-- `binary.BigEndian.Uint32`.
unfoldable pub from_big_endian : Str → ℕ → ℕ
from_big_endian [] acc = acc
from_big_endian (b ∷ bs) acc = from_big_endian bs (acc * 256 + b)

-- `fn[4+k] ^= ib[k]`
unfoldable pub xor_bytes : Str → Str → Str
xor_bytes [] bs = []
xor_bytes (a ∷ as_) [] = a ∷ as_
xor_bytes (a ∷ as_) (b ∷ bs) = bit_xor a b ∷ xor_bytes as_ bs

-- `frameNonce` at a base nonce of `nonce_len` bytes, which is what every caller hands it.
unfoldable pub frame_nonce : Str → ℕ → Str
frame_nonce base i = take 4 base ++ xor_bytes (drop 4 base) (big_endian 8 i)

-- `frameAAD`
unfoldable pub frame_aad : ℕ → Str
frame_aad i = big_endian 8 i

-- The header that `NewEncrypterWithNonce` builds.
unfoldable pub header_of : Str → ℕ → Str
header_of base fs = version ∷ (take nonce_len base ++ big_endian 4 (fs % 2 ^ 32))
