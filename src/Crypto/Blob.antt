-- ===== src/Crypto/Blob.antt =====
-- A whole ciphertext: what all reads of an encrypter give, and what all reads of a decrypter of it
-- give back.
use telang.Common.{
  ℕ, suc, ◌^◌, ◌≤◌, ◌<◌, ◌≡◌, refl, ap, sym, ◌∙◌, int64, false, ◌++◌, Str, length, drop, [], arith,
  length-append, inl, Result, ok, err,
}
use telang.Crypto.Layout.{
  Cipher, CryptoError, header_of, header_size, nonce_len, max_frame_size, ciphertext_size,
  ciphertext_size_int64,
}
use telang.Crypto.Stream.{ReadError, eof}
use telang.Crypto.Encrypt.{frames_of, encrypt_start}
use telang.Crypto.Decrypt.{Header, read_header, new_decrypter, plaintext_of}
use telang.Crypto.Sealed.{sealed, length-sealed, sealed_fuel, length-le-sealed}
use telang.Crypto.Encrypted.{frames_of-sealed}
use telang.Crypto.Decrypted.{decrypt_at, plaintext_of-sealed}
use telang.Crypto.Header.{length-header_of, drop-header, read_header-header}

-- Every byte that `NewEncrypterWithNonce(src, size, base)` delivers, and the error behind them.
-- A frame holds a byte of the plaintext at least, but for an only empty one.
pub encrypt_all : Cipher → Str → ℕ → Str → Str × ReadError
encrypt_all c src size base =
    let (frames, e) = frames_of c (suc (suc size)) (encrypt_start c src size base) in
    (header_of base c.frame_size ++ frames, e)

-- Every byte that `NewDecrypter(src)` delivers, and the error behind them.
pub decrypt_all : Cipher → Str → Result CryptoError (Str × ReadError)
decrypt_all c src = elim (new_decrypter c src) [
  | err e ↦ err e
  | ok r ↦ ok (plaintext_of c (suc (suc (length src))) r.core)
]

-- The sizes that `NewCipher` lets through, and a base nonce of the right length.
pub record IsUsable (c : Cipher) (base : Str) : Type 0 where
  pub frame_pos : 0 < c.frame_size
  pub frame_fits : c.frame_size ≤ max_frame_size
  pub twelve : length base ≡ nonce_len

abbrev pub blob : Cipher → Str → Str → Str
blob c base p = header_of base c.frame_size ++ sealed c base (suc (length p)) 0 p

decrypt_all_ok :
    (c : Cipher) (src : Str) (h : Header)
    → read_header src ≡ ok h
    → decrypt_all c src
      ≡ ok (
          plaintext_of c (suc (suc (length src))) (record {
            src = drop header_size src;
            base = h.base;
            frame_size = h.frame_size;
            idx = 0;
            at_end = false;
          }))
unfolding decrypt_all new_decrypter
decrypt_all_ok c src h e = ground arith

module _ (c : Cipher) (base p extra : Str) (u : IsUsable c base) (short : length p < 2 ^ 63) where
  pub encrypt_all-blob : encrypt_all c (p ++ extra) (length p) base ≡ (blob c base p, eof)
  unfolding encrypt_all
  encrypt_all-blob = rw (
      frames_of-sealed c base extra u.frame_pos (suc (length p)) 0 p false (omega arith)
        (omega arith) (inl refl))

  pub length-encrypt_all :
      length (encrypt_all c (p ++ extra) (length p) base).0
      ≡ ciphertext_size c.frame_size (length p)
  length-encrypt_all = rw encrypt_all-blob (
      omega (
        arith,
        length-append (header_of base c.frame_size) (sealed c base (suc (length p)) 0 p),
        length-header_of base c.frame_size u.twelve u.frame_pos u.frame_fits [],
        length-sealed c base u.frame_pos (suc (length p)) 0 p (omega arith),
      ))

  pub length-blob : length (blob c base p) ≡ ciphertext_size c.frame_size (length p)
  length-blob = rw (← ap (λ (t : Str × ReadError). t.0) encrypt_all-blob) length-encrypt_all

  -- With a legal frame size and a base nonce of 12 bytes, for p shorter than 2 ^ 63 bytes, what
  -- CiphertextSize returns for `length p`, an int64 that wraps around, is the number of bytes
  -- that the encrypter delivers, wrapped around to 64 bits in the same way.
  pub ciphertext_size_int64-encrypt_all :
      ciphertext_size_int64 c.frame_size (length p)
      ≡ int64 (length (encrypt_all c (p ++ extra) (length p) base).0)
  unfolding ciphertext_size_int64
  ciphertext_size_int64-encrypt_all = ap int64 (sym length-encrypt_all)

  -- With a legal frame size and a base nonce of 12 bytes, a decrypter that reads what the
  -- encrypter delivers for the first `length p` bytes of its source, for p shorter than 2 ^ 63
  -- bytes, delivers p and then io.EOF.
  pub decrypt_all-encrypt_all :
      decrypt_all c (encrypt_all c (p ++ extra) (length p) base).0 ≡ ok (p, eof)
  decrypt_all-encrypt_all =
      let frames = sealed c base (suc (length p)) 0 p in
      let n = length (blob c base p) in
      let long : length p < suc n = omega (
        arith,
        length-append (header_of base c.frame_size) frames,
        length-le-sealed c base u.frame_pos (suc (length p)) 0 p (omega arith),
      ) in
      let more = sealed_fuel c base u.frame_pos (suc (length p)) (suc n) 0 p (omega arith) long in
      rw
        (
          encrypt_all-blob,
          decrypt_all_ok c (blob c base p) _
              (read_header-header base c.frame_size u.twelve u.frame_pos u.frame_fits frames),
          drop-header base c.frame_size u.twelve u.frame_pos u.frame_fits frames,
        )
        (ap ok (
          ap (λ (t : Str). plaintext_of c (suc (suc n)) (decrypt_at c base 0 t false)) more
          ∙ plaintext_of-sealed c base (suc n) 0 p u.frame_pos long (omega arith)))
