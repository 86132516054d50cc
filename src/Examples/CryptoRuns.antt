-- ===== src/Examples/CryptoRuns.antt =====
-- The theorems about internal/crypto at the toy cipher.
use telang.Common.{ℕ, int64, ◌≡◌, ◌≢◌, refl, ◌++◌, codes, length, take, drop, ok, arith, []}
use telang.Crypto.Layout.{ciphertext_size_int64, frame_nonce}
use telang.Crypto.Stream.{eof, no_error, Reader, fill, drain}
use telang.Crypto.Encrypt.{EncryptCore, encrypt_next, encrypt_start}
use telang.Crypto.Blob.{
  IsUsable, encrypt_all, decrypt_all, blob, decrypt_all-encrypt_all,
  ciphertext_size_int64-encrypt_all,
}
use telang.Crypto.Range.{decrypt_range}
use telang.Crypto.Ranged.{decrypt_range-blob}
use telang.Crypto.Calls.{fill_enough, fill_last, reported}
use telang.Crypto.Reads.{left_bytes, left_end}
use telang.Crypto.Nonces.{frame_nonce_ne}
use telang.Examples.Toy.{toy_cipher, base}

toy-IsUsable : IsUsable toy_cipher base
toy-IsUsable = record { frame_pos = omega arith; frame_fits = omega arith; twelve = refl }

decrypt_all-encrypt_all_example :
    decrypt_all toy_cipher (encrypt_all toy_cipher (codes "hello world" ++ codes "!") 11 base).0
    ≡ ok (codes "hello world", eof)
decrypt_all-encrypt_all_example =
    decrypt_all-encrypt_all toy_cipher base (codes "hello world") (codes "!") toy-IsUsable
      (omega arith)

ciphertext_size_int64-encrypt_all_example :
    ciphertext_size_int64 4 11
    ≡ int64 (length (encrypt_all toy_cipher (codes "hello world" ++ codes "!") 11 base).0)
ciphertext_size_int64-encrypt_all_example =
    ciphertext_size_int64-encrypt_all toy_cipher base (codes "hello world") (codes "!") toy-IsUsable
      (omega arith)

decrypt_range-blob_example :
    decrypt_range toy_cipher
      (blob toy_cipher base (codes "hello world"))
      (length (blob toy_cipher base (codes "hello world")))
      2
      8
    ≡ ok (take 7 (drop 2 (codes "hello world")))
decrypt_range-blob_example =
    decrypt_range-blob toy_cipher base (codes "hello world") 2 8 toy-IsUsable (omega arith)
      (omega arith)

frame_nonce_ne_example : frame_nonce base 3 ≢ frame_nonce base 4
frame_nonce_ne_example =
    frame_nonce_ne base refl (ground arith) 3 4 (omega arith) (omega arith) (omega arith)

abbrev hello : Reader EncryptCore
hello = record { core = encrypt_start toy_cipher (codes "hello!") 6 base; buf = []; out = 0 }

fill_enough_example :
    ((fill (λ k. k.done) (encrypt_next toy_cipher) 20 hello 5 []).bytes
      ≡ take 5 (left_bytes (λ k. k.done) (encrypt_next toy_cipher) 4 hello))
    × ((fill (λ k. k.done) (encrypt_next toy_cipher) 20 hello 5 []).error ≡ no_error)
    × ((j : ℕ) × (left_bytes
            (λ k. k.done)
            (encrypt_next toy_cipher)
            j
            (fill (λ k. k.done) (encrypt_next toy_cipher) 20 hello 5 []).reader
          ≡ drop 5 (left_bytes (λ k. k.done) (encrypt_next toy_cipher) 4 hello))
        × (left_end
              (λ k. k.done)
              (encrypt_next toy_cipher)
              j
              (fill (λ k. k.done) (encrypt_next toy_cipher) 20 hello 5 []).reader
            ≡ left_end (λ k. k.done) (encrypt_next toy_cipher) 4 hello))
unfolding drain encrypt_next
fill_enough_example =
    fill_enough (λ k. k.done) (encrypt_next toy_cipher) 20 4 5 hello (omega arith) (λ e. cc)
      (omega arith)

fill_last_example :
    ((fill (λ k. k.done) (encrypt_next toy_cipher) 200 hello 50 []).bytes
      ≡ take 50 (left_bytes (λ k. k.done) (encrypt_next toy_cipher) 4 hello))
    × ((fill (λ k. k.done) (encrypt_next toy_cipher) 200 hello 50 []).error
        ≡ reported
            (left_bytes (λ k. k.done) (encrypt_next toy_cipher) 4 hello)
            (left_end (λ k. k.done) (encrypt_next toy_cipher) 4 hello))
unfolding drain encrypt_next
fill_last_example =
    fill_last (λ k. k.done) (encrypt_next toy_cipher) 200 4 50 hello (omega arith) (λ e. cc)
      (omega arith)
