-- ===== src/Crypto/Decrypted.antt =====
-- crypto.go: the decrypter on sealed frames.
use native.Mathlib.Nat.{eq-or-lt_of_le}
use telang.Common.{
  ℕ, zero, suc, ◌+◌, ◌-◌, ◌^◌, ◌≤◌, ◌<◌, ◌≡◌, refl, Bool, true, false, ◌++◌, Str, length, take,
  drop, leb, [], arith, length-append, length-drop, length-take, leb→le, leb→lt, take-append,
  drop-append, take-append-drop, append-nil, some, inl, inr, Bool-cases,
}
use telang.Crypto.Layout.{Aead, Cipher, frame_nonce, frame_aad}
use telang.Crypto.Stream.{frame, at_eof, eof, drain_frame, drain_ended, drain_eof}
use telang.Crypto.Decrypt.{DecryptCore, decrypt_next, plaintext_of}
use telang.Crypto.Sealed.{seal_at, sealed, sealed_last, sealed_more, length-seal_at}

module _ (c : Cipher) (base : Str) where
  abbrev pub decrypt_at : ℕ → Str → Bool → DecryptCore
  decrypt_at i src end_ = record {
    src = src;
    base = base;
    frame_size = c.frame_size;
    idx = i;
    at_end = end_;
  }

  pub open-seal_at :
      (i : ℕ) (p : Str)
      → Aead.open_sealed c.aead (frame_nonce base i) (seal_at c base i p) (frame_aad i) ≡ some p
  open-seal_at i p = Aead.open_sealed-seal c.aead _ p _

  next_short :
      (i : ℕ) (p : Str)
      → length p < c.frame_size
      → i + 1 < 2 ^ 64
      → decrypt_next c (decrypt_at i (seal_at c base i p) false)
        ≡ frame (decrypt_at (i + 1) [] true) p
  unfolding decrypt_next
  next_short i p h b = ground (arith, length-seal_at c base i p, open-seal_at i p)

  next_full :
      (i : ℕ) (p rest : Str)
      → length p ≡ c.frame_size
      → i + 1 < 2 ^ 64
      → decrypt_next c (decrypt_at i (seal_at c base i p ++ rest) false)
        ≡ frame (decrypt_at (i + 1) rest false) p
  unfolding decrypt_next
  next_full i p rest h b = ground (
    arith,
    length-seal_at c base i p,
    length-append (seal_at c base i p) rest,
    open-seal_at i p,
    take-append (c.frame_size + 16) (seal_at c base i p) rest,
    drop-append (c.frame_size + 16) (seal_at c base i p) rest,
  )

  next_none : (i : ℕ) → decrypt_next c (decrypt_at i [] false) ≡ at_eof (decrypt_at i [] true)
  unfolding decrypt_next
  next_none i = refl

  plaintext_of_last :
      (k i : ℕ) (p : Str)
      → length p ≤ c.frame_size
      → i + 1 < 2 ^ 64
      → plaintext_of c (suc (suc k)) (decrypt_at i (seal_at c base i p) false) ≡ (p, eof)
  unfolding plaintext_of
  plaintext_of_last k i p h b = elim (eq-or-lt_of_le h) [
    | inl full ↦ rw (← append-nil (seal_at c base i p)) (
        rw (
          drain_frame _ _ (suc k) (decrypt_at i (seal_at c base i p ++ []) false) refl
              (next_full i p [] full b),
          drain_eof _ _ k _ (next_none (i + 1)),
          append-nil,
        ))
    | inr short ↦ rw (
      drain_frame _ _ (suc k) (decrypt_at i (seal_at c base i p) false) refl
          (next_short i p short b),
      drain_ended _ _ k (decrypt_at (i + 1) [] true) refl,
      append-nil,
    )
  ]

  -- From frame `i` on the decrypter delivers what was sealed, and then ends.
  pub plaintext_of-sealed :
      (k i : ℕ) (p : Str)
      → 0 < c.frame_size
      → length p < k
      → i + length p + 1 < 2 ^ 64
      → plaintext_of c (suc k) (decrypt_at i (sealed c base k i p) false) ≡ (p, eof)
  unfolding plaintext_of
  plaintext_of-sealed zero i p pos h b = absurd (omega arith)
  plaintext_of-sealed (suc k) i p pos h b = elim (Bool-cases (leb (length p) c.frame_size)) [
    | inl one ↦
        rw (sealed_last c base k i p one) (plaintext_of_last k i p (leb→le _ _ one) (omega arith))
    | inr more ↦
        let long : c.frame_size < length p = leb→lt _ _ more in
        let shorter : length (drop c.frame_size p) ≡ length p - c.frame_size =
          length-drop c.frame_size p in
        let full : length (take c.frame_size p) ≡ c.frame_size =
          omega (arith, length-take c.frame_size p) in
        rw (
          sealed_more c base k i p more,
          drain_frame _ _ (suc k)
              (decrypt_at i
                (seal_at c base i (take c.frame_size p)
                  ++ sealed c base k (i + 1) (drop c.frame_size p))
                false)
              refl (next_full i (take c.frame_size p) _ full (omega arith)),
          plaintext_of-sealed k (i + 1) (drop c.frame_size p) pos (omega arith) (omega arith),
          take-append-drop,
        )
  ]
