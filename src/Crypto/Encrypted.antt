-- ===== src/Crypto/Encrypted.antt =====
-- crypto.go: the frames of a fresh encrypter against the specification of the ciphertext.
use telang.Common.{
  ℕ, zero, suc, ◌+◌, ◌-◌, ◌^◌, ◌≤◌, ◌<◌, ◌≡◌, refl, Bool, true, false, ◌++◌, Str, length, take,
  drop, leb, arith, length-append, length-drop, leb→le, leb→lt, take-append, drop-append,
  take-append_le, drop-append_le, append-nil, ◌⊎◌, inl, inr, Bool-cases,
}
use telang.Crypto.Layout.{Cipher}
use telang.Crypto.Stream.{frame, eof, drain_frame, drain_ended}
use telang.Crypto.Encrypt.{EncryptCore, encrypt_next, frames_of}
use telang.Crypto.Sealed.{seal_at, sealed, sealed_last, sealed_more}

module _ (c : Cipher) (base extra : Str) (pos : 0 < c.frame_size) where
  -- The encrypter in front of frame `i`, with `p` still to be sealed.
  abbrev encrypt_at : ℕ → Str → Bool → EncryptCore
  encrypt_at i p em = record {
    src = p ++ extra;
    base = base;
    remain = length p;
    idx = i;
    emitted = em;
    done = false;
  }

  abbrev encrypt_end : ℕ → EncryptCore
  encrypt_end i = record {
    src = extra;
    base = base;
    remain = 0;
    idx = i;
    emitted = true;
    done = true;
  }

  -- Only the first frame may be empty.
  abbrev IsDue : Str → Bool → Type 0
  IsDue p em = (em ≡ false) ⊎ (0 < length p)

  next_last :
      (i : ℕ) (p : Str) (em : Bool)
      → length p ≤ c.frame_size
      → i + 1 < 2 ^ 64
      → IsDue p em
      → encrypt_next c (encrypt_at i p em) ≡ frame (encrypt_end (i + 1)) (seal_at c base i p)
  unfolding encrypt_next
  next_last i p em h b due = ground (
    arith,
    length-append p extra,
    take-append (length p) p extra refl,
    drop-append (length p) p extra refl,
  )

  next_more :
      (i : ℕ) (p : Str) (em : Bool)
      → c.frame_size < length p
      → i + 1 < 2 ^ 64
      → encrypt_next c (encrypt_at i p em)
        ≡ frame
            (encrypt_at (i + 1) (drop c.frame_size p) true)
            (seal_at c base i (take c.frame_size p))
  unfolding encrypt_next
  next_more i p em h b = ground (
    arith,
    length-append p extra,
    length-drop c.frame_size p,
    take-append_le c.frame_size p extra,
    drop-append_le c.frame_size p extra,
  )

  -- From frame `i` on the encrypter delivers the sealed frames of what is left, and then ends.
  pub frames_of-sealed :
      (k i : ℕ) (p : Str) (em : Bool)
      → length p < k
      → i + length p + 1 < 2 ^ 64
      → IsDue p em
      → frames_of c (suc k) (encrypt_at i p em) ≡ (sealed c base k i p, eof)
  unfolding frames_of
  frames_of-sealed zero i p em h b due = absurd (omega arith)
  frames_of-sealed (suc k) i p em h b due = elim (Bool-cases (leb (length p) c.frame_size)) [
    | inl one ↦ rw (
      drain_frame _ _ (suc k) (encrypt_at i p em) refl
          (next_last i p em (leb→le _ _ one) (omega arith) due),
      drain_ended _ _ k (encrypt_end (i + 1)) refl,
      sealed_last c base k i p one,
      append-nil,
    )
    | inr more ↦
        let long : c.frame_size < length p = leb→lt _ _ more in
        let shorter : length (drop c.frame_size p) ≡ length p - c.frame_size =
          length-drop c.frame_size p in
        rw (
          drain_frame _ _ (suc k) (encrypt_at i p em) refl (next_more i p em long (omega arith)),
          sealed_more c base k i p more,
          frames_of-sealed k (i + 1) (drop c.frame_size p) true (omega arith) (omega arith)
              (inr (omega arith)),
        )
  ]
