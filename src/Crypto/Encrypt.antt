-- ===== src/Crypto/Encrypt.antt =====
-- crypto.go: NewEncrypterWithNonce, and Read and nextFrame of the encrypter.
use telang.Common.{
  ℕ, ◌+◌, ◌-◌, ◌%◌, ◌^◌, Bool, true, false, ◌&&◌, Str, length, take, drop, ltb, ◌==◌, if◌then◌else◌,
  [],
}
use telang.Crypto.Layout.{Aead, Cipher, unexpected_eof, frame_nonce, frame_aad, header_of}
use telang.Crypto.Stream.{
  NextFrame, frame, at_eof, failed, Reader, ReadError, no_error, fill, drain,
}

-- The fields of `encrypter` that `nextFrame` works on. `src` is what the plaintext reader has left.
pub record EncryptCore : Type 0 where
  pub src : Str
  pub base : Str
  pub remain : ℕ
  pub idx : ℕ
  pub emitted : Bool
  pub done : Bool

-- `encrypter`: the header, the bytes drained from it, and the frames.
pub record Encrypter : Type 0 where
  pub header : Str
  pub header_n : ℕ
  pub frames : Reader EncryptCore

module _ (c : Cipher) where
  -- `nextFrame` of the encrypter
  unfoldable pub encrypt_next : EncryptCore → NextFrame EncryptCore
  encrypt_next e =
      let size = if ltb e.remain c.frame_size then e.remain else c.frame_size in
      if e.remain == 0 && e.emitted
      then at_eof (record e { done = true })
      else if ltb (length e.src) size
      then failed unexpected_eof (record e { src = [] })
      else frame
          (record e {
            src = drop size e.src;
            remain = e.remain - size;
            idx = (e.idx + 1) % 2 ^ 64;
            emitted = true;
            done = if e.remain - size == 0 then true else e.done;
          })
          (Aead.seal c.aead (frame_nonce e.base e.idx) (take size e.src) (frame_aad e.idx))

  abbrev pub encrypt_start : Str → ℕ → Str → EncryptCore
  encrypt_start src plaintext_size base = record {
    src = src;
    base = base;
    remain = plaintext_size;
    idx = 0;
    emitted = false;
    done = false;
  }

  -- `NewEncrypterWithNonce`
  unfoldable pub new_encrypter : Str → ℕ → Str → Encrypter
  new_encrypter src plaintext_size base = record {
    header = header_of base c.frame_size;
    header_n = 0;
    frames = record { core = encrypt_start src plaintext_size base; buf = []; out = 0 };
  }

  -- `Read` of the encrypter into a buffer of `room` bytes: the header first, then the frames.
  unfoldable pub encrypter_read : ℕ → Encrypter → ℕ → Str × ReadError × Encrypter
  unfolding encrypt_next fill
  encrypter_read fuel e room =
      let left = drop e.header_n e.header in
      let n = if ltb room (length left) then room else length left in
      let filled = fill (λ k. k.done) encrypt_next fuel e.frames (room - n) (take n left) in
      if ltb e.header_n (length e.header) && room - n == 0
      then (take n left, no_error, record e { header_n = e.header_n + n })
      else (
        filled.bytes,
        filled.error,
        record e { header_n = e.header_n + n; frames = filled.reader },
      )

  -- The frames that are read from a fresh encrypter, up to its end.
  unfoldable pub frames_of : ℕ → EncryptCore → Str × ReadError
  frames_of = drain (λ k. k.done) encrypt_next
