-- ===== src/Crypto/Decrypt.antt =====
-- crypto.go: NewDecrypter with readHeader, and Read and nextFrame of the decrypter.
use telang.Common.{
  ℕ, ◌+◌, ◌%◌, ◌^◌, Bool, true, false, ◌||◌, Str, length, take, drop, ltb, ◌==◌, if◌then◌else◌, [],
  some, none, Result, ok, err, ◌∷◌,
}
use telang.Crypto.Layout.{
  Aead, Cipher, CryptoError, bad_version, short_input, short_header, bad_frame_size, open_failed,
  version, header_size, nonce_len, tag_len, max_frame_size, frame_nonce, frame_aad, from_big_endian,
}
use telang.Crypto.Stream.{
  NextFrame, frame, at_eof, failed, Reader, ReadResult, ReadError, fill, drain,
}

-- The fields of `decrypter` that `nextFrame` works on. `src` is what the ciphertext reader has left.
pub record DecryptCore : Type 0 where
  pub src : Str
  pub base : Str
  pub frame_size : ℕ
  pub idx : ℕ
  pub at_end : Bool

pub record Header : Type 0 where
  pub base : Str
  pub frame_size : ℕ

first_byte : Str → ℕ
first_byte [] = 0
first_byte (b ∷ bs) = b

-- The version test and the fields of `readHeader` and of `DecryptRange`.
unfoldable pub header_fields : Str → Header
header_fields hdr = record {
  base = take nonce_len (drop 1 hdr);
  frame_size = from_big_endian (take 4 (drop 13 hdr)) 0;
}

unfoldable pub has_version : Str → Bool
unfolding first_byte
has_version hdr = first_byte hdr == version

-- `readHeader`
unfoldable pub read_header : Str → Result CryptoError Header
unfolding header_fields has_version
read_header src =
    let h = header_fields (take header_size src) in
    if ltb (length src) header_size
    then err short_header
    else if has_version src
    then (if h.frame_size == 0 || ltb max_frame_size h.frame_size
        then err (bad_frame_size h.frame_size)
        else ok h)
    else err bad_version

module _ (c : Cipher) where
  -- The part of `nextFrame` behind the read: `buf` is what was read.
  unfoldable pub open_frame : DecryptCore → Str → NextFrame DecryptCore
  open_frame d buf =
      elim (Aead.open_sealed c.aead (frame_nonce d.base d.idx) buf (frame_aad d.idx)) [
        | none ↦ failed (open_failed d.idx) d
        | some plain ↦ frame (record d { idx = (d.idx + 1) % 2 ^ 64 }) plain
      ]

  -- `nextFrame` of the decrypter: `io.ReadFull` reads a whole frame, nothing, or a short last frame.
  unfoldable pub decrypt_next : DecryptCore → NextFrame DecryptCore
  unfolding open_frame
  decrypt_next d =
      let want = d.frame_size + tag_len in
      let n = length d.src in
      if n == 0
      then at_eof (record d { at_end = true })
      else if ltb n want
      then (if ltb n tag_len
          then failed short_input (record d { src = [] })
          else open_frame (record d { src = []; at_end = true }) d.src)
      else open_frame (record d { src = drop want d.src }) (take want d.src)

  -- `NewDecrypter`
  unfoldable pub new_decrypter : Str → Result CryptoError (Reader DecryptCore)
  unfolding read_header
  new_decrypter src = elim (read_header src) [
    | err e ↦ err e
    | ok h ↦ ok (record {
      core = record {
        src = drop header_size src;
        base = h.base;
        frame_size = h.frame_size;
        idx = 0;
        at_end = false;
      };
      buf = [];
      out = 0;
    })
  ]

  -- `Read` of the decrypter into a buffer of `room` bytes.
  unfoldable pub decrypter_read : ℕ → Reader DecryptCore → ℕ → ReadResult DecryptCore
  unfolding decrypt_next fill
  decrypter_read fuel r room = fill (λ k. k.at_end) decrypt_next fuel r room []

  -- The plaintext that is read from a decrypter, up to its end.
  unfoldable pub plaintext_of : ℕ → DecryptCore → Str × ReadError
  plaintext_of = drain (λ k. k.at_end) decrypt_next
