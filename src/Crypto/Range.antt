-- ===== src/Crypto/Range.antt =====
-- crypto.go: DecryptRange.
use telang.Common.{
  ℕ, zero, suc, ◌+◌, ◌-◌, ◌*◌, ◌/◌, ◌&&◌, ◌++◌, Str, length, take, drop, ltb, leb, ◌==◌,
  if◌then◌else◌, [], some, none, Result, ok, err, ◌>>=◌,
}
use telang.Crypto.Layout.{
  Aead, Cipher, CryptoError, bad_version, short_header, bad_frame_size, bad_range, past_end,
  short_read, open_failed, slice_out_of_range, header_size, tag_len, frame_nonce, frame_aad,
}
use telang.Crypto.Decrypt.{Header, header_fields, has_version}

-- `ReadAt(buf, off)` of a file that holds `src`: an error unless `n` bytes are there.
unfoldable pub read_at : Str → ℕ → ℕ → CryptoError → Result CryptoError Str
read_at src n off e = if ltb (length src) (off + n) then err e else ok (take n (drop off src))

-- `plain[lo:hi]`
unfoldable pub slice : Str → ℕ → ℕ → Result CryptoError Str
slice plain lo hi =
    if leb lo hi && leb hi (length plain)
    then ok (take (hi - lo) (drop lo plain))
    else err slice_out_of_range

-- The part of the plaintext of frame `i` that lies in [start, end_].
unfoldable pub range_cut : ℕ → ℕ → ℕ → ℕ → Str → Result CryptoError Str
range_cut frame_size start end_ i plain =
    let frame_start = i * frame_size in
    let lo = if ltb frame_start start then start - frame_start else 0 in
    let hi =
      if ltb (end_ + 1) (frame_start + length plain)
      then end_ - frame_start + 1
      else length plain in
    slice plain lo hi

-- `c.aead.Open(nil, nonce, buf, aad)` for frame `i`.
unfoldable pub open_at : Cipher → Str → ℕ → Str → Result CryptoError Str
open_at c base i buf = elim (Aead.open_sealed c.aead (frame_nonce base i) buf (frame_aad i)) [
  | none ↦ err (open_failed i)
  | some plain ↦ ok plain
]

module _ (c : Cipher) (src : Str) (h : Header) (ciphertext_size start end_ : ℕ) where
  -- The bytes that frame `i` adds to `dst`.
  unfoldable pub range_frame : ℕ → Result CryptoError Str
  range_frame i =
      let frame_offset = header_size + i * (h.frame_size + tag_len) in
      let remaining = ciphertext_size - frame_offset in
      let read_size =
        if ltb remaining (h.frame_size + tag_len) then remaining else h.frame_size + tag_len in
      if leb remaining tag_len then err past_end else do
        buf ← read_at src read_size frame_offset short_read
        plain ← open_at c h.base i buf
        range_cut h.frame_size start end_ i plain

  -- `for i := firstFrame; i <= lastFrame; i++` with `rounds` to go.
  unfoldable pub range_loop : ℕ → ℕ → Str → Result CryptoError Str
  unfolding range_frame
  range_loop zero i dst = ok dst
  range_loop (suc rounds) i dst = do part ← range_frame i; range_loop rounds (i + 1) (dst ++ part)

-- `DecryptRange` at `start` and `end` that are not negative. The result is what `dst` was written.
unfoldable pub decrypt_range : Cipher → Str → ℕ → ℕ → ℕ → Result CryptoError Str
decrypt_range c src ciphertext_size start end_ =
    let h = header_fields (take header_size src) in
    let first_frame = start / h.frame_size in
    let last_frame = end_ / h.frame_size in
    if ltb end_ start
    then err bad_range
    else if ltb (length src) header_size
    then err short_header
    else if has_version src
    then (if h.frame_size == 0
        then err (bad_frame_size 0)
        else range_loop c src h ciphertext_size start end_ (suc last_frame - first_frame)
            first_frame [])
    else err bad_version
