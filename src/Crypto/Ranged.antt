-- ===== src/Crypto/Ranged.antt =====
-- crypto.go: DecryptRange on a ciphertext that the encrypter wrote.
use mathlib.Core.Path.{ap₂}
use native.Mathlib.Nat.{
  le-mul_of_pos_right, div-mul-le_self, lt-div-mul-add, add-mul, le-div_iff_mul-le,
}
use telang.Common.{
  ℕ, zero, suc, ◌+◌, ◌-◌, ◌*◌, ◌/◌, ◌≤◌, ◌<◌, ◌≡◌, refl, sym, ap, ◌∙◌, true, ◌++◌, Str, length,
  take, drop, ltb, if◌then◌else◌, [], arith, length-append, length-drop, length-take, append-nil,
  append_assoc, drop-append, drop-drop, drop-take, take-take, take-take-append, ok, min, le→ltb,
  lt→leb, Bool-cases, inl, inr,
}
use telang.Crypto.Layout.{Cipher, header_size, header_of, short_read}
use telang.Crypto.Decrypt.{Header, header_fields, has_version}
use telang.Crypto.Range.{read_at, slice, range_cut, open_at, range_frame, range_loop, decrypt_range}
use telang.Crypto.Sealed.{seal_at, sealed}
use telang.Crypto.Decrypted.{open-seal_at}
use telang.Crypto.Header.{length-header_of, take-header, has_version-header, header_fields-header}
use telang.Crypto.Blob.{IsUsable, blob}
use telang.Crypto.FrameAt.{drop-sealed, take-sealed, sealed-long}

slice_inside :
    (plain : Str) (lo hi : ℕ)
    → lo ≤ hi
    → hi ≤ length plain
    → slice plain lo hi ≡ ok (take (hi - lo) (drop lo plain))
unfolding slice
slice_inside plain lo hi h g = ground arith

module _ (c : Cipher) (base p : Str) (u : IsUsable c base) (start end_ : ℕ)
    (inside : end_ < length p) where
  abbrev header : Header
  header = record { base = base; frame_size = c.frame_size }

  abbrev total : ℕ
  total = length (blob c base p)

  abbrev tail_of : ℕ → Str
  tail_of i = drop (i * c.frame_size) p

  -- What stands in the blob from frame `i` on.
  drop-blob :
      (i m : ℕ)
      → suc (length p) ≡ i + m
      → i * c.frame_size < length p
      → drop (header_size + i * (c.frame_size + 16)) (blob c base p) ≡ sealed c base m i (tail_of i)
  drop-blob i m e h =
      let frames = sealed c base (suc (length p)) 0 p in
      let z : 0 + i ≡ i = omega arith in
      rw (
        ← drop-drop (i * (c.frame_size + 16)) header_size (header_size + i * (c.frame_size + 16))
            (blob c base p) refl,
        drop-append header_size (header_of base c.frame_size) frames
            (length-header_of base c.frame_size u.twelve u.frame_pos u.frame_fits frames),
        drop-sealed c base u.frame_pos i (suc (length p)) m 0 p e h,
        z,
      )

  read_at_frame :
      (i n : ℕ)
      → i * c.frame_size < length p
      → n ≡ (
          if ltb (total - (header_size + i * (c.frame_size + 16))) (c.frame_size + 16)
          then total - (header_size + i * (c.frame_size + 16))
          else c.frame_size + 16)
      → (read_at (blob c base p) n (header_size + i * (c.frame_size + 16)) short_read
          ≡ ok (seal_at c base i (take c.frame_size (tail_of i))))
        × (16 < total - (header_size + i * (c.frame_size + 16)))
  unfolding read_at
  read_at_frame i n h e =
      let m = suc (length p) - i in
      let off = header_size + i * (c.frame_size + 16) in
      let i_le : i ≤ i * c.frame_size = le-mul_of_pos_right i u.frame_pos in
      let left = drop-blob i m (omega arith) h in
      let size : length (sealed c base m i (tail_of i)) ≡ total - off =
        sym (ap length left) ∙ length-drop off (blob c base p) in
      let rest : length (tail_of i) ≡ length p - i * c.frame_size =
        length-drop (i * c.frame_size) p in
      let long : 16 < length (sealed c base m i (tail_of i)) =
        sealed-long c base u.frame_pos m i (tail_of i) (omega arith) (omega arith) in
      let reads : n ≡ (
          if ltb (length (sealed c base m i (tail_of i))) (c.frame_size + 16)
          then length (sealed c base m i (tail_of i))
          else c.frame_size + 16) =
        rw size e in
      let within : off + n ≤ total = ground arith in
      (
        rw (
          le→ltb total (off + n) within,
          left,
          take-sealed c base u.frame_pos m i n (tail_of i) (omega arith) reads,
        ),
        omega arith,
      )

  -- Where the slice of frame `i` begins and ends in the plaintext.
  abbrev from : ℕ → ℕ
  from i = if ltb (i * c.frame_size) start then start else i * c.frame_size

  abbrev upto : ℕ → ℕ
  upto i =
      if ltb (end_ + 1) (i * c.frame_size + c.frame_size)
      then end_ + 1
      else i * c.frame_size + c.frame_size

  open_at_lem : (i : ℕ) (q : Str) → open_at c base i (seal_at c base i q) ≡ ok q
  unfolding open_at
  open_at_lem i q = ground (arith, open-seal_at c base i q)

  -- What of frame `i` lies in the range, cut out of the frame, stands at the same place in `p`.
  cut_lem :
      (i : ℕ)
      → i * c.frame_size ≤ end_
      → start < i * c.frame_size + c.frame_size
      → start ≤ end_
      → range_cut c.frame_size start end_ i (take c.frame_size (tail_of i))
        ≡ ok (take (upto i - from i) (drop (from i) p))
  unfolding range_cut
  cut_lem i h g se =
      let lo = from i - i * c.frame_size in
      let n = upto i - from i in
      let size : length (take c.frame_size (tail_of i))
          ≡ min c.frame_size (length p - i * c.frame_size) =
        omega (arith, length-take c.frame_size (tail_of i), length-drop (i * c.frame_size) p) in
      let bounds : (i * c.frame_size ≤ from i)
          × (from i ≤ upto i)
          × (upto i ≤ i * c.frame_size + c.frame_size)
          × (from i ≤ upto i) =
        ground arith in
      let same : take n (drop lo (take c.frame_size (tail_of i))) ≡ take n (drop (from i) p) =
        ap (take n) (drop-take lo (c.frame_size - lo) c.frame_size (tail_of i) (omega arith))
        ∙ take-take n (c.frame_size - lo) (drop lo (tail_of i)) (omega arith)
        ∙ ap (take n) (drop-drop lo (i * c.frame_size) (from i) p (omega arith)) in
      let plain = take c.frame_size (tail_of i) in
      let hi = upto i - i * c.frame_size in
      let is_lo : (if ltb (i * c.frame_size) start then start - i * c.frame_size else 0) ≡ lo =
        ground arith in
      let is_hi : (if ltb (end_ + 1) (i * c.frame_size + length plain)
            then end_ - i * c.frame_size + 1
            else length plain)
          ≡ hi =
        ground (arith, size) in
      let count : hi - lo ≡ n = omega arith in
      ap₂ (slice plain) is_lo is_hi
      ∙ slice_inside plain lo hi (omega arith) (ground (arith, size))
      ∙ ap ok (ap (λ t. take t (drop lo plain)) count ∙ same)

  -- One frame adds its part of the requested bytes.
  range_frame_lem :
      (i : ℕ)
      → i * c.frame_size ≤ end_
      → start < i * c.frame_size + c.frame_size
      → start ≤ end_
      → range_frame c (blob c base p) header total start end_ i
        ≡ ok (take (upto i - from i) (drop (from i) p))
  unfolding range_frame
  range_frame_lem i h g se =
      let (reads, long) =
        read_at_frame i
          (if ltb (total - (header_size + i * (c.frame_size + 16))) (c.frame_size + 16)
            then total - (header_size + i * (c.frame_size + 16))
            else c.frame_size + 16)
          (omega arith) refl in
      rw (lt→leb _ _ long, reads, open_at_lem i (take c.frame_size (tail_of i))) (cut_lem i h g se)

  frame_after :
      (i : ℕ)
      → start < i * c.frame_size + c.frame_size
      → take (end_ + 1 - from (i + 1)) (drop (from (i + 1)) p)
        ≡ take (end_ + 1 - upto i) (drop (upto i) p)
  frame_after i g = elim (Bool-cases (ltb (end_ + 1) (i * c.frame_size + c.frame_size))) [
    | inl done ↦
        let none_left : (end_ + 1 - from (i + 1) ≡ 0) × (end_ + 1 - upto i ≡ 0) = ground arith in
        rw (none_left.0, none_left.1)
    | inr go_on ↦
        let same : from (i + 1) ≡ upto i = ground arith in
        ap (λ t. take (end_ + 1 - t) (drop t p)) same
  ]

  -- The loop from frame `i` on adds all that is requested from there.
  range_loop_lem :
      (rounds i s : ℕ) (dst : Str)
      → s ≡ from i
      → start < i * c.frame_size + c.frame_size
      → start ≤ end_
      → end_ < i * c.frame_size + rounds * c.frame_size
      → i * c.frame_size + rounds * c.frame_size ≤ end_ + c.frame_size
      → range_loop c (blob c base p) header total start end_ rounds i dst
        ≡ ok (dst ++ take (end_ + 1 - s) (drop s p))
  unfolding range_loop
  range_loop_lem zero i s dst e g se more less =
      let none_left : end_ + 1 - s ≡ 0 = ground arith in rw none_left (sym (ap ok (append-nil dst)))
  range_loop_lem (suc rounds) i s dst e g se more less =
      let here : i * c.frame_size ≤ end_ = omega arith in
      let next : (i + 1) * c.frame_size ≡ i * c.frame_size + c.frame_size = omega arith in
      let bounds : (from i ≤ upto i) × (upto i ≤ end_ + 1) = ground arith in
      let join : take (upto i - from i) (drop (from i) p)
            ++ take (end_ + 1 - from (i + 1)) (drop (from (i + 1)) p)
          ≡ take (end_ + 1 - from i) (drop (from i) p) =
        ap (λ t. take (upto i - from i) (drop (from i) p) ++ t)
          (frame_after i g
            ∙ ap (take (end_ + 1 - upto i))
                (sym (drop-drop (upto i - from i) (from i) (upto i) p (omega arith))))
        ∙ take-take-append (upto i - from i) (end_ + 1 - upto i) (end_ + 1 - from i)
            (drop (from i) p) (omega arith) in
      rw (
        range_frame_lem i here g se,
        range_loop_lem rounds (i + 1) (from (i + 1))
            (dst ++ take (upto i - from i) (drop (from i) p)) refl (omega arith) se (omega arith)
            (omega arith),
        append_assoc,
        join,
        e,
      )

decrypt_range_loop :
    (c : Cipher) (src : Str) (h : Header) (size start end_ : ℕ)
    → header_fields (take header_size src) ≡ h
    → has_version src ≡ true
    → header_size ≤ length src
    → 0 < h.frame_size
    → start ≤ end_
    → decrypt_range c src size start end_
      ≡ range_loop c src h size start end_
          (suc (end_ / h.frame_size) - start / h.frame_size)
          (start / h.frame_size)
          []
unfolding decrypt_range
decrypt_range_loop c src h size start end_ e v l pos se =
    rw (e, v, le→ltb end_ start se, le→ltb (length src) header_size l) (ground arith)

-- With a legal frame size and a base nonce of 12 bytes, DecryptRange on the ciphertext of p,
-- given its length, at start <= end < length p writes the bytes of p from start to end inclusive
-- and returns no error.
pub decrypt_range-blob :
    (c : Cipher) (base p : Str) (start end_ : ℕ)
    → IsUsable c base
    → start ≤ end_
    → end_ < length p
    → decrypt_range c (blob c base p) (length (blob c base p)) start end_
      ≡ ok (take (end_ + 1 - start) (drop start p))
decrypt_range-blob c base p start end_ u h inside =
    let fs = c.frame_size in
    let frames = sealed c base (suc (length p)) 0 p in
    let first : (start / fs * fs ≤ start) × (start < start / fs * fs + fs) =
      (div-mul-le_self start fs, lt-div-mul-add u.frame_pos) in
    let last : (end_ / fs * fs ≤ end_) × (end_ < end_ / fs * fs + fs) =
      (div-mul-le_self end_ fs, lt-div-mul-add u.frame_pos) in
    let order : start / fs ≤ end_ / fs = (le-div_iff_mul-le u.frame_pos).1 (omega arith) in
    let rounds : (suc (end_ / fs) - start / fs) * fs + start / fs * fs ≡ suc (end_ / fs) * fs =
      let whole : suc (end_ / fs) - start / fs + start / fs ≡ suc (end_ / fs) = omega arith in
      sym (add-mul _ _ fs) ∙ ap (λ t. t * fs) whole in
    decrypt_range_loop c (blob c base p) (record { base = base; frame_size = fs })
      (length (blob c base p)) start end_
      (ap header_fields (take-header base fs u.twelve u.frame_pos u.frame_fits frames)
        ∙ header_fields-header base fs u.twelve u.frame_pos u.frame_fits frames)
      (has_version-header base fs u.twelve u.frame_pos u.frame_fits frames)
      (omega (
        arith,
        length-append (header_of base fs) frames,
        length-header_of base fs u.twelve u.frame_pos u.frame_fits frames,
      ))
      u.frame_pos h
    ∙ range_loop_lem c base p u start end_ inside (suc (end_ / fs) - start / fs) (start / fs) start
        [] (ground arith) (omega arith) h (omega arith) (omega arith)
