-- ===== src/SigV4/HashBody.antt =====
-- internal/sigv4/sigv4.go: hashCheckingReader, and `io.ReadFull` over it.
use telang.Common.{
  ℕ, zero, suc, ◌+◌, ◌-◌, ◌≤◌, ◌<◌, ◌≡◌, sym, ap, ◌∙◌, Bool, true, Option, none, some, ◌++◌,
  append_assoc, append-nil, Str, length, take, drop, str_eq, length-drop, length-take,
  length-append, take-take-append, leb, ◌==◌, if◌then◌else◌, min, Result, ok, err, arith, inl, inr,
  Bool-cases,
}
use telang.S3.Errors.{bad_payload_hash}
use telang.SigV4.Text.{hex_encode}
use telang.SigV4.Chunked.{BodyError, end_of_body, cut_short, refused}

-- `hashCheckingReader` over a body with `src` left, with the bytes that it hashed so far. `part`
-- says how many of the bytes that a `Read` could deliver it does deliver, and `early` whether
-- `io.EOF` comes with the last bytes or behind them.
pub record HashReader : Type 0 where
  pub src : Str
  pub seen : Str
  pub expected : Str
  pub bad : Bool

pub record Net : Type 0 where
  pub part : ℕ → ℕ
  pub early : Bool

module _ (sha256 : Str → Str) (net : Net) where
  -- `Read` of the body below.
  unfoldable pub body_read : ℕ → Str → Str × Bool × Str
  body_read room src =
      let n = net.part (min room (length src)) in
      (take n src, (if net.early then length (drop n src) == 0 else length src == 0), drop n src)

  -- `Read`
  unfoldable pub hash_read : ℕ → HashReader → Str × Option BodyError × HashReader
  unfolding body_read
  hash_read room h =
      let (bytes, at_end, src) = body_read room h.src in
      let seen = h.seen ++ bytes in
      if at_end
      then (if str_eq (hex_encode (sha256 seen)) h.expected
          then (bytes, some end_of_body, record h { src = src; seen = seen })
          else (
            bytes,
            some (refused bad_payload_hash),
            record h { src = src; seen = seen; bad = true },
          ))
      else (bytes, none, record h { src = src; seen = seen })

  -- `io.ReadFull` of `n` bytes, as `crypto.encrypter.nextFrame` calls it: once the buffer is full,
  -- the error of the last `Read` is dropped.
  unfoldable pub read_full : ℕ → ℕ → Str → HashReader → Result BodyError Str × HashReader
  unfolding hash_read
  read_full zero n got h = (err cut_short, h)
  read_full (suc fuel) n got h =
      let (bytes, e, h') = hash_read (n - length got) h in
      let all = got ++ bytes in
      let more = read_full fuel n all h' in
      if leb n (length got)
      then (ok got, h)
      else if leb n (length all)
      then (ok all, h')
      else elim e [ none ↦ more | some x ↦ (err x, h') ]

  -- Each `Read` into a buffer delivers a byte at least, and no more than there is room for.
  abbrev pub Delivers : Type 0
  Delivers = (m : ℕ) → 0 < m → (0 < net.part m) × (net.part m ≤ m)

  abbrev taken : ℕ → HashReader → ℕ
  taken room h = net.part (min room (length h.src))

  hash_read-bytes : (room : ℕ) (h : HashReader) → (hash_read room h).0 ≡ take (taken room h) h.src
  unfolding hash_read body_read
  hash_read-bytes room h = ground (arith, Bool-cases net.early)

  hash_read-inside :
      (room : ℕ) (h : HashReader)
      → 0 < length h.src
      → 0 < length (drop (taken room h) h.src)
      → hash_read room h ≡ (
        take (taken room h) h.src,
        none,
        record h { src = drop (taken room h) h.src; seen = h.seen ++ take (taken room h) h.src },
      )
  unfolding hash_read body_read
  hash_read-inside room h a b = ground (arith, Bool-cases net.early)

  -- When each Read below delivers a byte at least, io.ReadFull of no more bytes than are already
  -- read or left in the body, given fuel for each of them, returns them without an error from the
  -- hash-checking reader, whatever hash is expected.
  pub read_full_unchecked :
      (d : Delivers) (fuel n : ℕ) (got : Str) (h : HashReader)
      → n ≤ length got + length h.src
      → length got ≤ n
      → n < fuel + length got
      → (read_full fuel n got h).0 ≡ ok (got ++ take (n - length got) h.src)
  unfolding read_full
  read_full_unchecked d zero n got h a b f = absurd (omega arith)
  read_full_unchecked d (suc fuel) n got h a b f = elim (Bool-cases (leb n (length got))) [
    | inl full ↦
        let none_more : n - length got ≡ 0 = ground arith in
        rw (full, none_more) (ap ok (sym (append-nil got)))
    | inr short ↦
        let room : 0 < n - length got = ground arith in
        let k = taken (n - length got) h in
        let (some_, within) = d (min (n - length got) (length h.src)) (omega arith) in
        let size : length (got ++ take k h.src) ≡ length got + k =
          omega (arith, length-append got (take k h.src), length-take k h.src) in
        rw short (
          rw (hash_read-bytes (n - length got) h)
            (elim (Bool-cases (leb n (length (got ++ take k h.src)))) [
              | inl full ↦
                  let whole : k ≡ n - length got = ground (arith, size) in
                  rw full (ap (λ (j : ℕ). ok (got ++ take j h.src)) whole)
              | inr short' ↦
                  let left : 0 < length (drop k h.src) =
                    ground (arith, size, length-drop k h.src) in
                  let next : HashReader = record h {
                    src = drop k h.src;
                    seen = h.seen ++ take k h.src;
                  } in
                  rw short' (
                    (let inside = hash_read-inside (n - length got) h (omega arith) left in
                      rw (inside, inside)
                        (read_full_unchecked d fuel n (got ++ take k h.src) next
                            (omega (arith, size, length-drop k h.src)) (ground (arith, size))
                            (omega (arith, size))
                          ∙ ap ok (
                              append_assoc got (take k h.src) _
                              ∙ ap (λ (z : Str). got ++ z)
                                  (take-take-append k (n - length (got ++ take k h.src))
                                    (n - length got) h.src (ground (arith, size)))))))
            ]))
  ]
