-- ===== src/SigV4/Chain.antt =====
-- internal/sigv4/sigv4.go: the bytes that a signed streaming body delivers, whatever reads it.
use telang.Common.{
  ℕ, ◌≡◌, refl, sym, ap, ◌∙◌, ◌&&◌, List, [], ◌∷◌, ◌++◌, append_assoc, append-nil, Str, length,
  take, drop, take-append-drop, ◌==◌, ==_iff, str_eq, eq_of_str_eq, ok, arith, inl, inr, Bool-cases,
  Option-cases, Result-cases,
}
use telang.SigV4.Text.{trim_eol}
use telang.SigV4.Auth.{Tools}
use telang.SigV4.Chunked.{
  ChunkReader, StreamKey, chunk_signature, check_chunk, next_signed, copy_left, read_chunk,
  read_line, signed_line, read_data, new_chunk_reader,
}

abbrev pub concat : List Str → Str
concat [] = []
concat (d ∷ ds) = d ++ concat ds

module _ (t : Tools) (k : StreamKey) where
  -- The signature behind a list of chunks, each signed over the signature before it.
  abbrev pub chain : Str → List Str → Str
  chain prev [] = prev
  chain prev (d ∷ ds) = chain (chunk_signature t k prev d) ds

  -- Any number of `Read` calls, with buffers of any size: what they delivered in order.
  pub data Reads (c : ChunkReader) : Str → ChunkReader → Type 0 where
    none_yet : Reads c [] c
    one_more :
        (out : Str) (c' : ChunkReader) (room : ℕ)
        → Reads c out c'
        → Reads c
            (out ++ (read_chunk (next_signed t k) room c').0)
            (read_chunk (next_signed t k) room c').2

  -- The chunks that were accepted: their bytes are what was delivered and what waits, and the
  -- reader's signature is the end of their chain.
  pub record Authentic (seed out : Str) (c : ChunkReader) : Type 0 where
    pub chunks : List Str
    pub bytes : out ++ c.leftover ≡ concat chunks
    pub signed : c.prev_sig ≡ chain seed chunks

  concat-append : (ds : List Str) (d : Str) → concat (ds ++ d ∷ []) ≡ concat ds ++ d
  concat-append [] d = append-nil d
  concat-append (e ∷ ds) d =
      ap (λ (z : Str). e ++ z) (concat-append ds d) ∙ sym (append_assoc e (concat ds) d)

  chain-append :
      (prev : Str) (ds : List Str) (d : Str)
      → chain prev (ds ++ d ∷ []) ≡ chunk_signature t k (chain prev ds) d
  chain-append prev [] d = refl
  chain-append prev (e ∷ ds) d = chain-append (chunk_signature t k prev e) ds d

  -- A chunk that `nextChunk` accepts is signed over the signature before it.
  abbrev Accepted : ChunkReader → ChunkReader → Type 0
  Accepted c c' = (d : Str) × (c'.leftover ≡ d) × (c'.prev_sig ≡ chunk_signature t k c.prev_sig d)

  nil_of_length : (s : Str) → length s ≡ 0 → s ≡ []
  nil_of_length [] h = refl
  nil_of_length (x ∷ s) h = absurd (omega arith)

  check_chunk-Accepted :
      (c c' : ChunkReader) (sig d src : Str)
      → c.leftover ≡ []
      → check_chunk t k c sig (d, src) ≡ ok c'
      → Accepted c c'
  unfolding check_chunk
  check_chunk-Accepted c c' sig d src e h =
      elim (Bool-cases (str_eq (chunk_signature t k c.prev_sig d) sig)) [
        | inr bad ↦ absurd (ground arith)
        | inl good ↦
            let same = eq_of_str_eq _ _ good in
            elim (Bool-cases (length d == 0)) [
              | inl last ↦ (d, ground (arith, nil_of_length d), ground arith)
              | inr more ↦ (d, ground arith, ground arith)
            ]
      ]

  next_signed-Accepted :
      (c c' : ChunkReader) → c.leftover ≡ [] → next_signed t k c ≡ ok c' → Accepted c c'
  unfolding next_signed
  next_signed-Accepted c c' e h = elim (Option-cases (read_line c.src)) [
    | inl l ↦ absurd (ground arith)
    | inr ((line, src), l) ↦ elim (Result-cases (signed_line t (trim_eol line))) [
      | inr (x, s) ↦ absurd (ground arith)
      | inl ((size, sig), s) ↦ elim (Result-cases (read_data size src)) [
        | inr (x, d) ↦ absurd (ground arith)
        | inl ((data_, left), d) ↦ check_chunk-Accepted c c' sig data_ left e (ground arith)
      ]
    ]
  ]

  Authentic-copy :
      (seed out : Str) (c : ChunkReader) (room : ℕ)
      → Authentic seed out c
      → Authentic seed (out ++ (copy_left room c).0) (copy_left room c).2
  unfolding copy_left
  Authentic-copy seed out c room a = record {
    chunks = a.chunks;
    bytes =
        append_assoc out (take room c.leftover) (drop room c.leftover)
        ∙ ap (λ (z : Str). out ++ z) (take-append-drop room c.leftover)
        ∙ a.bytes;
    signed = a.signed;
  }

  Authentic-still :
      (seed out : Str) (c c' : ChunkReader)
      → c'.leftover ≡ c.leftover
      → c'.prev_sig ≡ c.prev_sig
      → Authentic seed out c
      → Authentic seed (out ++ []) c'
  Authentic-still seed out c c' l p a = record {
    chunks = a.chunks;
    bytes = rw (append-nil out, l) a.bytes;
    signed = p ∙ a.signed;
  }

  Authentic-next :
      (seed out : Str) (c c' : ChunkReader)
      → c.leftover ≡ []
      → next_signed t k c ≡ ok c'
      → Authentic seed out c
      → Authentic seed out c'
  Authentic-next seed out c c' e h a =
      let (d, left, sig) = next_signed-Accepted c c' e h in
      let before : out ≡ concat a.chunks =
        sym (append-nil out) ∙ ap (λ (z : Str). out ++ z) (sym e) ∙ a.bytes in
      record {
        chunks = a.chunks ++ d ∷ [];
        bytes =
            ap (λ (z : Str). out ++ z) left
            ∙ ap (λ (z : Str). z ++ d) before
            ∙ sym (concat-append a.chunks d);
        signed =
            sig
            ∙ ap (λ (z : Str). chunk_signature t k z d) a.signed
            ∙ sym (chain-append seed a.chunks d);
      }

  Authentic-read :
      (seed out : Str) (c : ChunkReader) (room : ℕ)
      → Authentic seed out c
      → Authentic seed
          (out ++ (read_chunk (next_signed t k) room c).0)
          (read_chunk (next_signed t k) room c).2
  unfolding read_chunk next_signed
  Authentic-read seed out c room a = elim (Option-cases c.error) [
    | inr (e, x) ↦ rw (x, read_chunk) (Authentic-still seed out c c refl refl a)
    | inl x ↦
        rw (x, read_chunk)
          (elim (Bool-cases (length c.leftover == 0)) [
            | inr more ↦ rw more (Authentic-copy seed out c room a)
            | inl empty ↦
                let e : c.leftover ≡ [] = nil_of_length c.leftover ((==_iff _ 0).0 empty) in
                rw empty (elim (Bool-cases c.at_eof) [
                  | inl over ↦ rw over (Authentic-still seed out c _ refl refl a)
                  | inr on ↦ rw on (elim (Result-cases (next_signed t k c)) [
                    | inr (y, n) ↦ rw n (Authentic-still seed out c _ refl refl a)
                    | inl (c', n) ↦
                        let b = Authentic-next seed out c c' e n a in
                        rw n (elim (Bool-cases (c'.at_eof && length c'.leftover == 0)) [
                          | inl over ↦ rw over (Authentic-still seed out c' c' refl refl b)
                          | inr on' ↦ rw on' (Authentic-copy seed out c' room b)
                        ])
                  ])
                ])
          ])
  ]

  -- Whatever the body, the seed signature and the sizes of the buffers, after any number of Reads
  -- of the signed chunked reader the bytes delivered, with those that wait, are the bytes of a
  -- list of chunks, and the signature that the reader holds is the end of the chain of signatures
  -- that begins with the seed and signs these chunks in order.
  pub Reads-Authentic :
      (body seed out : Str) (c : ChunkReader)
      → Reads (new_chunk_reader body seed) out c
      → Authentic seed out c
  unfolding new_chunk_reader
  Reads-Authentic body seed _ _ none_yet = record { chunks = []; bytes = refl; signed = refl }
  Reads-Authentic body seed _ _ (one_more out c room r) =
      Authentic-read seed out c room (Reads-Authentic body seed out c r)
