-- ===== src/SigV4/Chunked.antt =====
-- internal/sigv4/sigv4.go: signedChunkedReader and unsignedChunkedReader.
use telang.Common.{
  ℕ, zero, suc, ◌+◌, Bool, true, false, ◌&&◌, Option, none, some, [], ◌∷◌, Str, codes, str_eq,
  length, take, drop, ltb, ◌==◌, if◌then◌else◌, Result, ok, err, index_byte, index,
}
use telang.S3.Errors.{AuthError, signature_mismatch, other_auth_error}
use telang.SigV4.Text.{join, hex_encode, parse_uint, trim_eol}
use telang.SigV4.Auth.{Tools}

-- The error of a `Read`: `io.EOF`, `io.ErrUnexpectedEOF`, or an error of the package.
pub data BodyError : Type 0 where
  end_of_body cut_short : BodyError
  refused : AuthError → BodyError

-- The fields of both readers; `src` is what the buffered reader has left. Only the signed one has a
-- `prev_sig`.
pub record ChunkReader : Type 0 where
  pub src : Str
  pub prev_sig : Str
  pub leftover : Str
  pub at_eof : Bool
  pub error : Option BodyError

-- `ReadString('\n')`, with `none` for the error at the end.
unfoldable pub read_line : Str → Option (Str × Str)
read_line s = elim (index_byte s 10) [
  | none ↦ none
  | some i ↦ some (take (suc i) s, drop (suc i) s)
]

-- A chunk of `size` bytes and the CRLF behind it: the data, and what is left.
unfoldable pub read_data : ℕ → Str → Result BodyError (Str × Str)
read_data size s =
    if ltb (length s) size
    then err (if length s == 0 then end_of_body else cut_short)
    else if ltb (length (drop size s)) 2
    then err end_of_body
    else ok (take size s, drop 2 (drop size s))

-- The header line of a signed chunk: its size and its signature.
unfoldable pub signed_line : Tools → Str → Result BodyError (ℕ × Str)
signed_line t line = elim (index_byte line b';') [
  | none ↦ err (refused other_auth_error)
  | some semi ↦ elim (index (drop (suc semi) line) (codes "chunk-signature=")) [
    | none ↦ err (refused other_auth_error)
    | some at ↦ elim (parse_uint (take semi line)) [
      | none ↦ err (refused other_auth_error)
      | some size ↦ ok (size, t.unicode.trim_space (drop (at + 16) (drop (suc semi) line)))
    ]
  ]
]

-- The parameters of a signed stream: the key, `X-Amz-Date` and the scope.
pub record StreamKey : Type 0 where
  pub signing_key : Str
  pub datetime : Str
  pub scope : Str

-- The signature of a chunk behind the signature `prev`.
unfoldable pub chunk_signature : Tools → StreamKey → Str → Str → Str
chunk_signature t k prev data_ = hex_encode (
    t.hmac k.signing_key (
      join (10 ∷ []) (
        codes "AWS4-HMAC-SHA256-PAYLOAD"
        ∷ k.datetime
        ∷ k.scope
        ∷ prev
        ∷ hex_encode (t.sha256 [])
        ∷ hex_encode (t.sha256 data_)
        ∷ [])))

-- `nextChunk` of the signed reader behind the header line and behind the data.
unfoldable pub check_chunk :
    Tools → StreamKey → ChunkReader → Str → Str × Str → Result BodyError ChunkReader
unfolding chunk_signature
check_chunk t k c chunk_sig (data_, src) =
    if str_eq (chunk_signature t k c.prev_sig data_) chunk_sig
    then ok (
        if length data_ == 0
        then record c { src = src; prev_sig = chunk_sig; at_eof = true }
        else record c { src = src; prev_sig = chunk_sig; leftover = data_ })
    else err (refused signature_mismatch)

unfoldable pub next_signed : Tools → StreamKey → ChunkReader → Result BodyError ChunkReader
unfolding read_line signed_line read_data check_chunk
next_signed t k c = elim (read_line c.src) [
  | none ↦ err end_of_body
  | some (line, src) ↦ elim (signed_line t (trim_eol line)) [
    | err e ↦ err e
    | ok (size, chunk_sig) ↦ elim (read_data size src) [
      | err e ↦ err e
      | ok d ↦ check_chunk t k c chunk_sig d
    ]
  ]
]

-- The trailers behind the last chunk: header lines up to an empty one, or to the end.
unfoldable pub skip_trailers : ℕ → Str → Str
unfolding read_line
skip_trailers zero s = s
skip_trailers (suc fuel) s = elim (read_line s) [
  | none ↦ []
  | some (line, rest) ↦
      (let more = skip_trailers fuel rest in if length (trim_eol line) == 0 then rest else more)
]

-- The header line of an unsigned chunk: its size.
unfoldable pub unsigned_line : Str → Option ℕ
unsigned_line line = elim (index_byte line b';') [
  | none ↦ parse_uint line
  | some semi ↦ parse_uint (take semi line)
]

-- `nextChunk` of the unsigned reader.
unfoldable pub take_chunk : ChunkReader → Str × Str → ChunkReader
unfolding skip_trailers
take_chunk c (data_, src) =
    if length data_ == 0
    then record c { src = skip_trailers (suc (length src)) src; at_eof = true }
    else record c { src = src; leftover = data_ }

unfoldable pub next_unsigned : ChunkReader → Result BodyError ChunkReader
unfolding read_line unsigned_line read_data take_chunk
next_unsigned c = elim (read_line c.src) [
  | none ↦ err end_of_body
  | some (line, src) ↦ elim (unsigned_line (trim_eol line)) [
    | none ↦ err (refused other_auth_error)
    | some size ↦ elim (read_data size src) [ err e ↦ err e | ok d ↦ ok (take_chunk c d) ]
  ]
]

-- `copy(p, s.leftover)` into a buffer of `room` bytes.
unfoldable pub copy_left : ℕ → ChunkReader → Str × Option BodyError × ChunkReader
copy_left room c = (take room c.leftover, none, record c { leftover = drop room c.leftover })

-- `Read` of either reader, over its `nextChunk`.
unfoldable pub read_chunk :
    (ChunkReader → Result BodyError ChunkReader)
    → ℕ
    → ChunkReader
    → Str × Option BodyError × ChunkReader
unfolding copy_left
read_chunk next room c = elim c.error [
  | some e ↦ ([], some e, c)
  | none ↦
      if length c.leftover == 0
      then (if c.at_eof then ([], some end_of_body, c) else elim (next c) [
        | err e ↦ ([], some e, record c { error = some e })
        | ok c' ↦
            if c'.at_eof && length c'.leftover == 0
            then ([], some end_of_body, c')
            else copy_left room c'
      ])
      else copy_left room c
]

-- `newSignedChunkedReader` and `newUnsignedChunkedReader`
unfoldable pub new_chunk_reader : Str → Str → ChunkReader
new_chunk_reader body seed = record {
  src = body;
  prev_sig = seed;
  leftover = [];
  at_eof = false;
  error = none;
}
