-- ===== src/Examples/SigV4Runs.antt =====
-- A signed request, a query, and a stream of chunks.
use telang.Common.{
  ◌≡◌, ◌≢◌, refl, ◌⊎◌, Option, none, some, true, false, [], ◌∷◌, ◌++◌, Str, codes, str_eq, ◌==◌,
  if◌then◌else◌, Result, ok, arith, pos, ℕ, length,
}
use mathlib.Core.List.{Perm}
use mathlib.Core.List.Perm
use telang.S3.Errors.{AuthError}
use telang.SigV4.Canonical.{
  header, Unicode, Request, canonical_headers, build_canonical_request, canonical_query_raw,
  canonical_uri, aws_escape, non_empty_parts, canonical_parts,
}
use telang.SigV4.Checks.{require}
use telang.SigV4.Text.{query_unescape, split}
use telang.SigV4.Auth.{Tools, Verifier, BodyMode, untouched, verify}
use telang.SigV4.Accepted.{verify_accepted, Signed, Presigned}
use telang.SigV4.Escape.{query_unescape-aws_escape}
use telang.SigV4.Order.{canonical_query_raw_perm}
use telang.SigV4.BlankLine.{build_canonical_request_ne_aws, aws_canonical_request}
use telang.SigV4.Chunked.{ChunkReader, StreamKey, new_chunk_reader, read_chunk, next_signed}
use telang.SigV4.Chain.{none_yet, one_more, Authentic, Reads-Authentic}
use telang.SigV4.HashBody.{HashReader, Net, Delivers, read_full, read_full_unchecked}

-- One space is taken from the front.
abbrev trim_lead : Str → Str
trim_lead [] = []
trim_lead (c ∷ t) = if c == b' ' then t else c ∷ t

abbrev plain_unicode : Unicode
plain_unicode = record { to_lower = λ s. s; trim_space = trim_lead; equal_fold = str_eq }

-- Tools whose HMAC is always the byte 1.
abbrev toy_tools : Tools
toy_tools = record {
  sha256 = λ s. [];
  hmac = λ k m. 1 ∷ [];
  parse_time = λ s. some 5;
  is_date = λ s. str_eq s (codes "20240101");
  unicode = plain_unicode;
}

abbrev lookup_ak : Str → Option Str
lookup_ak k = if str_eq k (codes "ak") then some (codes "sk") else none

abbrev verifier : Verifier
verifier = record { region = codes "r"; lookup = some lookup_ak; now = 7 }

abbrev signed_request : Request
signed_request = record {
  method = codes "GET";
  path = codes "/pets/cat";
  raw_query = codes "b=1&a=2";
  query = [];
  host = codes "h";
  content_length = none;
  values = λ name.
      if str_eq name (codes "Authorization")
      then codes
          "AWS4-HMAC-SHA256 Credential=ak/20240101/r/s3/aws4_request, SignedHeaders=host, Signature=01"
        ∷ []
      else if str_eq name (codes "X-Amz-Date")
      then codes "d" ∷ []
      else if str_eq name (codes "X-Amz-Content-Sha256")
      then codes "UNSIGNED-PAYLOAD" ∷ []
      else [];
}

signed_request_passes : verify toy_tools verifier signed_request ≡ ok untouched
unfolding verify telang.SigV4.Auth.verify_header header require telang.SigV4.Auth.parse_auth_header
    telang.SigV4.Auth.put_fields split telang.S3.Router.is_empty telang.SigV4.Auth.is_complete
    telang.SigV4.Checks.found telang.SigV4.Auth.region_fits build_canonical_request
    canonical_headers telang.SigV4.Canonical.signed_names telang.SigV4.Canonical.header_lines
    telang.SigV4.Canonical.signed_value telang.SigV4.Auth.expected_signature
    telang.SigV4.Text.hex_encode telang.SigV4.Checks.◌>>=◌ telang.SigV4.Auth.put_field
    telang.SigV4.Auth.put_scope telang.SigV4.Auth.body_mode telang.SigV4.Canonical.sort
    telang.SigV4.Canonical.first_value telang.SigV4.Auth.no_names telang.SigV4.Text.hex_digit str_eq
    telang.Common.has_prefix telang.Common.trim_prefix
signed_request_passes = refl

verify_accepted_example :
    (lookup : Str → Option Str) × (verifier.lookup ≡ some lookup)
    × (Signed toy_tools verifier lookup signed_request
          (header signed_request (codes "Authorization"))
        ⊎ Presigned toy_tools verifier lookup signed_request)
verify_accepted_example =
    verify_accepted toy_tools verifier signed_request untouched signed_request_passes

query_unescape-aws_escape_example :
    query_unescape (aws_escape true (codes "a b/c")) ≡ some (codes "a b/c")
query_unescape-aws_escape_example =
    query_unescape-aws_escape (codes "a b/c")
      (omega arith, (omega arith, (omega arith, (omega arith, (omega arith, tt)))))

swapped :
    Perm
      (non_empty_parts (split b'&' (codes "b=1&a=2")))
      (non_empty_parts (split b'&' (codes "a=2&b=1")))
unfolding split non_empty_parts
swapped = Perm.swap _ _ []

canonical_query_raw_perm_example :
    canonical_query_raw (codes "b=1&a=2") ≡ canonical_query_raw (codes "a=2&b=1")
canonical_query_raw_perm_example =
    canonical_query_raw_perm (codes "b=1&a=2") (codes "a=2&b=1") swapped

canonical_of_signed :
    ◌≡◌ {A = Result AuthError (Str × Str)}
      (canonical_headers plain_unicode signed_request (codes "host" ∷ []))
      (ok (codes "host:h" ++ 10 ∷ [], codes "host"))
unfolding canonical_headers telang.SigV4.Checks.◌>>=◌ str_eq telang.SigV4.Text.join
canonical_of_signed = refl

abbrev canonical_request : Str
canonical_request =
    codes "GET"
    ++ 10 ∷ codes "/pets/cat"
    ++ 10 ∷ codes "a=2&b=1"
    ++ 10 ∷ codes "host:h"
    ++ 10 ∷ 10 ∷ 10 ∷ codes "host"
    ++ 10 ∷ codes "UNSIGNED-PAYLOAD"

canonical_request_built :
    ◌≡◌ {A = Result AuthError Str}
      (build_canonical_request plain_unicode signed_request
        (codes "host" ∷ [])
        (codes "UNSIGNED-PAYLOAD")
        (codes "b=1&a=2"))
      (ok canonical_request)
unfolding build_canonical_request canonical_headers telang.SigV4.Checks.◌>>=◌ str_eq
    telang.SigV4.Text.join telang.Common.has_prefix split telang.Metadata.Order.then_by
    telang.Metadata.Order.cmp_str query_unescape telang.Common.index_byte
canonical_request_built = refl

build_canonical_request_ne_aws_example :
    canonical_request
    ≢ aws_canonical_request
        (codes "GET")
        (canonical_uri (codes "/pets/cat"))
        (canonical_query_raw (codes "b=1&a=2"))
        (codes "host:h" ++ 10 ∷ [])
        (codes "host")
        (codes "UNSIGNED-PAYLOAD")
build_canonical_request_ne_aws_example =
    build_canonical_request_ne_aws plain_unicode signed_request (codes "host" ∷ [])
      (codes "UNSIGNED-PAYLOAD") (codes "b=1&a=2") (codes "host:h" ++ 10 ∷ []) (codes "host")
      canonical_request canonical_of_signed canonical_request_built

abbrev stream_key : StreamKey
stream_key = record { signing_key = []; datetime = []; scope = [] }

abbrev stream : Str
stream = codes "3;chunk-signature=01" ++ 13 ∷ 10 ∷ codes "abc" ++ 13 ∷ 10 ∷ []

abbrev after_read : ChunkReader
after_read = (read_chunk (next_signed toy_tools stream_key) 2 (new_chunk_reader stream [])).2

Reads-Authentic_example :
    Authentic toy_tools stream_key []
      ([] ++ (read_chunk (next_signed toy_tools stream_key) 2 (new_chunk_reader stream [])).0)
      after_read
Reads-Authentic_example =
    Reads-Authentic toy_tools stream_key stream [] _ after_read
      (one_more [] (new_chunk_reader stream []) 2 none_yet)

abbrev wrong_hash : HashReader
wrong_hash = record { src = codes "abc"; seen = []; expected = codes "ff"; bad = false }

abbrev at_once : Net
at_once = record { part = λ m. m; early = true }

at_once_Delivers : Delivers (λ s. []) at_once
at_once_Delivers m h = (h, omega arith)

read_full_unchecked_example : (read_full (λ s. []) at_once 4 3 [] wrong_hash).0 ≡ ok (codes "abc")
read_full_unchecked_example =
    read_full_unchecked (λ s. []) at_once at_once_Delivers 4 3 [] wrong_hash (omega arith)
      (omega arith) (omega arith)
