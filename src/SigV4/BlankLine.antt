-- ===== src/SigV4/BlankLine.antt =====
-- internal/sigv4/sigv4.go: buildCanonicalRequestWithQuery against the format that AWS documents.
use telang.Common.{
  ◌+◌, ◌≡◌, ◌≢◌, refl, ap, sym, ◌∙◌, List, [], ◌∷◌, ◌++◌, Str, length, Result, ok, arith,
  length-append,
}
use telang.S3.Errors.{AuthError}
use telang.SigV4.Text.{join}
use telang.SigV4.Checks.{◌>>=◌}
use telang.SigV4.Canonical.{
  Unicode, Request, canonical_uri, canonical_query_raw, canonical_headers, build_canonical_request,
}

-- The canonical request of the AWS documentation, where each header line brings its own newline.
abbrev pub aws_canonical_request : Str → Str → Str → Str → Str → Str → Str
aws_canonical_request method uri query lines names payload_hash =
    method ++ 10 ∷ uri ++ 10 ∷ query ++ 10 ∷ lines ++ 10 ∷ names ++ 10 ∷ payload_hash

length-joined :
    (a b c d e f : Str)
    → length (join (10 ∷ []) (a ∷ b ∷ c ∷ d ∷ [] ∷ e ∷ f ∷ []))
      ≡ length (aws_canonical_request a b c d e f) + 1
unfolding join
length-joined a b c d e f = grind (arith, length-append)

ok_injective : {s t : Str} → ◌≡◌ {A = Result AuthError Str} (ok s) (ok t) → s ≡ t
ok_injective e = ground arith

-- When the canonical request of a request can be built, it is never the one that AWS documents
-- for the same method, path, query, header lines, names and payload hash.
pub build_canonical_request_ne_aws :
    (u : Unicode) (r : Request) (signed : List Str) (payload_hash raw_query lines names t : Str)
    → canonical_headers u r signed ≡ ok (lines, names)
    → build_canonical_request u r signed payload_hash raw_query ≡ ok t
    → t
      ≢ aws_canonical_request r.method
          (canonical_uri r.path)
          (canonical_query_raw raw_query)
          lines
          names
          payload_hash
unfolding build_canonical_request
build_canonical_request_ne_aws u r signed payload_hash raw_query lines names t h b same =
    let joined : Str = join (10 ∷ []) (
      r.method
      ∷ canonical_uri r.path
      ∷ canonical_query_raw raw_query
      ∷ lines
      ∷ []
      ∷ names
      ∷ payload_hash
      ∷ []) in
    let made : joined ≡ t = ok_injective (sym (built joined refl) ∙ b) in
    let more =
      length-joined r.method (canonical_uri r.path) (canonical_query_raw raw_query) lines names
        payload_hash in
    absurd (omega (arith, more, ap length made, ap length same))
  where
    built :
        (j : Str)
        → j
          ≡ join (10 ∷ []) (
              r.method
              ∷ canonical_uri r.path
              ∷ canonical_query_raw raw_query
              ∷ lines
              ∷ []
              ∷ names
              ∷ payload_hash
              ∷ [])
        → build_canonical_request u r signed payload_hash raw_query ≡ ok j
    built j e = unfold build_canonical_request ◌>>=◌ in rw (h, e) refl
