-- ===== src/Examples/RequestRuns.antt =====
-- The theorems about internal/s3api's requests and the Bot API's calls at concrete ones.
use telang.Common.{
  ℕ, zero, suc, ◌+◌, ◌-◌, ◌*◌, ◌^◌, ◌≤◌, ◌<◌, ◌≡◌, ◌≢◌, ◌⊎◌, refl, ◌++◌, ◌∷◌, [], List, Bool, true,
  false, some, none, Option, Str, Result, codes, Lacks, length, ltb, leb, if◌then◌else◌, ok, err,
  contains, ℤ, pos, arith,
}
use telang.S3.ByteRange.{parse_range, parse_range-inside, parse_range-closed}
use telang.S3.Paths.{split_path}
use telang.S3.Router.{
  Request, Route, Served, handled, route, key_of, serve_http, is_unimplemented_subresource,
  not_routed,
}
use telang.S3.Router
use telang.S3.Errors.{AuthError}
use telang.S3.Dispatch.{serve_http-handled}
use telang.Storage.BotCalls.{Client, no_reply, call_form, call_with_retry}
use telang.Storage.Attempts.{logged, empties, call_form-attempts, call_with_retry-pipe}

abbrev put_cat : Request
put_cat = record { method = Router.put; path = codes "/pets/cat.jpg"; query = [] }

serve_http-handled_example :
    (false ≡ false)
    × (◌≡◌ {A = Result AuthError (Unit {0})} (ok tt) (ok tt))
    × (is_unimplemented_subresource put_cat.query ≡ false)
    × (route put_cat ≡ Router.put_object (codes "pets") (codes "cat.jpg"))
    × (Router.put_object (codes "pets") (codes "cat.jpg") ≢ not_routed)
unfolding serve_http route split_path is_unimplemented_subresource Router.served_by Router.route_to
serve_http-handled_example =
    serve_http-handled false (ok tt) put_cat (Router.put_object (codes "pets") (codes "cat.jpg"))
      refl

parse_range-inside_example : (2 ≤ 8) × (8 < 11)
unfolding parse_range telang.Common.has_prefix contains telang.Common.trim_prefix
    telang.Common.index_byte telang.S3.ByteRange.range_of telang.Common.parse_int
parse_range-inside_example = parse_range-inside (codes "bytes=2-8") 11 {a = 2} {b = 8} refl

-- A server that never answers, behind a client that reads the whole body.
abbrev deaf : Client (Unit {0})
deaf = record {
  post = λ method body s. (no_reply, length body, s);
  wait = λ d s. (false, s);
  unmarshal_envelope = λ raw. none;
}

call_form-attempts_example :
    (k : ℕ) × (k ≤ 3)
    × ((call_form
          (logged deaf)
          3
          (λ (s : Str). some s)
          (codes "getFile")
          (codes "file_id=x")
          (tt, [])).1.1
        ≡ codes "file_id=x" ∷ empties k)
call_form-attempts_example =
    call_form-attempts deaf (λ (s : Str). some s) (codes "getFile") 3 (codes "file_id=x") tt
      (λ body t. omega arith)

call_with_retry-pipe_example :
    (call_with_retry
      (logged deaf)
      3
      (λ (s : Str). some s)
      (codes "sendDocument")
      (record { is_pipe = true; bytes = codes "blob" })
      (tt, [])).2.1
    ≡ codes "blob" ∷ []
call_with_retry-pipe_example =
    call_with_retry-pipe deaf (λ (s : Str). some s) (codes "sendDocument") 3 (codes "blob") tt
