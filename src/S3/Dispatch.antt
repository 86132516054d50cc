-- ===== src/S3/Dispatch.antt =====
-- Which requests reach a handler of the S3 router, and with what bucket and key.
use telang.Common.{
  ◌≡◌, ◌≢◌, refl, Bool, true, false, some, List, [], ◌∷◌, Str, Result, ok, err, arith, Bool-cases,
  inl, inr,
}
use telang.S3.Errors.{AuthError}
use telang.S3.Paths.{split_path}
use telang.S3.Router.{
  Method, get, Request, Route, not_routed, route, route_to, served_by, serve_http, handled,
  is_unimplemented_subresource, key_of,
}

served_by-handled : (x h : Route) → served_by x ≡ handled h → (x ≡ h) × (h ≢ not_routed)
unfolding served_by
served_by-handled not_routed h e = cc
served_by-handled x h e = (ground arith, λ n. cc (e, n))

-- A handler runs only on a request that is not the browser's, whose signature was verified, and
-- that names no sub-resource which is not implemented; and it is the handler that the dispatch
-- gives for the method, the path and the query.
pub serve_http-handled :
    (in_browser : Bool) (verified : Result AuthError (Unit {0})) (r : Request) (h : Route)
    → serve_http in_browser verified r ≡ handled h
    → (in_browser ≡ false)
      × (verified ≡ ok tt)
      × (is_unimplemented_subresource r.query ≡ false)
      × (route r ≡ h)
      × (h ≢ not_routed)
unfolding serve_http
serve_http-handled true verified r h e = cc
serve_http-handled false (err x) r h e = cc
serve_http-handled false (ok _) r h e = elim (Bool-cases (is_unimplemented_subresource r.query)) [
  | inl bad ↦ absurd (ground arith)
  | inr good ↦
      let (same, routed) = served_by-handled (route r) h (ground arith) in
      (refl, refl, good, same, routed)
]

key_of-route_to :
    (m : Method) (q : List (Str × Str)) (x y b k : Str)
    → key_of (route_to m q x y) ≡ some (b, k)
    → (x ≡ b) × (y ≡ k) × (b ≢ []) × (k ≢ [])
unfolding route_to
key_of-route_to get q [] y b k h = ground arith
key_of-route_to m q [] y b k h = ground arith
key_of-route_to get q (c ∷ x) [] b k h = ground arith
key_of-route_to m q (c ∷ x) [] b k h = ground arith
key_of-route_to get q (c ∷ x) (d ∷ y) b k h = ground arith
key_of-route_to m q (c ∷ x) (d ∷ y) b k h = ground arith

-- A handler that works on one object gets the bucket and the key that splitPath finds in the
-- path, and neither of them is empty.
pub key_of-route :
    (r : Request) (b k : Str)
    → key_of (route r) ≡ some (b, k)
    → (split_path r.path ≡ (b, k)) × (b ≢ []) × (k ≢ [])
unfolding route
key_of-route r b k h =
    let (x, y, ne, ne') =
      key_of-route_to r.method r.query (split_path r.path).0 (split_path r.path).1 b k h in
    (λ i. (x i, y i), ne, ne')
