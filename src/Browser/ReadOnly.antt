-- ===== src/Browser/ReadOnly.antt =====
-- internal/s3api/browser.go: what a visitor without a session can change.
use telang.Common.{
  ℕ, ◌≡◌, refl, ◌∙◌, false, some, List, [], ◌∷◌, Str, codes, str_eq, has_prefix, trim_prefix,
  index_byte, take, drop, suc, Result, ok, err, inl, inr, Option-cases, Result-cases, Bool-cases,
}
use telang.Metadata.Store
use telang.Metadata.Store.{Object}
use telang.Metadata.Order.{str_key}
use telang.Metadata.Table.{find}
use telang.Keys.{get_key}
use telang.Crypto.Layout.{Cipher, new_cipher}
use telang.Crypto.Blob.{decrypt_all}
use telang.Storage.Interface.{StorageError}
use telang.S3.Paths.{split_path}
use telang.S3.Router.{Method, is_empty, get, post}
use telang.Service.World.{
  External, World, cipher_for, cipher_name, cipher_frame_size, open_ciphertext,
}
use telang.Service.Objects.{get_object, head_object, decrypt_body, ref_of}
use telang.Browser.Sessions.{Session, is_logged_in}
use telang.Browser.Pages.{Options, BrowserRequest, Moment, no_listing}
use telang.Browser.Site.{
  Site, Outside, require_session, render_listing, handle_download, handle_upload, handle_delete,
  log_in, login_method, handle_login, handle_logout, browse_route, handle_browse_route,
  dispatch_page, dispatch,
}

-- The index and the keys are the same.
abbrev pub SameData : {S : Type 0} → World S → World S → Type 0
SameData w w' = (w'.db ≡ w.db) × (w'.keys ≡ w.keys)

module _ {S : Type 0} (x : External S) where
  pub cipher_for-SameData : (bucket : Str) (w : World S) → SameData w (cipher_for x bucket w).1
  unfolding cipher_for
  cipher_for-SameData bucket w = elim (Option-cases (find str_key cipher_name bucket w.ciphers)) [
    | inr (r, e) ↦ rw (e, cipher_for) (refl, refl)
    | inl e ↦
        rw (e, cipher_for)
          (elim (Result-cases (get_key bucket w.keys)) [
            | inr (d, k) ↦ rw k (refl, refl)
            | inl (key, k) ↦
                rw k (elim (Result-cases (new_cipher x.gcm key (cipher_frame_size x))) [
                  | inr (d, n) ↦ rw n (refl, refl)
                  | inl (c, n) ↦ rw n (refl, refl)
                ])
          ])
  ]

  decrypt_body-SameData :
      (o : Object) (c : Cipher) (r : Result StorageError Str × S) (w : World S)
      → SameData w (decrypt_body x o c r w).1
  unfolding decrypt_body
  decrypt_body-SameData o c (err e, s) w = (refl, refl)
  decrypt_body-SameData o c (ok body, s) w = elim (Result-cases (decrypt_all c body)) [
    | inl (p, e) ↦ rw (e, decrypt_body) (refl, refl)
    | inr (d, e) ↦ rw (e, decrypt_body) (refl, refl)
  ]

  pub get_object-SameData :
      (bucket key : Str) (w : World S) → SameData w (get_object x bucket key w).1
  unfolding get_object
  get_object-SameData bucket key w = elim (Result-cases (head_object x bucket key w)) [
    | inr (d, e) ↦ rw (e, get_object) (refl, refl)
    | inl (o, e) ↦
        rw (e, get_object)
          (elim (Result-cases (cipher_for x bucket w).0) [
            | inr (d, f) ↦ rw f (cipher_for-SameData bucket w)
            | inl (c, f) ↦ rw f (
                let v = (cipher_for x bucket w).1 in
                let (same, keys) =
                  decrypt_body-SameData o c (open_ciphertext x (ref_of o) v.ext) v in
                let (same', keys') = cipher_for-SameData bucket w in (same ∙ same', keys ∙ keys'))
          ])
  ]

module _ {S : Type 0} (x : Outside S) (opts : Options) where
  -- The site has the same data.
  abbrev Kept : Site S → Site S → Type 0
  Kept g g' = SameData g.world g'.world

  -- Without a session, `requireSession` refuses.
  refused_without :
      (now : ℕ) (r : BrowserRequest) (ss : List Session)
      → (is_logged_in now r.cookie ss).0 ≡ false
      → (a : _) × ((require_session x opts now r ss).0 ≡ some a)
  unfolding require_session
  refused_without now r ss h = elim (Bool-cases (is_empty opts.password)) [
    | inl e ↦ rw (e) (_, refl)
    | inr e ↦ rw (e, h) (_, refl)
  ]

  handle_upload-Kept :
      (t : Moment) (r : BrowserRequest) (bucket : Str) (g : Site S)
      → (is_logged_in t.now r.cookie g.sessions).0 ≡ false
      → Kept g (handle_upload x opts t r bucket g).1
  unfolding handle_upload
  handle_upload-Kept t r bucket g h =
      let (a, e) = refused_without t.now r g.sessions h in rw (e, handle_upload) (refl, refl)

  handle_delete-Kept :
      (t : Moment) (r : BrowserRequest) (bucket key : Str) (g : Site S)
      → (is_logged_in t.now r.cookie g.sessions).0 ≡ false
      → Kept g (handle_delete x opts t r bucket key g).1
  unfolding handle_delete
  handle_delete-Kept t r bucket key g h =
      let (a, e) = refused_without t.now r g.sessions h in rw (e, handle_delete) (refl, refl)

  browse_route-Kept :
      (m : Method) (t : Moment) (r : BrowserRequest) (bucket key : Str) (g : Site S)
      → (is_logged_in t.now r.cookie g.sessions).0 ≡ false
      → Kept g (browse_route x opts m t r bucket key g).1
  unfolding browse_route handle_download
  browse_route-Kept get t r bucket [] g h = (refl, refl)
  browse_route-Kept get t r bucket (c ∷ key) g h =
      get_object-SameData x.service bucket (c ∷ key) g.world
  browse_route-Kept post t r bucket [] g h = handle_upload-Kept t r bucket g h
  browse_route-Kept post t r bucket (c ∷ key) g h = elim (Bool-cases (is_empty r.delete_value)) [
    | inl e ↦ rw (e, browse_route) (refl, refl)
    | inr e ↦ rw (e, browse_route) (handle_delete-Kept t r bucket (c ∷ key) g h)
  ]
  browse_route-Kept _ t r bucket key g h = (refl, refl)

  handle_browse_route-Kept :
      (t : Moment) (r : BrowserRequest) (rest : Str) (g : Site S)
      → (is_logged_in t.now r.cookie g.sessions).0 ≡ false
      → Kept g (handle_browse_route x opts t r rest g).1
  unfolding handle_browse_route
  handle_browse_route-Kept t r rest g h = elim (Option-cases (index_byte rest b'/')) [
    | inl e ↦ rw (e, handle_browse_route) (refl, refl)
    | inr (i, e) ↦
        rw (e, handle_browse_route)
          (browse_route-Kept r.method t r (take i rest) (drop (suc i) rest) g h)
  ]

  login_method-Kept :
      (m : Method) (t : Moment) (r : BrowserRequest) (g : Site S)
      → Kept g (login_method x opts m t r g).1
  unfolding login_method log_in
  login_method-Kept get t r g = (refl, refl)
  login_method-Kept post t r g = elim (Bool-cases r.form_parses) [
    | inr e ↦ rw (e) (refl, refl)
    | inl e ↦ rw (e) (elim (Bool-cases (str_eq r.form_password opts.password)) [
      | inl p ↦ rw (p) (refl, refl)
      | inr p ↦ rw (p) (refl, refl)
    ])
  ]
  login_method-Kept _ t r g = (refl, refl)

  render_listing-Kept :
      (now : ℕ) (r : BrowserRequest) (bucket : Str) (g : Site S)
      → Kept g (render_listing x opts now r bucket g).1
  unfolding render_listing
  render_listing-Kept now r bucket g = elim (Result-cases (Store.get_bucket bucket g.world.db)) [
    | inl (b, e) ↦ rw (e, render_listing) (refl, refl)
    | inr (d, e) ↦ rw (e, render_listing) (refl, refl)
  ]

  dispatch_page-Kept :
      (t : Moment) (r : BrowserRequest) (g : Site S)
      → (is_logged_in t.now r.cookie g.sessions).0 ≡ false
      → Kept g (dispatch_page x opts t r g).1
  unfolding dispatch_page handle_login handle_logout
  dispatch_page-Kept t r g h = elim (Bool-cases (str_eq r.path (codes "/_browse/_login"))) [
    | inl f ↦ rw (f) (elim (Bool-cases (is_empty opts.password)) [
      | inl p ↦ rw (p) (refl, refl)
      | inr p ↦ rw (p) (login_method-Kept r.method t r g)
    ])
    | inr f ↦ rw (f) (elim (Bool-cases (str_eq r.path (codes "/_browse/_logout"))) [
      | inl p ↦ rw (p) (refl, refl)
      | inr p ↦ rw (p) (elim (Bool-cases (has_prefix r.path (codes "/_browse/"))) [
        | inl q ↦ rw (q) (handle_browse_route-Kept t r (trim_prefix r.path (codes "/_browse/")) g h)
        | inr q ↦ rw (q) (elim (Bool-cases (no_listing r)) [
          | inl n ↦ rw (n) (refl, refl)
          | inr n ↦ rw (n) (render_listing-Kept t.now r (split_path r.path).0 g)
        ])
      ])
    ])
  ]

  pub dispatch-SameData :
      (t : Moment) (r : BrowserRequest) (g : Site S)
      → (is_logged_in t.now r.cookie g.sessions).0 ≡ false
      → SameData g.world (dispatch x opts t r g).1.world
  unfolding dispatch
  dispatch-SameData t r g h = elim (Bool-cases opts.enabled) [
    | inl e ↦ simp (e) (dispatch_page-Kept t r g h)
    | inr e ↦ simp (e) (refl, refl)
  ]
