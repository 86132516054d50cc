-- ===== src/Browser/Steps.antt =====
-- internal/s3api/browser.go: what one request does to the sessions.
use telang.Common.{
  ◌≡◌, true, List, [], ◌∷◌, Str, codes, str_eq, has_prefix, trim_prefix, index_byte, take, drop,
  suc, inl, inr, arith, Option-cases, Result-cases, Bool-cases,
}
use telang.Metadata.Store
use telang.S3.Paths.{split_path}
use telang.S3.Router.{Method, is_empty, get, post}
use telang.Browser.Sessions.{Session, is_logged_in, new_session, end_session}
use telang.Browser.Pages.{Options, BrowserRequest, Moment, FormFile, no_listing}
use telang.Browser.Site.{
  Site, Outside, require_session, render_listing, handle_download, store_file, handle_upload,
  handle_delete, log_in, login_method, handle_login, handle_logout, browse_route,
  handle_browse_route, dispatch_page, dispatch,
}

-- What a request can leave of the sessions.
pub data SessionStep (opts : Options) (t : Moment) (r : BrowserRequest) (ss : List Session)
    : List Session → Type 0 where
  unchanged : SessionStep opts t r ss ss
  looked_up : SessionStep opts t r ss (is_logged_in t.now r.cookie ss).1
  logged_in :
      str_eq r.form_password opts.password ≡ true
      → SessionStep opts t r ss (new_session t.now t.token ss)
  logged_out :
      str_eq r.path (codes "/_browse/_logout") ≡ true
      → SessionStep opts t r ss (end_session r.cookie ss)

module _ {S : Type 0} (x : Outside S) (opts : Options) (t : Moment) (r : BrowserRequest) where
  abbrev Steps : Site S → Site S → Type 0
  Steps g g' = SessionStep opts t r g.sessions g'.sessions

  require_session-Steps :
      (ss : List Session) → SessionStep opts t r ss (require_session x opts t.now r ss).1
  unfolding require_session
  require_session-Steps ss = elim (Bool-cases (is_empty opts.password)) [
    | inl e ↦ rw (e) unchanged
    | inr e ↦ rw (e) (elim (Bool-cases (is_logged_in t.now r.cookie ss).0) [
      | inl l ↦ rw (l) looked_up
      | inr l ↦ rw (l) looked_up
    ])
  ]

  store_file_sessions :
      (bucket : Str) (f : FormFile) (g : Site S)
      → (store_file x opts t bucket f g).1.sessions ≡ g.sessions
  unfolding store_file
  store_file_sessions bucket f g = ground arith

  handle_upload-Steps : (bucket : Str) (g : Site S) → Steps g (handle_upload x opts t r bucket g).1
  unfolding handle_upload
  handle_upload-Steps bucket g = elim (Option-cases (require_session x opts t.now r g.sessions).0) [
    | inr (a, e) ↦ rw (e, handle_upload) (require_session-Steps g.sessions)
    | inl e ↦
        rw (e, handle_upload)
          (elim (Bool-cases r.form_parses) [
            | inr p ↦ simp (p) (require_session-Steps g.sessions)
            | inl p ↦ simp (p) (elim (Option-cases r.form_file) [
              | inl f ↦ simp (f) (require_session-Steps g.sessions)
              | inr (f, q) ↦ simp (q, store_file_sessions) (require_session-Steps g.sessions)
            ])
          ])
  ]

  handle_delete-Steps :
      (bucket key : Str) (g : Site S) → Steps g (handle_delete x opts t r bucket key g).1
  unfolding handle_delete
  handle_delete-Steps bucket key g =
      elim (Option-cases (require_session x opts t.now r g.sessions).0) [
        | inl e ↦ rw (e, handle_delete) (require_session-Steps g.sessions)
        | inr (a, e) ↦ rw (e, handle_delete) (require_session-Steps g.sessions)
      ]

  browse_route-Steps :
      (m : Method) (bucket key : Str) (g : Site S)
      → Steps g (browse_route x opts m t r bucket key g).1
  unfolding browse_route handle_download
  browse_route-Steps post bucket [] g = handle_upload-Steps bucket g
  browse_route-Steps get bucket (c ∷ key) g = unchanged
  browse_route-Steps post bucket (c ∷ key) g = elim (Bool-cases (is_empty r.delete_value)) [
    | inl e ↦ rw (e, handle_delete) unchanged
    | inr e ↦ rw (e, handle_delete) (handle_delete-Steps bucket (c ∷ key) g)
  ]
  browse_route-Steps _ bucket key g = unchanged

  handle_browse_route-Steps :
      (rest : Str) (g : Site S) → Steps g (handle_browse_route x opts t r rest g).1
  unfolding handle_browse_route
  handle_browse_route-Steps rest g = elim (Option-cases (index_byte rest b'/')) [
    | inl e ↦ rw (e, handle_browse_route) unchanged
    | inr (i, e) ↦
        rw (e, handle_browse_route)
          (browse_route-Steps r.method (take i rest) (drop (suc i) rest) g)
  ]

  login_method-Steps : (m : Method) (g : Site S) → Steps g (login_method x opts m t r g).1
  unfolding login_method log_in
  login_method-Steps get g = unchanged
  login_method-Steps post g = elim (Bool-cases r.form_parses) [
    | inr e ↦ rw (e) unchanged
    | inl e ↦ rw (e) (elim (Bool-cases (str_eq r.form_password opts.password)) [
      | inl p ↦ simp (p) (logged_in p)
      | inr p ↦ simp (p) unchanged
    ])
  ]
  login_method-Steps _ g = unchanged

  render_listing-Steps :
      (bucket : Str) (g : Site S) → Steps g (render_listing x opts t.now r bucket g).1
  unfolding render_listing
  render_listing-Steps bucket g = elim (Result-cases (Store.get_bucket bucket g.world.db)) [
    | inl (b, e) ↦ rw (e, render_listing) looked_up
    | inr (d, e) ↦ rw (e, render_listing) unchanged
  ]

  dispatch_page-Steps : (g : Site S) → Steps g (dispatch_page x opts t r g).1
  unfolding dispatch_page handle_login handle_logout
  dispatch_page-Steps g = elim (Bool-cases (str_eq r.path (codes "/_browse/_login"))) [
    | inl f ↦ simp (f) (elim (Bool-cases (is_empty opts.password)) [
      | inl p ↦ simp (p) unchanged
      | inr p ↦ simp (p) (login_method-Steps r.method g)
    ])
    | inr f ↦ simp (f) (elim (Bool-cases (str_eq r.path (codes "/_browse/_logout"))) [
      | inl p ↦ simp (p) (logged_out p)
      | inr p ↦ simp (p) (elim (Bool-cases (has_prefix r.path (codes "/_browse/"))) [
        | inl q ↦ simp (q) (handle_browse_route-Steps (trim_prefix r.path (codes "/_browse/")) g)
        | inr q ↦ simp (q) (elim (Bool-cases (no_listing r)) [
          | inl n ↦ simp (n) unchanged
          | inr n ↦ simp (n) (render_listing-Steps (split_path r.path).0 g)
        ])
      ])
    ])
  ]

  pub dispatch-SessionStep :
      (g : Site S) → SessionStep opts t r g.sessions (dispatch x opts t r g).1.sessions
  unfolding dispatch
  dispatch-SessionStep g = elim (Bool-cases opts.enabled) [
    | inl e ↦ simp (e) (dispatch_page-Steps g)
    | inr e ↦ simp (e) unchanged
  ]
