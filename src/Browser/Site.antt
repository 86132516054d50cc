-- ===== src/Browser/Site.antt =====
-- internal/s3api/browser.go: dispatch and the handlers.
use telang.Common.{
  ℕ, suc, ◌+◌, ◌*◌, true, false, not, ◌||◌, Option, none, some, List, [], ◌∷◌, ◌++◌, Str, codes,
  str_eq, length, take, drop, ltb, ◌==◌, if◌then◌else◌, Result, ok, err, index_byte, has_prefix,
  trim_prefix,
}
use telang.Common.Decimal.{format_int}
use telang.Crypto.Stream.{ReadError}
use telang.Metadata.Store
use telang.Metadata.Store.{Object}
use telang.S3.Errors.{ServiceError}
use telang.S3.Paths.{split_path}
use telang.S3.Router.{Method, get, post, is_empty}
use telang.Service.World.{External, World}
use telang.Service.Objects
use telang.Browser.FileNames.{sanitize_filename, ext}
use telang.Browser.Sessions.{Session, is_logged_in, new_session, end_session, session_ttl}
use telang.Browser.Pages.{
  Options, FormFile, BrowserRequest, Moment, listing, login_form, file, issue, clear, Answer,
  plain_answer, not_found, redirect, no_listing, listing_view,
}

-- `BrowserUI`, with the state of its service.
pub record Site (S : Type 0) : Type 0 where
  pub world : World S
  pub sessions : List Session

-- What the interface calls outside: the service's, `strings.TrimSpace` and
-- `mime.TypeByExtension`.
pub record Outside (S : Type 0) : Type 0 where
  pub service : External S
  pub trim_space : Str → Str
  pub type_by_extension : Str → Str

-- `maxUploadBytes`
abbrev pub max_upload_bytes : ℕ
max_upload_bytes = 2 * 1024 * 1024 * 1024

module _ {S : Type 0} (x : Outside S) (opts : Options) where
  -- `requireSession`: the answer that refuses, if the request is refused.
  unfoldable pub require_session : ℕ → BrowserRequest → List Session → Option Answer × List Session
  require_session now r sessions =
      let (logged_in, left) = is_logged_in now r.cookie sessions in
      if is_empty opts.password
      then (some (plain_answer 403), sessions)
      else if logged_in
      then (none, left)
      else (some (redirect (codes "/_browse/_login?return=" ++ r.path)), left)

  -- `renderListing`
  unfoldable pub render_listing : ℕ → BrowserRequest → Str → Site S → Answer × Site S
  render_listing now r bucket g = elim (Store.get_bucket bucket g.world.db) [
    | err e ↦ (not_found, g)
    | ok b ↦
        (let (logged_in, left) = is_logged_in now r.cookie g.sessions in
          let objects = (Store.list_objects bucket [] [] 1000 g.world.db).0 in
          (
            record (plain_answer 200) {
              content_type = codes "text/html; charset=utf-8";
              document = listing (listing_view opts bucket logged_in objects);
            },
            record g { sessions = left },
          ))
  ]

  -- `handleDownload` behind `GetObject`.
  unfoldable pub download_answer : Str → Result ServiceError (Object × (Str × ReadError)) → Answer
  download_answer key (err e) = not_found
  download_answer key (ok (o, (body, end_))) = record (plain_answer 200) {
    content_type = o.content_type;
    content_length = format_int o.size;
    disposition =
        codes "attachment; filename=\"" ++ sanitize_filename x.trim_space key ++ codes "\"";
    document = file body;
  }

  -- `handleDownload`
  unfoldable pub handle_download : Str → Str → Site S → Answer × Site S
  unfolding download_answer
  handle_download bucket key g =
      let (got, w) = Objects.get_object x.service bucket key g.world in
      (download_answer key got, record g { world = w })

  -- The answer to a write: the way back to the listing, or an error.
  unfoldable pub written_answer : {A : Type 0} → Str → Result ServiceError A → Answer
  written_answer bucket (err e) = plain_answer 500
  written_answer bucket (ok a) = redirect (codes "/" ++ bucket ++ codes "/")

  -- `handleUpload` behind the session and the form.
  unfoldable pub store_file : Moment → Str → FormFile → Site S → Answer × Site S
  unfolding written_answer
  store_file t bucket f g =
      let key = sanitize_filename x.trim_space f.filename in
      let ct = if is_empty f.content_type then x.type_by_extension (ext key) else f.content_type in
      let size = length f.bytes in
      if is_empty key
      then (plain_answer 400, g)
      else if size == 0 || ltb max_upload_bytes size
      then (plain_answer 400, g)
      else (let (put, w) =
            Objects.put_object x.service t.put_input bucket key ct size f.bytes g.world in
          (written_answer bucket put, record g { world = w }))

  -- `handleUpload`
  unfoldable pub handle_upload : Moment → BrowserRequest → Str → Site S → Answer × Site S
  unfolding store_file
  handle_upload t r bucket g =
      let (refused, left) = require_session t.now r g.sessions in
      let g' : Site S = record g { sessions = left } in
      elim refused [
        | some a ↦ (a, g')
        | none ↦
            if r.form_parses
            then elim r.form_file [
              | none ↦ (plain_answer 400, g')
              | some f ↦ store_file t bucket f g'
            ]
            else (plain_answer 400, g')
      ]

  -- `handleDelete`
  unfoldable pub handle_delete : Moment → BrowserRequest → Str → Str → Site S → Answer × Site S
  unfolding written_answer
  handle_delete t r bucket key g =
      let (refused, left) = require_session t.now r g.sessions in
      let g' : Site S = record g { sessions = left } in
      elim refused [
        | some a ↦ (a, g')
        | none ↦
            (let (gone, w) = Objects.delete_object x.service bucket key g'.world in
              (written_answer bucket gone, record g' { world = w }))
      ]

  abbrev pub html : Answer → Answer
  html a = record a { content_type = codes "text/html; charset=utf-8" }

  -- Where a login goes on to.
  unfoldable pub return_of : Str → Str
  return_of ret = if is_empty ret || not (has_prefix ret (codes "/")) then codes "/" else ret

  -- The POST of `handleLogin`.
  unfoldable pub log_in : Moment → BrowserRequest → Site S → Answer × Site S
  unfolding return_of
  log_in t r g =
      if r.form_parses
      then (if str_eq r.form_password opts.password
          then (
            record (redirect (return_of r.form_return)) {
              cookie = issue t.token (t.now + session_ttl);
            },
            record g { sessions = new_session t.now t.token g.sessions },
          )
          else (html (record (plain_answer 401) { document = login_form true }), g))
      else (plain_answer 400, g)

  unfoldable pub login_method : Method → Moment → BrowserRequest → Site S → Answer × Site S
  unfolding log_in
  login_method get t r g = (html (record (plain_answer 200) { document = login_form false }), g)
  login_method post t r g = log_in t r g
  login_method _ t r g = (plain_answer 405, g)

  -- `handleLogin`
  unfoldable pub handle_login : Moment → BrowserRequest → Site S → Answer × Site S
  unfolding login_method
  handle_login t r g =
      if is_empty opts.password then (not_found, g) else login_method r.method t r g

  -- `handleLogout`
  unfoldable pub handle_logout : BrowserRequest → Site S → Answer × Site S
  handle_logout r g = (
    record (redirect (codes "/")) { cookie = clear },
    record g { sessions = end_session r.cookie g.sessions },
  )

  -- The switch of `handleBrowseRoute`.
  unfoldable pub browse_route :
      Method → Moment → BrowserRequest → Str → Str → Site S → Answer × Site S
  unfolding handle_upload handle_download handle_delete
  browse_route post t r bucket [] g = handle_upload t r bucket g
  browse_route get t r bucket (c ∷ key) g = handle_download bucket (c ∷ key) g
  browse_route post t r bucket (c ∷ key) g =
      if is_empty r.delete_value
      then (plain_answer 405, g)
      else handle_delete t r bucket (c ∷ key) g
  browse_route _ t r bucket key g = (plain_answer 405, g)

  -- `handleBrowseRoute`
  unfoldable pub handle_browse_route : Moment → BrowserRequest → Str → Site S → Answer × Site S
  unfolding browse_route
  handle_browse_route t r rest g = elim (index_byte rest b'/') [
    | none ↦ (not_found, g)
    | some slash ↦ browse_route r.method t r (take slash rest) (drop (suc slash) rest) g
  ]

  -- The switch of `dispatch`.
  unfoldable pub dispatch_page : Moment → BrowserRequest → Site S → Answer × Site S
  unfolding handle_login handle_logout handle_browse_route render_listing
  dispatch_page t r g =
      if str_eq r.path (codes "/_browse/_login")
      then handle_login t r g
      else if str_eq r.path (codes "/_browse/_logout")
      then handle_logout r g
      else if has_prefix r.path (codes "/_browse/")
      then handle_browse_route t r (trim_prefix r.path (codes "/_browse/")) g
      else if no_listing r
      then (not_found, g)
      else render_listing t.now r (split_path r.path).0 g

  -- `dispatch`
  unfoldable pub dispatch : Moment → BrowserRequest → Site S → Answer × Site S
  unfolding dispatch_page
  dispatch t r g = if opts.enabled then dispatch_page t r g else (not_found, g)
