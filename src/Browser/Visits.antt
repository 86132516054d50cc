-- ===== src/Browser/Visits.antt =====
-- internal/s3api/browser.go: runs of requests.
use telang.Common.{
  ℕ, ◌+◌, ◌≡◌, ◌≢◌, refl, ap, ◌∙◌, true, false, none, some, List, [], ◌∷◌, Str, codes, str_eq, ltb,
}
use telang.Metadata.Order.{str_key}
use telang.Metadata.Table.{find, remove, find-put_self, find-remove_self}
use telang.Browser.Sessions.{
  Session, session_key, session_ttl, is_logged_in, new_session, end_session,
}
use telang.Browser.Pages.{Options, BrowserRequest, Moment, issue}
use telang.Browser.Site.{Site, Outside, log_in, handle_logout, dispatch}
use telang.Browser.ReadOnly.{SameData, dispatch-SameData}
use telang.Browser.Steps.{dispatch-SessionStep}
use telang.Browser.SessionLaws.{
  is_logged_in_live, is_logged_in_lost, is_logged_in_empty, SessionStep-empty, SessionStep-none,
  SessionStep-find,
}

-- A request with what it meets.
pub record Visit : Type 0 where
  pub moment : Moment
  pub request : BrowserRequest

-- The requests in turn, `dispatch` for each.
unfoldable pub visit_all : {S : Type 0} → Outside S → Options → List Visit → Site S → Site S
visit_all x opts [] g = g
visit_all x opts (v ∷ vs) g = visit_all x opts vs (dispatch x opts v.moment v.request g).1

-- A form with another password than the one that is configured.
abbrev pub IsStranger : Options → Visit → Type 0
IsStranger opts v = str_eq v.request.form_password opts.password ≡ false

abbrev pub AllStrangers : Options → List Visit → Type 0
AllStrangers opts [] = Unit
AllStrangers opts (v ∷ vs) = IsStranger opts v × AllStrangers opts vs

-- What a token needs of a request to stay logged in.
abbrev pub Spares : Str → ℕ → Visit → Type 0
Spares token limit v =
    (ltb limit v.moment.now ≡ false)
    × (v.moment.token ≢ token)
    × (str_eq v.request.path (codes "/_browse/_logout") ≡ true → v.request.cookie ≢ some token)

abbrev pub AllSpare : Str → ℕ → List Visit → Type 0
AllSpare token limit [] = Unit
AllSpare token limit (v ∷ vs) = Spares token limit v × AllSpare token limit vs

abbrev pub NeverIssued : Str → List Visit → Type 0
NeverIssued token [] = Unit
NeverIssued token (v ∷ vs) = (v.moment.token ≢ token) × NeverIssued token vs

module _ {S : Type 0} (x : Outside S) (opts : Options) where
  -- From a site without sessions, no sequence of requests through dispatch, none of which carries
  -- the configured password in its form, changes the index or the keys.
  pub visit_all-SameData :
      (vs : List Visit) (g : Site S)
      → AllStrangers opts vs
      → g.sessions ≡ []
      → SameData g.world (visit_all x opts vs g).world
  unfolding visit_all
  visit_all-SameData [] g a e = (refl, refl)
  visit_all-SameData (v ∷ vs) g (h, a) e =
      let g' = (dispatch x opts v.moment v.request g).1 in
      let out =
        ap (λ u. (is_logged_in v.moment.now v.request.cookie u).0) e
        ∙ (is_logged_in_empty opts v.moment v.request v.moment.now v.request.cookie).0 in
      let (db, keys) = dispatch-SameData x opts v.moment v.request g out in
      let e' =
        SessionStep-empty opts v.moment v.request g.sessions g'.sessions h e
          (dispatch-SessionStep x opts v.moment v.request g) in
      let (db', keys') = visit_all-SameData vs g' a e' in (db' ∙ db, keys' ∙ keys)

  find-visit_all :
      (token : Str) (s : Session) (vs : List Visit) (g : Site S)
      → find str_key session_key token g.sessions ≡ some s
      → AllSpare token (s.since + session_ttl) vs
      → find str_key session_key token (visit_all x opts vs g).sessions ≡ some s
  unfolding visit_all
  find-visit_all token s [] g l a = l
  find-visit_all token s (v ∷ vs) g l ((now, n, o), a) =
      let g' = (dispatch x opts v.moment v.request g).1 in
      find-visit_all token s vs g'
        (SessionStep-find opts v.moment v.request token s g.sessions g'.sessions (l, now) n o
          (dispatch-SessionStep x opts v.moment v.request g))
        a

  visit_all-none :
      (token : Str) (vs : List Visit) (g : Site S)
      → find str_key session_key token g.sessions ≡ none
      → NeverIssued token vs
      → find str_key session_key token (visit_all x opts vs g).sessions ≡ none
  unfolding visit_all
  visit_all-none token [] g l a = l
  visit_all-none token (v ∷ vs) g l (n, a) =
      let g' = (dispatch x opts v.moment v.request g).1 in
      visit_all-none token vs g'
        (SessionStep-none opts v.moment v.request token g.sessions g'.sessions l n
          (dispatch-SessionStep x opts v.moment v.request g))
        a

  -- After a login with the right password and a token that is not empty, whatever requests
  -- dispatch answers within the 24 hours, as long as none of them is a logout with this token and
  -- none is given the same token, the token is logged in; and the login has set it as a cookie
  -- that expires at the end of that time.
  pub log_in-visit_all :
      (t : Moment) (r : BrowserRequest) (g : Site S) (vs : List Visit) (now : ℕ)
      → r.form_parses ≡ true
      → str_eq r.form_password opts.password ≡ true
      → t.token ≢ []
      → AllSpare t.token (t.now + session_ttl) vs
      → ltb (t.now + session_ttl) now ≡ false
      → ((log_in x opts t r g).0.cookie ≡ issue t.token (t.now + session_ttl))
        × ((is_logged_in now
              (some t.token)
              (visit_all x opts vs (log_in x opts t r g).1).sessions).0
            ≡ true)
  unfolding log_in new_session
  log_in-visit_all t r g vs now f p n a l =
      let s : Session = record { token = t.token; since = t.now } in
      let g' : Site S = record g { sessions = new_session t.now t.token g.sessions } in
      let found =
        find-visit_all t.token s vs g' (find-put_self str_key session_key s g.sessions) a in
      simp (f, p)
        (refl, is_logged_in_live now t.token s (visit_all x opts vs g').sessions n found l)

  -- After a logout with a token, whatever requests dispatch answers, as long as none is given the
  -- same token again, the token is not logged in at any time.
  pub handle_logout-visit_all :
      (r : BrowserRequest) (token : Str) (g : Site S) (vs : List Visit) (now : ℕ)
      → r.cookie ≡ some token
      → NeverIssued token vs
      → (is_logged_in now
          (some token)
          (visit_all x opts vs (handle_logout x opts r g).1).sessions).0
        ≡ false
  unfolding handle_logout end_session
  handle_logout-visit_all r token g vs now c a = rw (c) (
      is_logged_in_lost now token
        (visit_all x opts vs
          (record g { sessions = remove str_key session_key token g.sessions })).sessions
        (visit_all-none token vs
          (record g { sessions = remove str_key session_key token g.sessions })
          (find-remove_self str_key session_key token g.sessions) a))
