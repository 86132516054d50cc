-- ===== src/Browser/Pages.antt =====
-- internal/s3api/browser.go: the options, what the interface reads of a request, what it answers,
-- and shouldHandle.
use telang.Common.{
  ℕ, Bool, true, false, not, ◌&&◌, ◌||◌, Option, List, [], ◌++◌, Str, codes, map, contains,
  has_prefix,
}
use telang.Metadata.Store.{Object}
use telang.S3.Paths.{split_path}
use telang.S3.Router.{Method, get, is_empty}
use telang.Service.Objects.{PutInput}

-- `BrowserOptions`
pub record Options : Type 0 where
  pub enabled : Bool
  pub password : Str

-- A file of the form: its name, its type, and its bytes.
pub record FormFile : Type 0 where
  pub filename : Str
  pub content_type : Str
  pub bytes : Str

-- `*http.Request`, as far as the interface reads it. `form_parses` says that `ParseForm` or
-- `ParseMultipartForm` returns no error, and `delete_value` is `Query().Get("delete")`.
pub record BrowserRequest : Type 0 where
  pub method : Method
  pub path : Str
  pub delete_value : Str
  pub authorization : Str
  pub accept : Str
  pub cookie : Option Str
  pub form_parses : Bool
  pub form_password : Str
  pub form_return : Str
  pub form_file : Option FormFile

-- What one request meets: the clock, a random token, and what PutObject needs.
pub record Moment : Type 0 where
  pub now : ℕ
  pub token : Str
  pub put_input : PutInput

-- `listingObject`
pub record ListingObject : Type 0 where
  pub key : Str
  pub size : ℕ
  pub content_type : Str
  pub last_modified : ℕ
  pub download_url : Str
  pub delete_url : Str

-- `listingView`
pub record ListingView : Type 0 where
  pub bucket : Str
  pub objects : List ListingObject
  pub logged_in : Bool
  pub has_login : Bool
  pub upload_url : Str
  pub login_url : Str
  pub logout_url : Str

-- The documents that the templates print.
pub data Document : Type 0 where
  nothing : Document
  listing : ListingView → Document
  login_form : Bool → Document
  file : Str → Document

-- `Set-Cookie` of the session's cookie: a token with the time at which it expires, or its removal.
pub data SetCookie : Type 0 where
  keep : SetCookie
  issue : Str → ℕ → SetCookie
  clear : SetCookie

-- An answer; `location` is the URL that `http.Redirect` is given.
pub record Answer : Type 0 where
  pub status : ℕ
  pub location : Str
  pub cookie : SetCookie
  pub content_type : Str
  pub content_length : Str
  pub disposition : Str
  pub document : Document

abbrev pub plain_answer : ℕ → Answer
plain_answer status = record {
  status = status;
  location = [];
  cookie = keep;
  content_type = [];
  content_length = [];
  disposition = [];
  document = nothing;
}

-- `http.NotFound`, and `http.Redirect` with `StatusSeeOther`
abbrev pub not_found : Answer
not_found = plain_answer 404

abbrev pub redirect : Str → Answer
redirect url = record (plain_answer 303) { location = url }

-- `shouldHandle` of an interface that is there.
unfoldable pub is_get : Method → Bool
is_get get = true
is_get _ = false

-- What `dispatch` has no page for: not a GET of a bucket alone.
abbrev pub no_listing : BrowserRequest → Bool
no_listing r =
    is_empty (split_path r.path).0 || not (is_empty (split_path r.path).1) || not (is_get r.method)

unfoldable pub should_handle : Options → BrowserRequest → Bool
unfolding is_get
should_handle opts r =
    let (bucket, key) = split_path r.path in
    opts.enabled
    && (has_prefix r.path (codes "/_browse/")
        || (is_get r.method
            && is_empty r.authorization
            && not (is_empty bucket)
            && is_empty key
            && contains r.accept (codes "text/html")))

-- The row of an object in `renderListing`.
unfoldable pub listing_object : Str → Object → ListingObject
listing_object bucket o = record {
  key = o.key;
  size = o.size;
  content_type = o.content_type;
  last_modified = o.created_at;
  download_url = codes "/_browse/" ++ bucket ++ codes "/" ++ o.key;
  delete_url = codes "/_browse/" ++ bucket ++ codes "/" ++ o.key ++ codes "?delete=1";
}

unfoldable pub listing_view : Options → Str → Bool → List Object → ListingView
unfolding listing_object
listing_view opts bucket logged_in objects = record {
  bucket = bucket;
  objects = map (listing_object bucket) objects;
  logged_in = logged_in;
  has_login = not (is_empty opts.password);
  upload_url = codes "/_browse/" ++ bucket ++ codes "/";
  login_url = codes "/_browse/_login";
  logout_url = codes "/_browse/_logout";
}
