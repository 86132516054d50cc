-- ===== src/Examples/BrowserRuns.antt =====
-- Runs of the browser interface on a site of one bucket.
use telang.Common.{
  ℕ, ◌+◌, ◌≡◌, ◌≢◌, refl, ◌∷◌, [], ◌⊎◌, true, false, Str, codes, none, some, str_eq, Lacks, arith,
}
use telang.S3.Router.{Method, post}
use telang.Browser.FileNames.{base, sanitize_filename}
use telang.Browser.SafeNames.{IsVisible, sanitize_filename_lem}
use telang.Browser.Sessions.{session_ttl, is_logged_in}
use telang.Browser.Pages.{Options, BrowserRequest, Moment, issue}
use telang.Browser.Site.{Site, Outside, log_in, handle_logout}
use telang.Browser.ReadOnly.{SameData}
use telang.Browser.Visits.{
  Visit, visit_all, visit_all-SameData, log_in-visit_all, handle_logout-visit_all,
}
use telang.Examples.Toy.{toy_external}
use telang.Examples.ServiceRuns.{before, input}

abbrev outside : Outside Str
outside = record { service = toy_external; trim_space = λ s. s; type_by_extension = λ s. [] }

abbrev options : Options
options = record { enabled = true; password = codes "hunter2" }

abbrev site : Site Str
site = record { world = before; sessions = [] }

-- A visit with a path, a password and a cookie.
abbrev request : Method → Str → Str → BrowserRequest
request m path password = record {
  method = m;
  path = path;
  delete_value = codes "1";
  authorization = [];
  accept = [];
  cookie = some (codes "beef");
  form_parses = true;
  form_password = password;
  form_return = codes "/pets/";
  form_file = none;
}

abbrev moment : ℕ → Str → Moment
moment now token = record { now = now; token = token; put_input = input }

abbrev removal : Visit
removal = record {
  moment = moment 7 (codes "cafe");
  request = request post (codes "/_browse/pets/cat") (codes "guess");
}

abbrev guess : Visit
guess = record {
  moment = moment 8 (codes "f00d");
  request = request post (codes "/_browse/_login") (codes "guess");
}

abbrev entry : BrowserRequest
entry = request post (codes "/_browse/_login") (codes "hunter2")

wrong_password : str_eq (codes "guess") (codes "hunter2") ≡ false
unfolding str_eq
wrong_password = refl

right_password : str_eq (codes "hunter2") (codes "hunter2") ≡ true
unfolding str_eq
right_password = refl

not_the_logout :
    (p : Str)
    → str_eq p (codes "/_browse/_logout") ≡ false
    → (str_eq p (codes "/_browse/_logout") ≡ true → some (codes "beef") ≢ some (codes "beef"))
not_the_logout p e q = ground arith

removal_path : str_eq (codes "/_browse/pets/cat") (codes "/_browse/_logout") ≡ false
unfolding str_eq
removal_path = refl

guess_path : str_eq (codes "/_browse/_login") (codes "/_browse/_logout") ≡ false
unfolding str_eq
guess_path = refl

visit_all-SameData_example :
    SameData before (visit_all outside options (removal ∷ guess ∷ []) site).world
visit_all-SameData_example =
    visit_all-SameData outside options (removal ∷ guess ∷ []) site
      (wrong_password, (wrong_password, tt)) refl

log_in-visit_all_example :
    ((log_in outside options (moment 5 (codes "beef")) entry site).0.cookie
      ≡ issue (codes "beef") (5 + session_ttl))
    × ((is_logged_in 9
          (some (codes "beef"))
          (visit_all outside options
            (removal ∷ guess ∷ [])
            (log_in outside options (moment 5 (codes "beef")) entry site).1).sessions).0
        ≡ true)
log_in-visit_all_example =
    log_in-visit_all outside options (moment 5 (codes "beef")) entry site (removal ∷ guess ∷ []) 9
      refl right_password (ground arith)
      (
        (ground arith, ground arith, not_the_logout (codes "/_browse/pets/cat") removal_path),
        ((ground arith, ground arith, not_the_logout (codes "/_browse/_login") guess_path), tt),
      )
      (ground arith)

handle_logout-visit_all_example :
    (is_logged_in 9
      (some (codes "beef"))
      (visit_all outside options
        (removal ∷ guess ∷ [])
        (handle_logout outside options entry
          (log_in outside options (moment 5 (codes "beef")) entry site).1).1).sessions).0
    ≡ false
handle_logout-visit_all_example =
    handle_logout-visit_all outside options entry (codes "beef")
      (log_in outside options (moment 5 (codes "beef")) entry site).1 (removal ∷ guess ∷ []) 9 refl
      (ground arith, (ground arith, tt))

sanitize_filename_lem_example :
    IsVisible (sanitize_filename (λ s. s) (codes "../../.ssh/.bashrc"))
    × ((base (codes "../../.ssh/.bashrc") ≡ codes "/")
        ⊎ Lacks b'/' (sanitize_filename (λ s. s) (codes "../../.ssh/.bashrc")))
sanitize_filename_lem_example =
    sanitize_filename_lem (λ s. s) (codes "../../.ssh/.bashrc") (λ s l. l)
