-- ===== src/Browser/Sessions.antt =====
-- internal/s3api/browser.go: the session helpers. Times are nanoseconds.
use telang.Common.{
  ℕ, ◌+◌, ◌*◌, Bool, true, false, Option, none, some, List, [], ◌∷◌, Str, ltb, if◌then◌else◌,
}
use telang.Metadata.Order.{str_key}
use telang.Metadata.Table.{find, put, remove}

-- One entry of `sessions`: a token, and when it was issued.
pub record Session : Type 0 where
  pub token : Str
  pub since : ℕ

abbrev pub session_key : Session → Str
session_key s = s.token

-- `sessionTTL`
abbrev pub session_ttl : ℕ
session_ttl = 24 * 3600 * 1000000000

-- `isLoggedIn`, with what it leaves of `sessions`. The cookie is `none` where the request has none.
unfoldable pub is_logged_in : ℕ → Option Str → List Session → Bool × List Session
is_logged_in now none sessions = (false, sessions)
is_logged_in now (some []) sessions = (false, sessions)
is_logged_in now (some (c ∷ v)) sessions = elim (find str_key session_key (c ∷ v) sessions) [
  | none ↦ (false, sessions)
  | some s ↦
      if ltb (s.since + session_ttl) now
      then (false, remove str_key session_key (c ∷ v) sessions)
      else (true, sessions)
]

-- `newSession`, which is given its random token.
unfoldable pub new_session : ℕ → Str → List Session → List Session
new_session now token sessions =
    put str_key session_key (record { token = token; since = now }) sessions

-- `delete(b.sessions, c.Value)` of `handleLogout`.
unfoldable pub end_session : Option Str → List Session → List Session
end_session none sessions = sessions
end_session (some token) sessions = remove str_key session_key token sessions
