-- ===== src/Browser/SessionLaws.antt =====
-- internal/s3api/browser.go: a session before and after one request.
use telang.Common.{
  ℕ, ◌+◌, ◌≡◌, ◌≢◌, refl, sym, ap, str_eq_iff, ◌∙◌, true, false, Option, none, some, List, [], ◌∷◌,
  Str, codes, str_eq, ltb, arith, inl, inr, Bool-cases, Option-cases,
}
use telang.Metadata.Order.{str_key}
use telang.Metadata.Table.{find, remove, find-put_ne, find-remove_self, find-remove_ne}
use telang.Browser.Sessions.{
  Session, session_key, session_ttl, is_logged_in, new_session, end_session,
}
use telang.Browser.Pages.{Options, BrowserRequest, Moment}
use telang.Browser.Steps.{SessionStep, unchanged, looked_up, logged_in, logged_out}

not_same : {i j : Str} → str_eq i j ≡ false → i ≢ j
not_same {i} {j} q e = grind (arith, str_eq_iff i j)

find-remove-none :
    (i j : Str) (ss : List Session)
    → find str_key session_key i ss ≡ none
    → find str_key session_key i (remove str_key session_key j ss) ≡ none
find-remove-none i j ss h = elim (Bool-cases (str_eq i j)) [
  | inl q ↦
      ap (λ k. find str_key session_key k (remove str_key session_key j ss)) ((str_eq_iff i j).0 q)
      ∙ find-remove_self str_key session_key j ss
  | inr q ↦ find-remove_ne str_key session_key i j ss (λ e. not_same q e) ∙ h
]

is_logged_in-none :
    (now : ℕ) (token : Str) (c : Option Str) (ss : List Session)
    → find str_key session_key token ss ≡ none
    → find str_key session_key token (is_logged_in now c ss).1 ≡ none
unfolding is_logged_in
is_logged_in-none now token none ss l = l
is_logged_in-none now token (some []) ss l = l
is_logged_in-none now token (some (c ∷ v)) ss l =
    elim (Option-cases (find str_key session_key (c ∷ v) ss)) [
      | inl e ↦ rw (e, is_logged_in) l
      | inr (s, e) ↦
          rw (e, is_logged_in)
            (elim (Bool-cases (ltb (s.since + session_ttl) now)) [
              | inr p ↦ rw (p) l
              | inl p ↦ rw (p) (find-remove-none token (c ∷ v) ss l)
            ])
    ]

end_session-none :
    (token : Str) (c : Option Str) (ss : List Session)
    → find str_key session_key token ss ≡ none
    → find str_key session_key token (end_session c ss) ≡ none
unfolding end_session
end_session-none token none ss l = l
end_session-none token (some v) ss l = find-remove-none token v ss l

-- A cookie whose session is there and in time is logged in; one without a session is not.
pub is_logged_in_live :
    (now : ℕ) (token : Str) (s : Session) (ss : List Session)
    → token ≢ []
    → find str_key session_key token ss ≡ some s
    → ltb (s.since + session_ttl) now ≡ false
    → (is_logged_in now (some token) ss).0 ≡ true
unfolding is_logged_in
is_logged_in_live now [] s ss n e l = absurd (n refl)
is_logged_in_live now (c ∷ v) s ss n e l = rw (e, is_logged_in) (rw (l) refl)

pub is_logged_in_lost :
    (now : ℕ) (token : Str) (ss : List Session)
    → find str_key session_key token ss ≡ none
    → (is_logged_in now (some token) ss).0 ≡ false
unfolding is_logged_in
is_logged_in_lost now [] ss e = refl
is_logged_in_lost now (c ∷ v) ss e = rw (e, is_logged_in) refl

module _ (opts : Options) (t : Moment) (r : BrowserRequest) where
  pub is_logged_in_empty :
      (now : ℕ) (c : Option Str)
      → ((is_logged_in now c []).0 ≡ false) × ((is_logged_in now c []).1 ≡ [])
  unfolding is_logged_in find
  is_logged_in_empty now none = (refl, refl)
  is_logged_in_empty now (some []) = (refl, refl)
  is_logged_in_empty now (some (c ∷ v)) = (refl, refl)

  end_session_empty : (c : Option Str) → end_session c [] ≡ []
  unfolding end_session remove
  end_session_empty none = refl
  end_session_empty (some v) = refl

  -- From no session, a stranger's request leads to none.
  pub SessionStep-empty :
      (ss ss' : List Session)
      → str_eq r.form_password opts.password ≡ false
      → ss ≡ []
      → SessionStep opts t r ss ss'
      → ss' ≡ []
  SessionStep-empty ss _ h e unchanged = e
  SessionStep-empty ss _ h e looked_up =
      ap (λ u. (is_logged_in t.now r.cookie u).1) e ∙ (is_logged_in_empty t.now r.cookie).1
  SessionStep-empty ss _ h e (logged_in p) = ground arith
  SessionStep-empty ss _ h e (logged_out p) =
      ap (end_session r.cookie) e ∙ end_session_empty r.cookie

  module _ (token : Str) (s : Session) where
    -- The session of a token is there, and its time is not over.
    abbrev pub IsLive : List Session → Type 0
    IsLive ss =
        (find str_key session_key token ss ≡ some s) × (ltb (s.since + session_ttl) t.now ≡ false)

    -- A session whose time is over is another one.
    other_session :
        (v : Str) (ss : List Session) (s' : Session)
        → IsLive ss
        → find str_key session_key v ss ≡ some s'
        → ltb (s'.since + session_ttl) t.now ≡ true
        → ¬ (token ≡ v)
    other_session v ss s' (l, live) e p q = grind arith

    find-is_logged_in :
        (c : Option Str) (ss : List Session)
        → IsLive ss
        → find str_key session_key token (is_logged_in t.now c ss).1 ≡ some s
    unfolding is_logged_in
    find-is_logged_in none ss l = l.0
    find-is_logged_in (some []) ss l = l.0
    find-is_logged_in (some (c ∷ v)) ss (l, live) =
        elim (Option-cases (find str_key session_key (c ∷ v) ss)) [
          | inl e ↦ rw (e, is_logged_in) l
          | inr (s', e) ↦
              rw (e, is_logged_in)
                (elim (Bool-cases (ltb (s'.since + session_ttl) t.now)) [
                  | inr p ↦ rw (p) l
                  | inl p ↦ rw (p) (
                      find-remove_ne str_key session_key token (c ∷ v) ss
                        (λ q. other_session (c ∷ v) ss s' (l, live) e p q)
                      ∙ l)
                ])
        ]

    find-end_session :
        (c : Option Str) (ss : List Session)
        → find str_key session_key token ss ≡ some s
        → c ≢ some token
        → find str_key session_key token (end_session c ss) ≡ some s
    unfolding end_session
    find-end_session none ss l n = l
    find-end_session (some v) ss l n =
        find-remove_ne str_key session_key token v ss (λ q. n (ap some (sym q))) ∙ l

    pub SessionStep-find :
        (ss ss' : List Session)
        → IsLive ss
        → t.token ≢ token
        → (str_eq r.path (codes "/_browse/_logout") ≡ true → r.cookie ≢ some token)
        → SessionStep opts t r ss ss'
        → find str_key session_key token ss' ≡ some s
    unfolding new_session
    SessionStep-find ss _ l n o unchanged = l.0
    SessionStep-find ss _ l n o looked_up = find-is_logged_in r.cookie ss l
    SessionStep-find ss _ l n o (logged_in p) =
        find-put_ne str_key session_key token (record { token = t.token; since = t.now }) ss
          (λ q. n (sym q))
        ∙ l.0
    SessionStep-find ss _ l n o (logged_out p) = find-end_session r.cookie ss l.0 (o p)

  -- A token without a session has none after a request, unless it is the one issued.
  pub SessionStep-none :
      (token : Str) (ss ss' : List Session)
      → find str_key session_key token ss ≡ none
      → t.token ≢ token
      → SessionStep opts t r ss ss'
      → find str_key session_key token ss' ≡ none
  unfolding new_session
  SessionStep-none token ss _ l n unchanged = l
  SessionStep-none token ss _ l n looked_up = is_logged_in-none t.now token r.cookie ss l
  SessionStep-none token ss _ l n (logged_in p) =
      find-put_ne str_key session_key token (record { token = t.token; since = t.now }) ss
        (λ q. n (sym q))
      ∙ l
  SessionStep-none token ss _ l n (logged_out p) = end_session-none token r.cookie ss l
