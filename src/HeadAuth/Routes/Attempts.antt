-- ===== src/HeadAuth/Routes/Attempts.antt =====
-- What an attempt to sign in answers, and what it leaves behind.
use cozy_nm.Base.{
  ℕ, ◌+◌, ◌<◌, ◌≡◌, String, Bool, true, false, Option, none, some, Result, ok, err, arith, inl, inr,
  ◌⊎◌, is_empty, Bool-cases, Result-cases, sym, ap, ◌∙◌, eq_refl,
}
use cozy_nm.Base.Dicts.{get, get-discard}
use cozy_nm.HeadAuth.State.{AuthError, AuthState, Platform, IsSound, invalid_password}
use cozy_nm.HeadAuth.Store.{Draw, login, authenticate, session_valid, session_seconds}
use cozy_nm.HeadAuth.Store.Sessions.{login-session_valid}
use cozy_nm.HeadAuth.Store.Outcomes.{login-ok}
use cozy_nm.HeadAuth.Throttle.{LoginThrottle, succeeded}
use cozy_nm.HeadAuth.Origin.{same_origin, safe_next_url}
use cozy_nm.HeadAuth.Origin.Targets.{StaysLocal, safe_next_url-StaysLocal}
use cozy_nm.HeadAuth.Middleware.{Request}
use cozy_nm.HeadAuth.Routes.{
  Flags, Head, redirect_to, set_session, attempt, require_same_origin, next_target, throttle_failed,
  throttle_succeeded, login_response, login_route,
}

module _ {Doc : Type 0} (lib : Platform Doc) (days : ℕ) (throttle : LoginThrottle)
    (checked : String → Bool) (draw : Draw) where
  -- what the store said where the page answers with a session cookie
  login_cookie :
      (key : String) (now : ℕ) (target goal token : String) (head head' : Head Doc)
      (outcome : Result AuthError String)
      → login_response lib days throttle checked draw key now target outcome head
        ≡ (ok (redirect_to goal (set_session token)), head')
      → (outcome ≡ ok token)
        × (goal ≡ target)
        × (head'.file ≡ head.file)
        × (head'.failures ≡ succeeded key head.failures)
  unfolding login_response throttle_succeeded throttle_failed
  login_cookie key now target goal token head head' (ok t) h = ground arith
  login_cookie key now target goal token head head' (err invalid_password) h = absurd (ground arith)
  login_cookie key now target goal token head head' (err e) h = absurd (cc)

  -- the handler, once its checks have passed
  login_checked :
      (request : Request) (flags : Flags) (key : String) (now : ℕ) (password : String)
      (next : Option String) (head : Head Doc) (target : String)
      → same_origin checked request.host request.origin request.referer ≡ ok true
      → flags.auth_configured ≡ true
      → safe_next_url checked next "/" ≡ ok target
      → login_route lib days throttle checked draw request flags key now password next head
        ≡ login_response lib days throttle checked draw key now target
            (login lib days draw password head.file).0
            (record head { file = (login lib days draw password head.file).1 })
  unfolding login_route require_same_origin next_target attempt
  login_checked request flags key now password next head target o c t =
      rw (o, require_same_origin) (rw (t, next_target) (rw c))

  -- a session cookie is set only where the checks have passed
  login_passed :
      (request : Request) (flags : Flags) (key : String) (now : ℕ) (password : String)
      (next : Option String) (head head' : Head Doc) (goal token : String)
      → login_route lib days throttle checked draw request flags key now password next head
        ≡ (ok (redirect_to goal (set_session token)), head')
      → (target : String) × (same_origin checked request.host request.origin request.referer
          ≡ ok true)
        × (flags.auth_configured ≡ true)
        × (safe_next_url checked next "/" ≡ ok target)
  unfolding login_route require_same_origin next_target
  login_passed request flags key now password next head head' goal token h =
      elim (Result-cases (same_origin checked request.host request.origin request.referer)) [
        | inr (e, o) ↦ absurd (ground arith)
        | inl (false, o) ↦ absurd (ground arith)
        | inl (true, o) ↦ elim (Result-cases (safe_next_url checked next "/")) [
          | inr (e, t) ↦ absurd (ground arith)
          | inl (target, t) ↦ elim (Bool-cases flags.auth_configured) [
            | inr c ↦ absurd (ground arith)
            | inl c ↦ (target, o, c, t)
          ]
        ]
      ]

  login_steps :
      (request : Request) (flags : Flags) (key : String) (now : ℕ) (password : String)
      (next : Option String) (head head' : Head Doc) (goal token : String)
      → login_route lib days throttle checked draw request flags key now password next head
        ≡ (ok (redirect_to goal (set_session token)), head')
      → (safe_next_url checked next "/" ≡ ok goal)
        × (login lib days draw password head.file ≡ (ok token, head'.file))
        × (head'.failures ≡ succeeded key head.failures)
  login_steps request flags key now password next head head' goal token h =
      let (target, o, c, t) =
        login_passed request flags key now password next head head' goal token h in
      let (outcome, goal', file, failures) =
        login_cookie key now target goal token
          (record head { file = (login lib days draw password head.file).1 }) head'
          (login lib days draw password head.file).0
          (sym (login_checked request flags key now password next head target o c t) ∙ h) in
      (t ∙ ap ok (sym goal'), (λ i. (outcome i, sym file i)), failures)

  -- A sign-in that sets a session cookie: the form came from the head's own pages, the file held a
  -- password that accepts the one sent, the cookie's token is valid for the lifetime of a session,
  -- the client's failures are forgotten, and the redirect stays on the head.
  pub login_route-signed_in :
      (sound : IsSound lib) (request : Request) (flags : Flags) (key : String) (now later : ℕ)
      (password : String) (next : Option String) (head head' : Head Doc) (goal token : String)
      → login_route lib days throttle checked draw request flags key now password next head
        ≡ (ok (redirect_to goal (set_session token)), head')
      → is_empty token ≡ false
      → later < draw.created + session_seconds days
      → (same_origin checked request.host request.origin request.referer ≡ ok true)
        × ((s : AuthState) × (authenticate lib password head.file ≡ ok s))
        × (session_valid lib (some token) later head'.file ≡ ok true)
        × (get key head'.failures ≡ none)
        × ((goal ≡ "/") ⊎ StaysLocal goal)
  unfolding succeeded
  login_route-signed_in sound request flags key now later password next head head' goal token h e
        lt =
      let (target, o, c, t) =
        login_passed request flags key now password next head head' goal token h in
      let (safe, done, failures) =
        login_steps request flags key now password next head head' goal token h in
      let (s, found, same, written) =
        login-ok lib days draw password token head.file head'.file done in
      (
        o,
        (s, found),
        login-session_valid lib sound days later draw password token head.file head'.file done e lt,
        rw failures (rw (get-discard, eq_refl key)),
        safe_next_url-StaysLocal checked next "/" goal safe,
      )
