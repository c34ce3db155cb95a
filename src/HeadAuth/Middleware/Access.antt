-- ===== src/HeadAuth/Middleware/Access.antt =====
-- Which requests reach the application.
use cozy_nm.Base.{
  ℕ, ◌≡◌, ◌↔◌, String, ◌==◌, Bool, true, false, Option, none, some, ok, err, arith, inl, inr, ◌⊎◌,
  has_prefix, Bool-cases, Result-cases, if◌then◌else◌,
}
use cozy_nm.HeadAuth.State.{AuthError, Platform}
use cozy_nm.HeadAuth.Store.{AuthFile, configured, session_valid}
use cozy_nm.HeadAuth.Origin.{same_origin}
use cozy_nm.HeadAuth.Middleware.{
  Request, forward, json_error, text_error, service_unavailable, unauthorized, is_exempt,
  is_unsafe_method, is_public_auth, origin_refused, check_session, guard_origin, call,
  unavailable_detail,
}

-- Why a request may reach the application.
pub data Admitted {Doc : Type 0} (lib : Platform Doc) (checked : String → Bool) (request : Request)
    (now : ℕ) (seen seen' : AuthFile Doc) : Type 0 where
  not_http : (request.scope_type == "http") ≡ false → Admitted lib checked request now seen seen'
  exempt : is_exempt request ≡ true → Admitted lib checked request now seen seen'
  passwordless : configured lib seen ≡ ok false → Admitted lib checked request now seen seen'
  sign_in_page :
      (valid : Bool)
      → configured lib seen ≡ ok true
      → is_public_auth request ≡ true
      → session_valid lib request.session_cookie now seen' ≡ ok valid
      → Admitted lib checked request now seen seen'
  signed_in :
      configured lib seen ≡ ok true
      → session_valid lib request.session_cookie now seen' ≡ ok true
      → (is_unsafe_method request ≡ false)
        ⊎ (same_origin checked request.host request.origin request.referer ≡ ok true)
      → Admitted lib checked request now seen seen'

guarded_origin :
    (checked : String → Bool) (request : Request) (flags : Option (Bool × Bool))
    → guard_origin checked request ≡ forward flags
    → (is_unsafe_method request ≡ false)
      ⊎ (same_origin checked request.host request.origin request.referer ≡ ok true)
unfolding guard_origin origin_refused
guarded_origin checked request flags h = ground arith

module _ {Doc : Type 0} (lib : Platform Doc) (checked : String → Bool) (urlencode : String → String)
    (request : Request) (now : ℕ) (seen seen' : AuthFile Doc) where
  call-Admitted :
      (flags : Option (Bool × Bool))
      → call lib checked urlencode request now seen seen' ≡ forward flags
      → Admitted lib checked request now seen seen'
  unfolding call check_session service_unavailable unauthorized
  call-Admitted flags h = elim (Bool-cases (request.scope_type == "http")) [
    | inr e ↦ not_http e
    | inl http ↦ elim (Bool-cases (is_exempt request)) [
      | inl e ↦ exempt e
      | inr guarded ↦ elim (Result-cases (configured lib seen)) [
        | inr (e, c) ↦ absurd (ground arith)
        | inl (false, c) ↦ passwordless c
        | inl (true, c) ↦ elim (Result-cases (session_valid lib request.session_cookie now seen')) [
          | inr (e, v) ↦ absurd (ground arith)
          | inl (valid, v) ↦ elim (Bool-cases (is_public_auth request)) [
            | inl p ↦ sign_in_page valid c p v
            | inr p ↦
                let valid' : valid ≡ true = ground arith in
                signed_in c (ground arith) (guarded_origin checked request flags (ground arith))
          ]
        ]
      ]
    ]
  ]

  -- the flags that a request is forwarded with, once it is not let through unseen
  forwarded_with :
      (flags : Bool × Bool)
      → ((request.scope_type == "http") ≡ true
          → is_exempt request ≡ false
          → call lib checked urlencode request now seen seen' ≡ forward (some flags))
      → (found : Option (Bool × Bool)) × (call lib checked urlencode request now seen seen'
          ≡ forward found)
  unfolding call
  forwarded_with flags h = elim (Bool-cases (request.scope_type == "http")) [
    | inr other ↦ (none, ground arith)
    | inl http ↦ elim (Bool-cases (is_exempt request)) [
      | inl free ↦ (none, ground arith)
      | inr guarded ↦ (some flags, h http guarded)
    ]
  ]

  call_of_Admitted :
      Admitted lib checked request now seen seen'
      → (flags : Option (Bool × Bool)) × (call lib checked urlencode request now seen seen'
          ≡ forward flags)
  unfolding call check_session guard_origin
  call_of_Admitted (not_http e) = (none, ground arith)
  call_of_Admitted (exempt e) = forwarded_with (true, true) (λ http g. absurd (ground arith))
  call_of_Admitted (passwordless c) = forwarded_with (false, false) (λ http g. ground arith)
  call_of_Admitted (sign_in_page valid c p v) =
      forwarded_with (true, valid) (λ http g. ground arith)
  call_of_Admitted (signed_in c v o) = forwarded_with (true, true) (λ http g. ground arith)

  -- A request is forwarded exactly for one of these reasons: it is no HTTP request; its path is exempt;
  -- the file can be read and no password is set; a password is set, the file can also be read for the
  -- session, and the request asks for a sign-in page; or a password is set, the session is
  -- valid and, for an unsafe method, the origin is the head's own.
  pub call-forward_iff :
      ((flags : Option (Bool × Bool)) × (call lib checked urlencode request now seen seen'
          ≡ forward flags))
      ↔ Admitted lib checked request now seen seen'
  call-forward_iff = ((λ f. call-Admitted f.0 f.1), call_of_Admitted)

  -- An HTTP request for a path that is neither exempt nor a sign-in page, with a password set and
  -- no valid session, gets 401 below /api/ and elsewhere the redirect to the sign-in page.
  pub call-unauthorized :
      (request.scope_type == "http") ≡ true
      → is_exempt request ≡ false
      → configured lib seen ≡ ok true
      → session_valid lib request.session_cookie now seen' ≡ ok false
      → is_public_auth request ≡ false
      → call lib checked urlencode request now seen seen' ≡ unauthorized urlencode request
  unfolding call check_session
  call-unauthorized http e c v p = ground arith

  -- An authentication file that is corrupt at either read closes every other path with status 503.
  pub call_corrupt :
      (e : AuthError)
      → (request.scope_type == "http") ≡ true
      → is_exempt request ≡ false
      → (configured lib seen ≡ err e)
        ⊎ ((configured lib seen ≡ ok true)
            × (session_valid lib request.session_cookie now seen' ≡ err e))
      → call lib checked urlencode request now seen seen' ≡ (
          if has_prefix "/api/" request.path
          then json_error 503 unavailable_detail
          else text_error 503 unavailable_detail)
  unfolding call check_session service_unavailable
  call_corrupt e http x h = ground arith
