-- ===== src/HeadAuth/Middleware.antt =====
-- middleware/head_auth.py: `HeadAuthMiddleware`. A call is a function of the request, of the file as
-- it stands at the two reads (`configured`, then `session_valid`) and of the clock.
pub mod Access
use cozy_nm.Base.{
  ℕ, String, ◌==◌, Bool, true, false, not, ◌&&◌, ◌||◌, Option, none, some, List, [], ◌∷◌,
  if◌then◌else◌, has_prefix, is_empty, Result, ok, err,
}
use cozy_nm.Base.Dicts.{contains}
use cozy_nm.HeadAuth.State.{AuthError, corrupt, Platform}
use cozy_nm.HeadAuth.Store.{AuthFile, configured, session_valid}
use cozy_nm.HeadAuth.Origin.{UrlError, same_origin}
use Prim.Native.String

abbrev pub public_auth_paths : List String
public_auth_paths = "/auth/login" ∷ "/auth/setup" ∷ []

abbrev pub unsafe_methods : List String
unsafe_methods = "POST" ∷ "PUT" ∷ "PATCH" ∷ "DELETE" ∷ []

-- What the middleware and the pages read of a request.
pub record Request : Type 0 where
  pub scope_type : String
  pub method : String
  pub path : String
  pub query : String
  pub host : Option String
  pub origin : Option String
  pub referer : Option String
  pub session_cookie : Option String

-- `forward` hands the request to the application, with the two flags of its state where they were
-- set; `crash` is an exception that the middleware does not catch.
pub data Verdict : Type 0 where
  forward : Option (Bool × Bool) → Verdict
  json_error : ℕ → String → Verdict
  text_error : ℕ → String → Verdict
  redirect : String → Verdict
  crash : UrlError → Verdict

abbrev pub unavailable_detail : String
unavailable_detail = "Head authentication is unavailable because its state file is invalid."

-- `_service_unavailable`
unfoldable pub service_unavailable : String → Verdict
service_unavailable path =
    if has_prefix "/api/" path
    then json_error 503 unavailable_detail
    else text_error 503 unavailable_detail

-- `_unauthorized`; `urlencode` stands for the encoding of the one pair `next`
unfoldable pub unauthorized : (String → String) → Request → Verdict
unauthorized urlencode request =
    if has_prefix "/api/" request.path
    then json_error 401 "Authentication required."
    else (let target =
          if is_empty request.query
          then request.path
          else String.◌++◌ request.path (String.◌++◌ "?" request.query) in
        redirect (String.◌++◌ "/auth/login?" (urlencode target)))

unfoldable pub is_exempt : Request → Bool
is_exempt request = request.path == "/health" || has_prefix "/static/" request.path

unfoldable pub is_unsafe_method : Request → Bool
unfolding contains
is_unsafe_method request = contains request.method unsafe_methods

unfoldable pub is_public_auth : Request → Bool
unfolding contains
is_public_auth request = contains request.path public_auth_paths

unfoldable pub origin_refused : Request → Verdict
origin_refused request =
    if has_prefix "/api/" request.path
    then json_error 403 "Same-origin request required."
    else text_error 403 "Same-origin request required."

-- what follows once the request is known to be authenticated
unfoldable pub guard_origin : (String → Bool) → Request → Verdict
guard_origin checked request =
    if is_unsafe_method request
    then elim (same_origin checked request.host request.origin request.referer) [
      | err e ↦ crash e
      | ok true ↦ forward (some (true, true))
      | ok false ↦ origin_refused request
    ]
    else forward (some (true, true))

module _ {Doc : Type 0} (lib : Platform Doc) (checked : String → Bool)
    (urlencode : String → String) where
  -- `configured and self.store.session_valid(cookie)`
  unfoldable pub check_session :
      Request → ℕ → AuthFile Doc → AuthFile Doc → Result AuthError (Bool × Bool)
  check_session request now seen seen' = elim (configured lib seen) [
    | err e ↦ err e
    | ok false ↦ ok (false, false)
    | ok true ↦ elim (session_valid lib request.session_cookie now seen') [
      | err e ↦ err e
      | ok valid ↦ ok (true, valid)
    ]
  ]

  -- `__call__`
  unfoldable pub call : Request → ℕ → AuthFile Doc → AuthFile Doc → Verdict
  call request now seen seen' =
      if not (request.scope_type == "http")
      then forward none
      else if is_exempt request
      then forward none
      else elim (check_session request now seen seen') [
        | err e ↦ service_unavailable request.path
        | ok (false, authenticated) ↦ forward (some (false, authenticated))
        | ok (true, authenticated) ↦
            if is_public_auth request
            then forward (some (true, authenticated))
            else if not authenticated
            then unauthorized urlencode request
            else guard_origin checked request
      ]
