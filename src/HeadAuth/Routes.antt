-- ===== src/HeadAuth/Routes.antt =====
-- api/auth.py: the pages that set up, use, change and remove the password. A handler acts on the
-- stored file and the throttle's table; `flags` are the ones that the middleware puts on the request.
-- The sleep of a failed attempt is part of the response.
pub mod Attempts
use cozy_nm.Base.{
  ℕ, String, ◌==◌, Bool, true, false, not, ◌&&◌, Option, none, some, if◌then◌else◌, or_else, Result,
  ok, err, Exec, pure, raise, lift, ◌>>=◌, ◌>>◌,
}
use cozy_nm.HeadAuth.State.{
  AuthError, already_configured, invalid_password, too_short, too_long, Platform,
}
use cozy_nm.HeadAuth.Store.{AuthFile, Draw, setup, login, change_password, disable, logout}
use cozy_nm.HeadAuth.Throttle.{Failures, LoginThrottle, ThrottleError, failed, succeeded}
use cozy_nm.HeadAuth.Origin.{UrlError, same_origin, safe_next_url}
use cozy_nm.HeadAuth.Middleware.{Request}

pub record Flags : Type 0 where
  pub auth_configured : Bool
  pub authenticated : Bool

pub record Head (Doc : Type 0) : Type 0 where
  pub file : AuthFile Doc
  pub failures : Failures

pub data Page : Type 0 where
  auth_setup : Option String → Page
  auth_login : String → Option String → Page
  auth_settings : (message change_error disable_error : Option String) → Page

pub data Cookie : Type 0 where
  keep_cookie : Cookie
  set_session : String → Cookie
  clear_session : Cookie

-- `waited` is the delay, in seconds, that a failed attempt has slept
pub data Response : Type 0 where
  redirect_to : String → Cookie → Response
  render : Page → (status : ℕ) → (waited : ℕ) → Response

-- The exceptions that leave a handler: the store's, the throttle's, `urlsplit`'s, and the 403.
pub data RouteError : Type 0 where
  store_error : AuthError → RouteError
  throttle_error : ThrottleError → RouteError
  url_error : UrlError → RouteError
  forbidden : RouteError

abbrev pub Handler : Type 0 → Type 0 → Type 0
Handler Doc A = Exec (Head Doc) RouteError A

-- the message of a `PasswordValidationError`
unfoldable pub rule_message : AuthError → Option String
rule_message too_short = some "Password must contain at least 8 characters."
rule_message too_long = some "Password is too long."
rule_message _ = none

module _ {Doc : Type 0} where
  -- a call of the store whose exception the handler looks at
  unfoldable pub attempt :
      {A : Type 0} → Exec (AuthFile Doc) AuthError A → Handler Doc (Result AuthError A)
  attempt op head = let (r, file) = op head.file in (ok r, record head { file = file })

  -- `await _throttle(request).failed(key)`
  unfoldable pub throttle_failed : LoginThrottle → String → ℕ → Handler Doc ℕ
  throttle_failed throttle key now head =
      let (r, failures) = failed throttle key now head.failures in
      (
        elim r [ ok delay ↦ ok delay | err e ↦ err (throttle_error e) ],
        record head { failures = failures },
      )

  -- `await _throttle(request).succeeded(key)`
  unfoldable pub throttle_succeeded : String → Handler Doc Unit
  throttle_succeeded key head = (ok tt, record head { failures = succeeded key head.failures })

  -- `_require_same_origin`
  unfoldable pub require_same_origin : (String → Bool) → Request → Handler Doc Unit
  require_same_origin checked request =
      elim (same_origin checked request.host request.origin request.referer) [
        | ok true ↦ pure tt
        | ok false ↦ raise forbidden
        | err e ↦ raise (url_error e)
      ]

  unfoldable pub next_target : (String → Bool) → Option String → Handler Doc String
  next_target checked next = elim (safe_next_url checked next "/") [
    | ok target ↦ pure target
    | err e ↦ raise (url_error e)
  ]

-- `_client_key`
unfoldable pub client_key : Option String → String
client_key client = or_else client "unknown"

-- GET /setup
unfoldable pub setup_page : Flags → Response
setup_page flags =
    if flags.auth_configured
    then redirect_to (if flags.authenticated then "/" else "/auth/login") keep_cookie
    else render (auth_setup none) 200 0

-- GET /settings
unfoldable pub settings_page : Option String → Response
settings_page message = render (auth_settings message none none) 200 0

module _ {Doc : Type 0} (checked : String → Bool) where
  -- GET /login
  unfoldable pub login_page : Flags → Option String → Handler Doc Response
  login_page flags next = do
    target ← next_target checked next
    if not flags.auth_configured
        then pure (redirect_to "/auth/setup" keep_cookie)
        else if flags.authenticated
        then pure (redirect_to target keep_cookie)
        else pure (render (auth_login target none) 200 0)

module _ {Doc : Type 0} (lib : Platform Doc) (days : ℕ) (throttle : LoginThrottle)
    (checked : String → Bool) (draw : Draw) where
  -- what `setup_password` makes of the outcome of the store's `setup`
  unfoldable pub setup_response : Result AuthError String → Handler Doc Response
  setup_response (ok token) = pure (redirect_to "/" (set_session token))
  setup_response (err already_configured) = pure (redirect_to "/auth/login" keep_cookie)
  setup_response (err e) = elim (rule_message e) [
    | some message ↦ pure (render (auth_setup (some message)) 400 0)
    | none ↦ raise (store_error e)
  ]

  -- POST /setup
  unfoldable pub setup_password : Request → Flags → String → String → Handler Doc Response
  setup_password request flags password confirm_password = do
    require_same_origin checked request
    if flags.auth_configured
        then pure (redirect_to "/auth/login" keep_cookie)
        else if not (password == confirm_password)
        then pure (render (auth_setup (some "Passwords do not match.")) 400 0)
        else (do outcome ← attempt (setup lib days draw password); setup_response outcome)

  -- what `login` makes of the outcome of the store's `login`; `now` is the throttle's clock
  unfoldable pub login_response :
      String → ℕ → String → Result AuthError String → Handler Doc Response
  login_response key now target (ok token) = do
    throttle_succeeded key
    pure (redirect_to target (set_session token))
  login_response key now target (err invalid_password) = do
    waited ← throttle_failed throttle key now
    pure (render (auth_login target (some "Incorrect password.")) 401 waited)
  login_response key now target (err e) = raise (store_error e)

  -- POST /login
  unfoldable pub login_route :
      Request → Flags → String → ℕ → String → Option String → Handler Doc Response
  login_route request flags key now password next = do
    require_same_origin checked request
    target ← next_target checked next
    if not flags.auth_configured then pure (redirect_to "/auth/setup" keep_cookie) else (do
      outcome ← attempt (login lib days draw password)
      login_response key now target outcome)

  unfoldable pub change_response : String → ℕ → Result AuthError String → Handler Doc Response
  change_response key now (ok token) = do
    throttle_succeeded key
    pure (redirect_to "/auth/settings?message=Password+changed." (set_session token))
  change_response key now (err invalid_password) = do
    waited ← throttle_failed throttle key now
    pure (render (auth_settings none (some "Incorrect current password.") none) 401 waited)
  change_response key now (err e) = elim (rule_message e) [
    | some message ↦ pure (render (auth_settings none (some message) none) 400 0)
    | none ↦ raise (store_error e)
  ]

  -- POST /change
  unfoldable pub change_route : String → ℕ → String → String → String → Handler Doc Response
  change_route key now current_password new_password confirm_password =
      if not (new_password == confirm_password)
      then pure (render (auth_settings none (some "New passwords do not match.") none) 400 0)
      else (do
        outcome ← attempt (change_password lib days draw current_password new_password)
        change_response key now outcome)

  unfoldable pub disable_response : String → ℕ → Result AuthError Unit → Handler Doc Response
  disable_response key now (ok u) = do throttle_succeeded key; pure (redirect_to "/" clear_session)
  disable_response key now (err invalid_password) = do
    waited ← throttle_failed throttle key now
    pure (render (auth_settings none none (some "Incorrect current password.")) 401 waited)
  disable_response key now (err e) = raise (store_error e)

  -- POST /disable
  unfoldable pub disable_route : String → ℕ → String → Handler Doc Response
  disable_route key now current_password = do
    outcome ← attempt (disable lib draw current_password)
    disable_response key now outcome

  -- POST /logout
  unfoldable pub logout_route : Option String → Handler Doc Response
  logout_route cookie = do
    outcome ← attempt (logout lib draw cookie)
    elim outcome [
      | ok u ↦ pure (redirect_to "/auth/login" clear_session)
      | err e ↦ raise (store_error e)
    ]
