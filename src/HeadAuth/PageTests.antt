-- ===== src/HeadAuth/PageTests.antt =====
-- The theorems of the throttle, the redirect targets, the middleware and the pages at concrete
-- requests, over the libraries and files of the store's tests.
use cozy_nm.Base.{
  ◌≡◌, refl, String, Bool, true, false, Option, none, some, [], ◌∷◌, ok, err, arith, if◌then◌else◌,
  ◌⊎◌, ◌↔◌, min, ◌+◌, ◌^◌, leb,
}
use cozy_nm.Base.Dicts.{get, assign, discard}
use cozy_nm.HeadAuth.State.{AuthState, corrupt}
use cozy_nm.HeadAuth.Store.{
  unreadable, authenticate, session_valid, session_seconds, configured, read,
}
use cozy_nm.HeadAuth.Throttle.{
  LoginThrottle, failed, succeeded, overflow_error, next_count, delay_of, float_pow2,
}
use cozy_nm.HeadAuth.Throttle.Delays.{fail_at, burst_delay, failed-succeeded}
use cozy_nm.HeadAuth.Origin.{
  safe_next_url, same_origin, urlsplit, split_scheme, remove_unsafe, cut_scheme, authority,
  brackets_match,
}
use cozy_nm.HeadAuth.Origin.Targets.{StaysLocal, safe_next_url-StaysLocal}
use cozy_nm.HeadAuth.Middleware.{Request, forward, call, unauthorized, is_exempt, is_public_auth}
use cozy_nm.HeadAuth.Middleware.Access.{Admitted, call-forward_iff, call-unauthorized}
use cozy_nm.HeadAuth.Routes.{
  Flags, Head, login_route, login_response, require_same_origin, next_target, attempt,
  throttle_failed, throttle_succeeded, redirect_to, set_session,
}
use cozy_nm.HeadAuth.Routes.Attempts.{login_route-signed_in}
use cozy_nm.HeadAuth.Tests.{toy, toy-IsSound, file_1, file_2, second_draw, store_code}

abbrev throttle : LoginThrottle
throttle = record { max_delay_seconds = 30; reset_after = 900 }

burst_delay_example :
    (failed throttle "10.46.0.2" 7 (fail_at throttle "10.46.0.2" (1 ∷ 4 ∷ []) [])).0
    ≡ (if leb 1023 1 then err overflow_error else ok (min (2 ^ (1 + 1)) 30))
unfolding get
burst_delay_example =
    burst_delay throttle "10.46.0.2" 1 7 (4 ∷ []) [] refl (omega arith) (omega arith)

failed-succeeded_example :
    (failed throttle "10.46.0.2" 5 (succeeded "10.46.0.2" (("10.46.0.2", (3, 4)) ∷ []))).0
    ≡ ok (min 1 30)
failed-succeeded_example = failed-succeeded throttle "10.46.0.2" 5 (("10.46.0.2", (3, 4)) ∷ [])

abbrev any_netloc : String → Bool
any_netloc netloc = true

-- opens the URL code for the runs
url_code : Unit {0}
unfolding safe_next_url same_origin urlsplit split_scheme remove_unsafe cut_scheme authority
    brackets_match
url_code = tt

-- opens the pages and the throttle for the runs
page_code : Unit {0}
unfolding login_route login_response require_same_origin next_target attempt throttle_failed
    throttle_succeeded failed succeeded next_count delay_of float_pow2 get assign discard
page_code = tt

next_runs : safe_next_url any_netloc (some "/nodes?a=1") "/" ≡ ok "/nodes?a=1"
unfolding url_code
next_runs = refl

safe_next_url-StaysLocal_example : (◌≡◌ {A = String} "/nodes?a=1" "/") ⊎ StaysLocal "/nodes?a=1"
safe_next_url-StaysLocal_example =
    safe_next_url-StaysLocal any_netloc (some "/nodes?a=1") "/" "/nodes?a=1" next_runs

abbrev post_request : Request
post_request = record {
  scope_type = "http";
  method = "POST";
  path = "/api/v1/nodes";
  query = "";
  host = some "head:8000";
  origin = some "http://head:8000";
  referer = none;
  session_cookie = some "second";
}

call-forward_iff_example :
    ((flags : Option (Bool × Bool)) × (call toy any_netloc (λ s. s) post_request 2000 file_2 file_2
        ≡ forward flags))
    ↔ Admitted toy any_netloc post_request 2000 file_2 file_2
call-forward_iff_example = call-forward_iff toy any_netloc (λ s. s) post_request 2000 file_2 file_2

is_configured : configured toy file_2 ≡ ok true
unfolding store_code configured
is_configured = refl

has_expired : session_valid toy (some "second") 9000000 file_2 ≡ ok false
unfolding store_code
has_expired = refl

not_exempt : is_exempt post_request ≡ false
unfolding is_exempt
not_exempt = refl

not_public : is_public_auth post_request ≡ false
unfolding is_public_auth
not_public = refl

call-unauthorized_example :
    call toy any_netloc (λ s. s) post_request 9000000 file_2 file_2
    ≡ unauthorized (λ s. s) post_request
call-unauthorized_example =
    call-unauthorized toy any_netloc (λ s. s) post_request 9000000 file_2 file_2 refl not_exempt
      is_configured has_expired not_public

unreadable_configured : configured toy unreadable ≡ err corrupt
unfolding configured read
unreadable_configured = refl

abbrev flags : Flags
flags = record { auth_configured = true; authenticated = false }

abbrev head_1 : Head (Option AuthState)
head_1 = record { file = file_1; failures = ("10.46.0.2", (3, 4)) ∷ [] }

abbrev signed_in : Head (Option AuthState)
signed_in =
    (login_route toy 30 throttle any_netloc second_draw post_request flags "10.46.0.2" 9
      "correct horse" (some "/nodes") head_1).1

sign_in_runs :
    login_route toy 30 throttle any_netloc second_draw post_request flags "10.46.0.2" 9
      "correct horse"
      (some "/nodes")
      head_1
    ≡ (ok (redirect_to "/nodes" (set_session "second")), signed_in)
unfolding store_code url_code page_code
sign_in_runs = refl

login_route-signed_in_example :
    (same_origin any_netloc (some "head:8000") (some "http://head:8000") none ≡ ok true)
    × ((s : AuthState) × (authenticate toy "correct horse" file_1 ≡ ok s))
    × (session_valid toy (some "second") 2500 signed_in.file ≡ ok true)
    × (get "10.46.0.2" signed_in.failures ≡ none)
    × ((◌≡◌ {A = String} "/nodes" "/") ⊎ StaysLocal "/nodes")
unfolding session_seconds
login_route-signed_in_example =
    login_route-signed_in toy 30 throttle any_netloc second_draw toy-IsSound post_request flags
      "10.46.0.2" 9 2500 "correct horse" (some "/nodes") head_1 signed_in "/nodes" "second"
      sign_in_runs refl (omega arith)
