-- ===== src/Head/Guarded.antt =====
-- What the form routes of the head send, and when.
use Prim.Native.String
use Prim.Native.String.{[], ◌∷◌}
use text.Mathlib.TextLemmas.{cons-append}
use cozy_nm.Base.{
  ℕ, ◌≡◌, refl, ◌∙◌, ◌⊎◌, String, Bool, true, false, Option, none, some, is_some, is_empty, List,
  ap, or_else, if◌then◌else◌, eq_iff, ◌==◌, All, Result, ok, err, Result-cases, Bool-cases, inl,
  inr,
}
use cozy_nm.Base.Dicts.{contains}
use cozy_nm.Bridges.Service.{BridgeDefinitionInput}
use cozy_nm.Bridges.State.{Host}
use cozy_nm.Bridges.Decimal.{decimal}
use cozy_nm.HeadAuth.Origin.{SplitUrl, urlsplit}
use cozy_nm.Config.Targets.{bridge_host}
use cozy_nm.Head.BridgeClient.{
  ClientConfig, ClientError, HttpRequest, HttpResponse, Sent, headers, request_url, bridge_request,
  sent_with, sent_to, call_create_bridge, call_update_bridge, call_delete_bridge,
  call_bridge_action, call_project_action,
}
use cozy_nm.Head.Forwards.{
  FormRequest, FormRoute, create_route, update_route, delete_route, action_route, project_route,
  failed_with, supplied_origin, require_same_origin, forward, form_route,
}

pub headers-ok :
    (config : ClientConfig) (authorization : String)
    → headers config ≡ ok authorization
    → (is_empty config.bridge_api_token ≡ false)
      × (authorization ≡ String.◌++◌ "Bearer " config.bridge_api_token)
unfolding headers
headers-ok config authorization h = elim (Bool-cases (is_empty config.bridge_api_token)) [
  | inl e ↦
      let bad : err ClientError.token_missing ≡ ok authorization = rw e at h in absurd (cc (bad))
  | inr e ↦
      let same : ok (String.◌++◌ "Bearer " config.bridge_api_token) ≡ ok authorization =
        rw e at h in
      (e, cc (same))
]

-- the page that the browser names as the origin of the form: the origin, or the referer without one
abbrev IsSent : FormRequest → String → Type 0
IsSent request text =
    (is_empty text ≡ false)
    × ((request.origin ≡ some text)
        ⊎ (((request.origin ≡ none) ⊎ (request.origin ≡ some "")) × (request.referer ≡ some text)))

-- The form came from a page whose URL names the host that the form was sent to.
abbrev pub IsSameOrigin : (checked : String → Bool) → FormRequest → Type 0
IsSameOrigin checked request =
    (text : String) × (url : SplitUrl) × IsSent request text
    × (urlsplit checked text ≡ ok url)
    × (url.netloc ≡ or_else request.host "")

empty_text : (s : String) → is_empty s ≡ true → s ≡ ""
empty_text [] h = refl
empty_text (c ∷ s) h = absurd (cc)

referer-IsSent :
    (request : FormRequest) (referer : Option String)
    → request.origin ≡ some ""
    → request.referer ≡ referer
    → is_empty (or_else referer "") ≡ false
    → IsSent request (or_else referer "")
referer-IsSent request none o r k = absurd (cc)
referer-IsSent request (some text) o r k = (k, inr (inr o, r))

supplied-IsSent :
    (request : FormRequest) (origin referer : Option String)
    → request.origin ≡ origin
    → request.referer ≡ referer
    → is_empty (if is_empty (or_else origin "") then or_else referer "" else or_else origin "")
      ≡ false
    → IsSent request
        (if is_empty (or_else origin "") then or_else referer "" else or_else origin "")
supplied-IsSent request none none o r h = absurd (cc)
supplied-IsSent request none (some text) o r h = (h, inr (inl o, r))
supplied-IsSent request (some origin) referer o r h = elim (Bool-cases (is_empty origin)) [
  | inr e ↦ rw e (e, inl o)
  | inl e ↦ rw e (referer-IsSent request referer (o ∙ ap some (empty_text origin e)) r (rw e at h))
]

require_same_origin-IsSameOrigin :
    (checked : String → Bool) (request : FormRequest)
    → require_same_origin checked request ≡ ok tt
    → IsSameOrigin checked request
unfolding require_same_origin supplied_origin
require_same_origin-IsSameOrigin checked request h =
    elim (Bool-cases (is_empty (supplied_origin request))) [
      | inl e ↦ let bad : err 403 ≡ ok tt = rw e at h in absurd (cc (bad))
      | inr e ↦ elim (Result-cases (urlsplit checked (supplied_origin request))) [
        | inr (x, u) ↦ let bad : err 500 ≡ ok tt = rw (e, u) at h in absurd (cc (bad))
        | inl (url, u) ↦ elim (Bool-cases (url.netloc == or_else request.host "")) [
          | inr n ↦ let bad : err 403 ≡ ok tt = rw (e, u, n) at h in absurd (cc (bad))
          | inl n ↦ (
            supplied_origin request,
            url,
            supplied-IsSent request request.origin request.referer refl refl e,
            u,
            (eq_iff url.netloc (or_else request.host "")).0 n,
          )
        ]
      ]
    ]

module _ {B : Type 0} (send : HttpRequest → Result String (HttpResponse B)) (config : ClientConfig)
    (node_ip : String) where
  -- http://, the node, the port of the minions and a path
  abbrev url_at : (rest : String) → String
  url_at rest = String.◌++◌ "http://" (
      String.◌++◌ node_ip
        (String.◌++◌ ":" (String.◌++◌ (decimal config.app.minion_port) ("/" ∷ rest))))

  -- to the node itself, which is allowed to manage bridges, with the token of the head
  abbrev pub IsProper : HttpRequest → Type 0
  IsProper r =
      ((rest : String) × (r.url ≡ url_at rest))
      × (r.authorization ≡ String.◌++◌ "Bearer " config.bridge_api_token)
      × (is_empty config.bridge_api_token ≡ false)
      × (is_some (bridge_host config.app node_ip) ≡ true)

  sent_with-IsProper :
      (request : String → HttpRequest) (rest : String) (r : Result ClientError String)
      → ((a : String) → (request a).url ≡ url_at rest)
      → ((a : String) → (request a).authorization ≡ a)
      → headers config ≡ r
      → is_some (bridge_host config.app node_ip) ≡ true
      → All IsProper (sent_with send node_ip request r).1
  sent_with-IsProper request rest (err e) u a h found = tt
  sent_with-IsProper request rest (ok authorization) u a h found =
      let (full, same) = headers-ok config authorization h in
      (((rest, u authorization), a authorization ∙ same, full, found), tt)

  sent_to-IsProper :
      (sent : Sent B) (o : Option Host)
      → bridge_host config.app node_ip ≡ o
      → (is_some (bridge_host config.app node_ip) ≡ true → All IsProper sent.1)
      → All IsProper (sent_to send node_ip sent o).1
  sent_to-IsProper sent none h k = tt
  sent_to-IsProper sent (some host) h k = k (rw h refl)

  bridge_request-IsProper :
      (method path : String) (payload : Option BridgeDefinitionInput) (timeout : ℕ) (rest : String)
      → path ≡ "/" ∷ rest
      → All IsProper (bridge_request send config node_ip method path payload timeout).1
  unfolding bridge_request request_url
  bridge_request-IsProper method path payload timeout rest q =
      sent_to-IsProper _ (bridge_host config.app node_ip) refl
        (sent_with-IsProper _ rest (headers config) (λ a. rw q refl) (λ a. refl) refl)

  module _ (message_of : B → String) (quote : String → String) where
    forward-IsProper :
        (route : FormRoute) → All IsProper (forward message_of send quote config node_ip route).1
    unfolding forward call_create_bridge call_update_bridge call_delete_bridge call_bridge_action
        call_project_action
    forward-IsProper (create_route v) = bridge_request-IsProper "POST" _ _ 10 "api/v1/bridges" refl
    forward-IsProper (update_route current v) =
        bridge_request-IsProper "PUT" _ _ 10 _ (cons-append "/" "api/v1/bridges/" (quote current))
    forward-IsProper (delete_route name) =
        bridge_request-IsProper "DELETE" _ _ 10 _ (cons-append "/" "api/v1/bridges/" (quote name))
    forward-IsProper (action_route name action) =
        elim (Bool-cases
          (contains action (List.◌∷◌ "start" (List.◌∷◌ "stop" (List.◌∷◌ "restart" List.[]))))) [
            | inl e ↦ rw e (
                bridge_request-IsProper "POST" _ _ 90 _ (
                  cons-append "/" "api/v1/bridges/"
                    (String.◌++◌ (quote name) (String.◌++◌ "/actions/" (quote action)))))
            | inr e ↦ rw e tt
          ]
    forward-IsProper (project_route action) =
        elim (Bool-cases (contains action (List.◌∷◌ "apply" (List.◌∷◌ "restart" List.[])))) [
          | inl e ↦ rw e (
              bridge_request-IsProper "POST" _ _ _ _
                (cons-append "/" "api/v1/bridges/project/" (quote action)))
          | inr e ↦ rw e tt
        ]

    -- Either a form is refused and nothing is sent; or the page that the browser names, by its origin
    -- or, without one, by its referer, has a URL with the host that the form was sent to, and every
    -- request that is sent goes by http to the node itself, at the port of the minions, and the node is
    -- allowed to manage bridges, with the token of the head, which is not empty.
    pub form_route-IsProper :
        (checked : String → Bool) (request : FormRequest) (route : FormRoute)
        → let answer = form_route message_of send quote config node_ip checked request route in
          ((status : ℕ) × (answer ≡ (failed_with status, List.[])))
          ⊎ (IsSameOrigin checked request × All IsProper answer.1)
    unfolding form_route
    form_route-IsProper checked request route =
        elim (Result-cases (require_same_origin checked request)) [
          | inr (status, e) ↦ inl (status, rw e refl)
          | inl (u, e) ↦
              inr
                (require_same_origin-IsSameOrigin checked request e, rw e (forward-IsProper route))
        ]
