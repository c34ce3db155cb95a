-- ===== src/Head/Forwards.antt =====
-- api/head.py: the form routes of the bridges. FastAPI has parsed the form; `checked` stands for the
-- checks of urlsplit as in HeadAuth.Origin, and what urlencode makes of a redirect is its data.
use Prim.Native.String
use cozy_nm.Base.{
  ℕ, String, ◌==◌, Bool, Option, or_else, if◌then◌else◌, is_empty, List, [], ◌∷◌, Result, ok, err,
}
use cozy_nm.Base.Dicts.{contains}
use cozy_nm.Bridges.Service.{BridgeDefinitionInput}
use cozy_nm.Devices.Scan.{strip}
use cozy_nm.Head.BridgeClient.{
  ClientConfig, ClientError, HttpRequest, HttpResponse, Sent, error_text, call_create_bridge,
  call_update_bridge, call_delete_bridge, call_bridge_action, call_project_action,
}
use cozy_nm.HeadAuth.Origin.{UrlError, SplitUrl, urlsplit}

pub record FormRequest : Type 0 where
  pub host : Option String
  pub origin : Option String
  pub referer : Option String

pub data FormRoute : Type 0 where
  create_route : BridgeDefinitionInput → FormRoute
  update_route : (current_name : String) → BridgeDefinitionInput → FormRoute
  delete_route : (name : String) → FormRoute
  action_route : (name : String) → (action : String) → FormRoute
  project_route : (action : String) → FormRoute

-- a status without a page, or a redirect to /forwards with one of its two texts
pub data FormAnswer : Type 0 where
  failed_with : (status : ℕ) → FormAnswer
  with_message : String → FormAnswer
  with_error : String → FormAnswer

-- `origin or referer`
unfoldable pub supplied_origin : FormRequest → String
supplied_origin request =
    let origin = or_else request.origin "" in
    if is_empty origin then or_else request.referer "" else origin

abbrev same_netloc : String → Result UrlError SplitUrl → Result ℕ (Unit {0})
same_netloc host (err e) = err 500
same_netloc host (ok url) = if url.netloc == host then ok tt else err 403

-- `_same_origin`: the status that it answers with, if it refuses
unfoldable pub require_same_origin : (checked : String → Bool) → FormRequest → Result ℕ (Unit {0})
require_same_origin checked request =
    if is_empty (supplied_origin request)
    then err 403
    else same_netloc (or_else request.host "") (urlsplit checked (supplied_origin request))

unfoldable pub form_payload : BridgeDefinitionInput → BridgeDefinitionInput
form_payload v = record v { name = strip v.name; target_host = strip v.target_host }

-- `message_of` is the result's message, empty for none
module _ {B : Type 0} (message_of : B → String) where
  abbrev answered : (B → String) → Result ClientError B → FormAnswer
  answered text (ok body) = with_message (text body)
  answered text (err e) = with_error (error_text e)

  abbrev pub redirected : (B → String) → Sent B → FormAnswer × List HttpRequest
  redirected text (r, sent) = (answered text r, sent)

  abbrev or_message : String → B → String
  or_message default body = if is_empty (message_of body) then default else message_of body

  module _ (send : HttpRequest → Result String (HttpResponse B)) (quote : String → String)
      (config : ClientConfig) (node_ip : String) where
    -- what the routes do behind the test of the origin
    unfoldable pub forward : FormRoute → FormAnswer × List HttpRequest
    forward (create_route v) =
        redirected
          (λ body.
            String.◌++◌ "Bridge "
              (String.◌++◌ (strip v.name) " saved; apply the project to enact it."))
          (call_create_bridge send quote config node_ip (form_payload v))
    forward (update_route current v) =
        redirected
          (λ body.
            String.◌++◌ "Bridge "
              (String.◌++◌ (strip v.name) " saved; apply the project to enact it."))
          (call_update_bridge send quote config node_ip current (form_payload v))
    forward (delete_route name) =
        redirected
          (λ body.
            String.◌++◌ "Bridge "
              (String.◌++◌ name " removed from configuration; apply the project to enact it."))
          (call_delete_bridge send quote config node_ip name)
    forward (action_route name action) =
        if contains action ("start" ∷ "stop" ∷ "restart" ∷ [])
        then redirected (or_message (String.◌++◌ "Bridge " (String.◌++◌ action " completed.")))
            (call_bridge_action send quote config node_ip name action)
        else (failed_with 404, [])
    forward (project_route action) =
        if contains action ("apply" ∷ "restart" ∷ [])
        then redirected (or_message (String.◌++◌ "Project " (String.◌++◌ action " completed.")))
            (call_project_action send quote config node_ip action)
        else (failed_with 404, [])

    abbrev pub forwarded : Result ℕ (Unit {0}) → FormRoute → FormAnswer × List HttpRequest
    forwarded (err status) route = (failed_with status, [])
    forwarded (ok u) route = forward route

    -- the answer, and what was sent to the minions
    unfoldable pub form_route :
        (checked : String → Bool) → FormRequest → FormRoute → FormAnswer × List HttpRequest
    form_route checked request route = forwarded (require_same_origin checked request) route
