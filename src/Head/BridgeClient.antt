-- ===== src/Head/BridgeClient.antt =====
-- services/bridge_client.py: the head's requests to the bridge API of the minions. httpx is an
-- argument: the answer to a request, or the text of the exception. What a function sends is returned
-- beside its result. `quote` of urllib.parse is an argument.
use Prim.Native.String
use cozy_nm.Base.{
  ℕ, String, ◌==◌, Bool, Option, none, some, if◌then◌else◌, leb, is_empty, List, [], ◌∷◌, Result,
  ok, err,
}
use cozy_nm.Bridges.Decimal.{decimal}
use cozy_nm.Bridges.Service.{BridgeDefinitionInput}
use cozy_nm.Bridges.State.{Host}
use cozy_nm.Config.Targets.{AppConfig, bridge_host}

-- the fields of AppConfig that the client reads
pub record ClientConfig : Type 0 where
  pub app : AppConfig
  pub bridge_api_token : String

pub record HttpRequest : Type 0 where
  pub method : String
  pub url : String
  pub authorization : String
  pub payload : Option BridgeDefinitionInput
  pub timeout : ℕ

-- the `detail` of an answer: a dictionary with its message and its text, or another value
pub data Detail : Type 0 where
  no_detail : Detail
  fields : (message printed : String) → Detail
  value : (truth : Bool) → (printed : String) → Detail

-- `body` is none where it is no JSON
pub record HttpResponse (B : Type 0) : Type 0 where
  pub status : ℕ
  pub body : Option B
  pub detail : Detail
  pub text : String

pub data ClientError : Type 0 where
  token_missing : ClientError
  not_whitelisted : String → ClientError
  cannot_reach : String → String → ClientError
  minion_refused : String → String → ClientError
  invalid_json : String → ClientError

abbrev pub join3 : String → String → String → String
join3 a b c = String.◌++◌ a (String.◌++◌ b c)

-- str(exc)
unfoldable pub error_text : ClientError → String
error_text token_missing = "Bridge management token is not configured on the head."
error_text (not_whitelisted ip) = String.◌++◌ "Node is not whitelisted for bridge management: " ip
error_text (cannot_reach ip reason) =
    join3 "Cannot reach bridge minion " ip (String.◌++◌ ": " reason)
error_text (minion_refused ip reason) = join3 "Bridge minion " ip (String.◌++◌ ": " reason)
error_text (invalid_json ip) = join3 "Bridge minion " ip " returned invalid JSON."

unfoldable pub headers : ClientConfig → Result ClientError String
headers config =
    if is_empty config.bridge_api_token
    then err token_missing
    else ok (String.◌++◌ "Bearer " config.bridge_api_token)

abbrev or_status : String → ℕ → String
or_status text status = if is_empty text then String.◌++◌ "HTTP " (decimal status) else text

unfoldable pub error_message : Detail → (text : String) → (status : ℕ) → String
error_message no_detail text status = or_status text status
error_message (fields message printed) text status = if is_empty message then printed else message
error_message (value truth printed) text status = if truth then printed else or_status text status

unfoldable pub request_url : ClientConfig → (node_ip path : String) → String
request_url config node_ip path =
    String.◌++◌ "http://" (join3 node_ip ":" (String.◌++◌ (decimal config.app.minion_port) path))

abbrev pub Sent : Type 0 → Type 0
Sent A = Result ClientError A × List HttpRequest

module _ {B : Type 0} (send : HttpRequest → Result String (HttpResponse B)) where
  abbrev parsed_body : (node_ip : String) → Option B → Result ClientError B
  parsed_body node_ip none = err (invalid_json node_ip)
  parsed_body node_ip (some body) = ok body

  -- what is made of the answer
  unfoldable pub received :
      (node_ip : String) → Result String (HttpResponse B) → Result ClientError B
  received node_ip (err reason) = err (cannot_reach node_ip reason)
  received node_ip (ok response) =
      if leb 400 response.status
      then err
          (minion_refused node_ip (error_message response.detail response.text response.status))
      else parsed_body node_ip response.body

  -- the headers are made inside the `try`, so a missing token is reported as an unreachable minion
  abbrev pub sent_with :
      (node_ip : String) → (String → HttpRequest) → Result ClientError String → Sent B
  sent_with node_ip request (err e) = (err (cannot_reach node_ip (error_text e)), [])
  sent_with node_ip request (ok authorization) =
      (received node_ip (send (request authorization)), request authorization ∷ [])

  abbrev pub sent_to : (node_ip : String) → Sent B → Option Host → Sent B
  sent_to node_ip sent none = (err (not_whitelisted node_ip), [])
  sent_to node_ip sent (some host) = sent

  unfoldable pub bridge_request :
      ClientConfig
      → (node_ip method path : String) → Option BridgeDefinitionInput
      → (timeout : ℕ) → Sent B
  bridge_request config node_ip method path payload timeout =
      sent_to node_ip
        (sent_with node_ip
          (λ authorization. record {
            method = method;
            url = request_url config node_ip path;
            authorization = authorization;
            payload = payload;
            timeout = timeout;
          })
          (headers config))
        (bridge_host config.app node_ip)

  module _ (quote : String → String) where
    unfoldable pub call_create_bridge : ClientConfig → String → BridgeDefinitionInput → Sent B
    call_create_bridge config node_ip payload =
        bridge_request config node_ip "POST" "/api/v1/bridges" (some payload) 10

    unfoldable pub call_update_bridge :
        ClientConfig → String → String → BridgeDefinitionInput → Sent B
    call_update_bridge config node_ip name payload =
        bridge_request config node_ip "PUT" (String.◌++◌ "/api/v1/bridges/" (quote name))
          (some payload) 10

    unfoldable pub call_delete_bridge : ClientConfig → String → String → Sent B
    call_delete_bridge config node_ip name =
        bridge_request config node_ip "DELETE" (String.◌++◌ "/api/v1/bridges/" (quote name)) none 10

    unfoldable pub call_bridge_action : ClientConfig → String → String → String → Sent B
    call_bridge_action config node_ip name action =
        bridge_request config node_ip "POST"
          (join3 "/api/v1/bridges/" (quote name) (String.◌++◌ "/actions/" (quote action))) none 90

    unfoldable pub call_project_action : ClientConfig → String → String → Sent B
    call_project_action config node_ip action =
        bridge_request config node_ip "POST" (String.◌++◌ "/api/v1/bridges/project/" (quote action))
          none (if action == "apply" then 330 else 150)

-- the view of a project on the head: the minion's, or why there is none
pub data FetchedProject (B : Type 0) : Type 0 where
  available : B → FetchedProject B
  unavailable : Host → (error : String) → FetchedProject B

module _ {B : Type 0} (send : HttpRequest → Result String (HttpResponse B)) where
  abbrev fetched : Host → Result ClientError B → FetchedProject B
  fetched host (ok body) = available body
  fetched host (err e) = unavailable host (error_text e)

  unfoldable pub fetch_project : ClientConfig → Host → FetchedProject B
  fetch_project config host =
      fetched host (bridge_request send config host.node_ip "GET" "/api/v1/bridges" none 5).0

  unfoldable pub fetch_from : ClientConfig → List Host → List (FetchedProject B)
  fetch_from config [] = []
  fetch_from config (host ∷ hosts) = fetch_project config host ∷ fetch_from config hosts

  -- the results come in the order of the hosts
  unfoldable pub fetch_bridge_projects : ClientConfig → List (FetchedProject B)
  fetch_bridge_projects config = fetch_from config config.app.hosts
