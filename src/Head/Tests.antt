-- ===== src/Head/Tests.antt =====
-- The theorems on the head at concrete requests.
use cozy_nm.Base.{
  ℕ, ◌≡◌, refl, String, true, Option, none, some, List, [], ◌∷◌, All, Result, ok, err, false, ◌⊎◌,
  ◌==◌, if◌then◌else◌,
}
use cozy_nm.Bridges.Decimal.{decimal}
use cozy_nm.Bridges.State.{Lib, Files, World, Host, completed}
use cozy_nm.Bridges.Yaml.{Value, mapping, end}
use cozy_nm.Base.Dicts.{get, contains, assign}
use cozy_nm.Devices.Inventory.{DeviceStatus, Node}
use cozy_nm.Head.Dns.{
  DnsMapping, Lookup, answers, no_domain, DbError, build_dns_ip_map, resolve_domains,
  refresh_dns_records,
}
use cozy_nm.Head.Owners.{
  first_of, vpn_owner, public_owner, device_owner, endpoint_owner, build_dns_ip_map-get,
}
use cozy_nm.Head.Admitted.{handle-headers}
use cozy_nm.Head.BridgeClient.{ClientConfig, HttpRequest, HttpResponse, no_detail, headers}
use cozy_nm.Head.Forwards.{
  FormRequest, FormRoute, FormAnswer, action_route, failed_with, form_route,
}
use cozy_nm.Head.Guarded.{IsProper, IsSameOrigin, form_route-IsProper}
use cozy_nm.Config.Targets.{
  AppConfig, topology_nodes, minion_targets, deployed_targets, deployment_ips, sorted_set, insert,
  current_ip, own_head, or_text, find_host, node_identifier,
}
use cozy_nm.Head.Polling.{
  Database, write_nodes, sync_configured_nodes, adds_node_twice, poll_minion, poll_minions,
  collect_local, Columns, fits_columns, takes_snapshot, snapshot_url, poll_once, get_or_create_node,
  store_snapshot, no_result_found,
}
use cozy_nm.Head.Polled.{poll_minions-synced}
use cozy_nm.Minion.Api.{MinionConfig, apply_bridge_project, handle, dispatch, is_ascii}

abbrev host_1 : Host
host_1 = record {
  node_ip = "10.46.0.2";
  compose_dir = "/srv/socat";
  compose_dir_name = "socat";
  compose_file = "docker-compose.yml";
}

abbrev client_1 : ClientConfig
client_1 = record {
  app = record {
    mode = "head";
    node_name = "hub";
    node_ip = "10.46.0.1";
    minion_port = 8765;
    known_nodes = [];
    minions = [];
    deployment = record { head = "10.46.0.1"; minions = "10.46.0.2" ∷ [] };
    hosts = host_1 ∷ [];
  };
  bridge_api_token = "s e";
}

-- answers every request with its URL
abbrev send_1 : HttpRequest → Result String (HttpResponse String)
send_1 r = ok (record { status = 200; body = some r.url; detail = no_detail; text = "" })

abbrev form_1 : FormRequest
form_1 = record {
  host = some "hub.local:8080";
  origin = some "http://hub.local:8080";
  referer = none;
}

abbrev restart_1 : FormRoute
restart_1 = action_route "db" "restart"

abbrev answer_1 : FormAnswer × List HttpRequest
answer_1 = form_route (λ s. s) send_1 (λ s. s) client_1 "10.46.0.2" (λ s. true) form_1 restart_1

form_route-IsProper_example :
    ((status : ℕ) × (answer_1 ≡ (failed_with status, [])))
    ⊎ (IsSameOrigin (λ s. true) form_1 × All (IsProper send_1 client_1 "10.46.0.2") answer_1.1)
form_route-IsProper_example =
    form_route-IsProper send_1 client_1 "10.46.0.2" (λ s. s) (λ s. s) (λ s. true) form_1 restart_1

abbrev lib_1 : Lib Value
lib_1 = record {
  safe_load = some;
  safe_dump = λ v. v;
  sha256 = λ v. "5feceb66";
  empty_project = mapping end;
  repr = λ v. "{}";
  ip_version = λ s. none;
}

abbrev world_1 : World Value
world_1 = record {
  write_fault = none;
  has_directory = true;
  dockerignore_ok = true;
  readable = true;
  run = λ c. completed 0 "" "";
  containers = λ name. none;
}

abbrev minion_1 : MinionConfig
minion_1 = record { mode = "minion"; bridge_api_token = "s e"; host = some host_1 }

abbrev files_1 : Files Value
files_1 = record { compose = none; applied_hash = none; backups = []; issued = [] }

handle-headers_example :
    handle lib_1 world_1 world_1 minion_1 (some "Bearer s e") apply_bridge_project files_1
    ≡ dispatch lib_1 world_1 world_1 host_1 apply_bridge_project files_1
handle-headers_example =
    handle-headers lib_1 world_1 world_1 client_1 minion_1 host_1 "Bearer s e" apply_bridge_project
      files_1 (unfold headers in refl) refl (unfold is_ascii in refl) refl refl

abbrev nodes_1 : List Node
nodes_1 =
    record { name = "hub"; expected_vpn_ip = "10.46.0.1" }
    ∷ record { name = "media"; expected_vpn_ip = "10.46.0.2" }
    ∷ []

abbrev device_1 : DeviceStatus
device_1 = record {
  name = "phone";
  ip = "10.46.0.9";
  address = "10.46.0.9/32";
  public_key = "k";
  config_path = "";
  interface = none;
  endpoint = some "203.0.113.7:51820";
  latest_handshake = none;
  transfer_rx = none;
  transfer_tx = none;
  wg_connected = true;
  pingable = false;
  minion_available = false;
  minion_url = "";
  last_checked_at = 0;
}

-- the endpoint of the phone is the public address of a node
abbrev public_1 : Node → Option String
public_1 n = if n.name == "media" then some "203.0.113.7" else none

build_dns_ip_map-get_example :
    get "203.0.113.7" (build_dns_ip_map some public_1 nodes_1 (device_1 ∷ []))
    ≡ first_of (device_owner "203.0.113.7" (device_1 ∷ [])) (
        first_of
          (first_of (public_owner "203.0.113.7" public_1 nodes_1) (vpn_owner "203.0.113.7" nodes_1))
          (endpoint_owner "203.0.113.7" some (device_1 ∷ [])))
build_dns_ip_map-get_example =
    build_dns_ip_map-get "203.0.113.7" some public_1 nodes_1 (device_1 ∷ [])

-- every name has one address, a probe has none
abbrev lookup_1 : String → Lookup
lookup_1 name = if name == "example.org" then answers ("203.0.113.7" ∷ []) else no_domain "NXDOMAIN"

-- a name that is looked up as a domain and as a host name is written twice
abbrev refresh_1 : Result DbError (List DnsMapping) × List DnsMapping
refresh_1 =
    refresh_dns_records
      (resolve_domains lookup_1 (λ d. "probe") [] ("example.org" ∷ []) ("example.org" ∷ [])) []

-- a head and a minion that the deployment names by their addresses
abbrev polling_1 : AppConfig
polling_1 = record {
  mode = "head";
  node_name = "hub";
  node_ip = "10.46.0.1";
  minion_port = 8001;
  known_nodes = [];
  minions = [];
  deployment = record { head = "10.46.0.1"; minions = "10.46.0.2" ∷ [] };
  hosts = [];
}

abbrev database_1 : Database String
database_1 = record {
  nodes = write_nodes polling_1 (topology_nodes polling_1) [];
  snapshots = [];
  warnings = [];
  records = [];
}

abbrev fetch_1 : String → Result String String
fetch_1 url = err "timed out"

abbrev columns_1 : Columns String
columns_1 = record { takes_text = λ s. true; takes_json = λ s. true }

poll_minions-synced_example :
    (collected after : Database String) × (collect_local
        (λ s. [])
        columns_1
        polling_1
        "local"
        database_1
      ≡ ok collected)
    × (poll_minions (λ s. []) columns_1 fetch_1 (minion_targets polling_1 false) collected
        ≡ ok after)
unfolding contains takes_snapshot minion_targets deployed_targets current_ip own_head or_text
    fits_columns snapshot_url decimal find_host node_identifier
poll_minions-synced_example =
    poll_minions-synced polling_1
      (unfold topology_nodes in
        unfold deployment_ips in unfold sorted_set in unfold insert in (refl, tt))
      (λ s. []) columns_1 fetch_1 [] database_1.nodes database_1 "local"
      (unfold sync_configured_nodes in
        unfold topology_nodes in
        unfold deployment_ips in
        unfold sorted_set in unfold insert in unfold adds_node_twice in refl)
      (λ name h. h) refl (refl, tt)

-- the same deployment, with the minion known under a name
abbrev polling_2 : AppConfig
polling_2 = record polling_1 {
  known_nodes = record { name = "media"; expected_vpn_ip = "10.46.0.2" } ∷ [];
}

abbrev database_2 : Database String
database_2 = record database_1 { nodes = write_nodes polling_2 (topology_nodes polling_2) [] }

-- the target has the address as its name, which no node has
poll_minions-unknown :
    poll_once (λ s. []) columns_1 fetch_1 polling_2 [] [] "local" [] database_2
    ≡ err (no_result_found "10.46.0.2")
unfolding poll_once takes_snapshot fits_columns poll_minions poll_minion minion_targets
    deployed_targets current_ip own_head or_text find_host topology_nodes deployment_ips sorted_set
    insert write_nodes collect_local get_or_create_node store_snapshot node_identifier get assign
poll_minions-unknown = refl
