-- ===== src/Devices/Scan.antt =====
-- services/devices.py: the dump of WireGuard's peers and the scan. Numbers of the dump are natural, as
-- wg prints them. The client configurations, the topology nodes of the configuration, the answers to
-- ping and of the minions, and ipaddress's membership test are arguments.
use Prim.Native.String
use Prim.Native.String.{[], ◌∷◌}
use cozy_nm.Base.{
  Result, ok, err, bind_result, true, ℕ, ◌+◌, String, Char, code, ◌==◌, Bool, false, not, ◌&&◌,
  ◌||◌, Option, none, some, if◌then◌else◌, nat_eq, leb, List, ◌++◌, map, drop_while,
}
use cozy_nm.Base.Dicts.{Dict, get, assign, contains}
use cozy_nm.Bridges.Decimal.{decimal, read_int, is_space, rstrip_space}
use cozy_nm.Devices.Inventory.{DeviceStatus, Node}

pub record ClientConfig : Type 0 where
  pub name : String
  pub ip : String
  pub address : String
  pub public_key : String
  pub config_path : String

pub record PeerState : Type 0 where
  pub interface : String
  pub public_key : String
  pub endpoint : Option String
  pub latest_handshake : Option ℕ
  pub transfer_rx : Option ℕ
  pub transfer_tx : Option ℕ

-- what stands before the first separator is put in front
abbrev pub in_front : Char → List String → List String
in_front c List.[] = List.◌∷◌ (c ∷ []) List.[]
in_front c (List.◌∷◌ s parts) = List.◌∷◌ (c ∷ s) parts

-- the parts between the separators
unfoldable pub split_on : (ℕ → Bool) → String → List String
split_on p [] = List.◌∷◌ [] List.[]
split_on p (c ∷ s) =
    let rest = split_on p s in if p (code c) then List.◌∷◌ [] rest else in_front c rest

-- the line ends of `splitlines`; an empty line is skipped below, so a pair of them counts twice
abbrev pub is_line_end : ℕ → Bool
is_line_end c = leb 10 c && leb c 13 || leb 28 c && leb c 30

unfoldable pub strip : String → String
strip s = rstrip_space (drop_while is_space s)

unfoldable pub to_int : String → Option ℕ
to_int value = if value == "" || value == "(none)" || value == "off" then none else read_int value

-- the nine fields of a line
unfoldable pub parse_peer : List String → Option PeerState
parse_peer
      (List.◌∷◌ interface (
        List.◌∷◌ key (
          List.◌∷◌ shared (
            List.◌∷◌ endpoint (
              List.◌∷◌ allowed
                (List.◌∷◌ handshake (List.◌∷◌ rx (List.◌∷◌ tx (List.◌∷◌ keepalive List.[]))))))))) =
    some (record {
      interface = interface;
      public_key = key;
      endpoint = if endpoint == "(none)" then none else some endpoint;
      latest_handshake = to_int handshake;
      transfer_rx = to_int rx;
      transfer_tx = to_int tx;
    })
parse_peer _ = none

unfoldable pub add_peer : Option PeerState → Dict PeerState → Dict PeerState
add_peer none peers = peers
add_peer (some p) peers = assign p.public_key p peers

unfoldable pub parse_lines : List String → Dict PeerState → Dict PeerState
parse_lines List.[] peers = peers
parse_lines (List.◌∷◌ line lines) peers =
    parse_lines lines (add_peer (parse_peer (split_on (nat_eq 9) (strip line))) peers)

unfoldable pub parse_wg_peer_states : String → Dict PeerState
parse_wg_peer_states output = parse_lines (split_on is_line_end output) List.[]

-- none where wg is not installed, otherwise its exit code and what it printed
unfoldable pub load_wg_peer_states : Option (ℕ × String) → Dict PeerState
load_wg_peer_states none = List.[]
load_wg_peer_states (some (returncode, stdout)) =
    if nat_eq returncode 0 then parse_wg_peer_states stdout else List.[]

abbrev handshake_of : Option PeerState → Option ℕ
handshake_of none = none
handshake_of (some p) = p.latest_handshake

abbrev recent : Option ℕ → (stale_after now : ℕ) → Bool
recent none stale_after now = false
recent (some h) stale_after now = not (nat_eq h 0) && leb now (h + stale_after)

-- `now - handshake <= stale_after`, with 0 for no handshake
unfoldable pub is_connected : Option PeerState → (stale_after now : ℕ) → Bool
is_connected peer stale_after now = recent (handshake_of peer) stale_after now

-- what the scan asks of its surroundings: `ping` is none where the command takes longer than three
-- seconds, `in_subnets` is none where ip_address or ip_network raises ValueError
pub record Network : Type 0 where
  pub ping : String → Option Bool
  pub minion_available : String → Bool
  pub in_subnets : String → Option Bool
  pub minion_port : ℕ
  pub stale_after : ℕ
  pub head : String
  pub now : ℕ

abbrev field_of : {A : Type 0} → (PeerState → Option A) → Option PeerState → Option A
field_of f none = none
field_of f (some p) = f p

-- what ends a scan: subprocess.TimeoutExpired, ValueError
pub data ScanFault : Type 0 where
  ping_timed_out : (ip : String) → ScanFault
  bad_address : (ip : String) → ScanFault

module _ (network : Network) where
  unfoldable pub ping_ip : String → Result ScanFault Bool
  ping_ip ip = elim (network.ping ip) [ none ↦ err (ping_timed_out ip) | some p ↦ ok p ]

  abbrev minion_url : String → String
  minion_url ip =
      String.◌++◌ "http://" (String.◌++◌ ip (String.◌++◌ ":" (decimal network.minion_port)))

  unfoldable pub client_status : Dict PeerState → ClientConfig → (pingable : Bool) → DeviceStatus
  client_status peers client pingable =
      let peer = get client.public_key peers in
      record {
        name = client.name;
        ip = client.ip;
        address = client.address;
        public_key = client.public_key;
        config_path = client.config_path;
        interface = field_of (λ p. some p.interface) peer;
        endpoint = field_of (λ p. p.endpoint) peer;
        latest_handshake = field_of (λ p. p.latest_handshake) peer;
        transfer_rx = field_of (λ p. p.transfer_rx) peer;
        transfer_tx = field_of (λ p. p.transfer_tx) peer;
        wg_connected = is_connected peer network.stale_after network.now;
        pingable = pingable;
        minion_available = network.minion_available (minion_url client.ip);
        minion_url = minion_url client.ip;
        last_checked_at = network.now;
      }

  unfoldable pub node_status : Node → (pingable : Bool) → DeviceStatus
  node_status node pingable =
      let ip = node.expected_vpn_ip in
      record {
        name = node.name;
        ip = ip;
        address = String.◌++◌ ip "/32";
        public_key = "";
        config_path = "deployment";
        interface = if ip == network.head then some "local" else none;
        endpoint = none;
        latest_handshake = none;
        transfer_rx = none;
        transfer_tx = none;
        wg_connected = ip == network.head;
        pingable = pingable;
        minion_available = network.minion_available (minion_url ip);
        minion_url = minion_url ip;
        last_checked_at = network.now;
      }

  unfoldable pub client_statuses :
      Dict PeerState → List ClientConfig → Result ScanFault (List DeviceStatus)
  client_statuses peers List.[] = ok List.[]
  client_statuses peers (List.◌∷◌ client clients) = bind_result (ping_ip client.ip) λ pingable.
      bind_result (client_statuses peers clients)
        λ more. ok (List.◌∷◌ (client_status peers client pingable) more)

  -- a node whose address is no client's, by whether it is in the subnets
  abbrev pub with_node :
      Node
      → Option Bool
      → Result ScanFault (List DeviceStatus)
      → Result ScanFault (List DeviceStatus)
  with_node node none rest = err (bad_address node.expected_vpn_ip)
  with_node node (some false) rest = rest
  with_node node (some true) rest =
      bind_result (ping_ip node.expected_vpn_ip)
        λ pingable. bind_result rest λ more. ok (List.◌∷◌ (node_status node pingable) more)

  unfoldable pub node_statuses : List String → List Node → Result ScanFault (List DeviceStatus)
  node_statuses client_ips List.[] = ok List.[]
  node_statuses client_ips (List.◌∷◌ node nodes) =
      let rest = node_statuses client_ips nodes in
      if contains node.expected_vpn_ip client_ips
      then rest
      else with_node node (network.in_subnets node.expected_vpn_ip) rest

  unfoldable pub scan_wireguard_clients :
      List ClientConfig → Dict PeerState → List Node → Result ScanFault (List DeviceStatus)
  scan_wireguard_clients clients peers nodes =
      bind_result (client_statuses peers clients) λ statuses.
        bind_result (node_statuses (map (λ c. c.ip) clients) nodes) λ more. ok (statuses ++ more)
