-- ===== src/Devices/Tests.antt =====
-- The theorems on the device inventory at concrete devices.
use cozy_nm.Base.{
  Result, ok, err, ℕ, Bool, Option, String, ◌≡◌, refl, true, false, none, List, [], ◌∷◌, arith,
  ◌==◌, has_prefix, map, some,
}
use cozy_nm.Base.Dicts.{contains, get, assign}
use cozy_nm.Bridges.Decimal.{decimal, read_int, rstrip_space}
use cozy_nm.Devices.Scan.{
  ClientConfig, Network, scan_wireguard_clients, ScanFault, client_statuses, ping_ip, client_status,
  node_status, node_statuses, load_wg_peer_states, parse_wg_peer_states, parse_lines, add_peer,
  parse_peer, to_int, strip, split_on, is_connected,
}
use cozy_nm.Devices.Inventory.{
  DeviceStatus, Node, numbered, search, fresh_name, new_nodes, node_names, ensure_device_nodes,
  store_device_statuses, adds_twice, keep_seen,
}
use cozy_nm.Devices.Naming.{contains-search}
use cozy_nm.Devices.Stored.{is_new, ensure_device_nodes-distinct}

abbrev phone : DeviceStatus
phone = record {
  name = "phone";
  ip = "10.46.0.9";
  address = "10.46.0.9/32";
  public_key = "k";
  config_path = "/etc/wireguard/clients/phone.conf";
  interface = none;
  endpoint = none;
  latest_handshake = none;
  transfer_rx = none;
  transfer_tx = none;
  wg_connected = false;
  pingable = false;
  minion_available = false;
  minion_url = "http://10.46.0.9:8765";
  last_checked_at = 0;
}

abbrev nodes_1 : List Node
nodes_1 =
    record { name = "phone"; expected_vpn_ip = "10.46.0.2" }
    ∷ record { name = "10.46.0.9"; expected_vpn_ip = "10.46.0.3" }
    ∷ []

nodes_1-distinct : is_new [] (node_names nodes_1) ≡ true
unfolding is_new contains
nodes_1-distinct = refl

named_twice :
    node_names (ensure_device_nodes (phone ∷ []) nodes_1)
    ≡ "phone" ∷ "10.46.0.9" ∷ "10.46.0.9-2" ∷ []
unfolding ensure_device_nodes new_nodes fresh_name search numbered contains decimal
named_twice = refl

ensure_device_nodes-distinct_example :
    is_new [] (node_names (ensure_device_nodes (phone ∷ []) nodes_1)) ≡ true
ensure_device_nodes-distinct_example =
    ensure_device_nodes-distinct (phone ∷ []) nodes_1 nodes_1-distinct

contains-search_example :
    contains (search 2 "phone" 2 ("phone" ∷ "phone-2" ∷ [])) ("phone" ∷ "phone-2" ∷ []) ≡ false
contains-search_example = contains-search 2 "phone" 2 ("phone" ∷ "phone-2" ∷ []) (omega arith)

-- two new devices of one name cannot be stored
name_taken :
    store_device_statuses (phone ∷ record phone { ip = "10.46.0.8" } ∷ []) ([], nodes_1) ≡ none
unfolding store_device_statuses adds_twice keep_seen contains get
name_taken = refl

abbrev network_1 : Network
network_1 = record {
  ping = λ ip. some true;
  minion_available = λ url. url == "http://10.46.0.9:8765";
  in_subnets = λ ip. some (has_prefix "10.46." ip);
  minion_port = 8765;
  stale_after = 180;
  head = "10.46.0.1";
  now = 1000;
}

abbrev dump : String
dump =
    "wg0\tkey\t(none)\t1.2.3.4:51820\t10.46.0.9/32\t900\t10\t20\toff\nwg0\tprivate\tpublic\t51820\toff\n"

abbrev clients_1 : List ClientConfig
clients_1 =
    record {
      name = "phone";
      ip = "10.46.0.9";
      address = "10.46.0.9/32";
      public_key = "key";
      config_path = "/etc/wireguard/clients/phone.conf";
    }
    ∷ []

abbrev shown : Result ScanFault (List DeviceStatus) → List (String × Bool × Option ℕ)
shown (err fault) = []
shown (ok statuses) = map (λ s. (s.name, s.wg_connected, s.transfer_tx)) statuses

-- the line of the interface has five fields and is skipped; the handshake is 100 seconds old
phone_connected :
    shown
      (scan_wireguard_clients network_1 clients_1 (load_wg_peer_states (some (0, dump))) nodes_1)
    ≡ ("phone", true, some 20) ∷ ("phone", false, none) ∷ ("10.46.0.9", false, none) ∷ []
unfolding scan_wireguard_clients client_statuses ping_ip client_status node_status node_statuses
    load_wg_peer_states parse_wg_peer_states parse_lines add_peer parse_peer to_int strip split_on
    is_connected contains get assign decimal read_int rstrip_space
phone_connected = refl
