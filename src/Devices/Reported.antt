-- ===== src/Devices/Reported.antt =====
-- Which addresses a scan reports on.
use cozy_nm.Base.{Bool, true, false, or_else, is_some, ok, ◌≡◌, String, not, ◌&&◌, List, map}
use cozy_nm.Base.Dicts.{contains}
use cozy_nm.Devices.Inventory.{DeviceStatus, Node, node_ips}
use cozy_nm.Devices.Scan.{ClientConfig, Network, node_statuses}

abbrev pub client_ips : List ClientConfig → List String
client_ips clients = map (λ c. c.ip) clients

abbrev pub status_ips : List DeviceStatus → List String
status_ips statuses = map (λ s. s.ip) statuses

-- whether an address is taken to be in the subnets
abbrev pub is_inside : Network → String → Bool
is_inside network ip = or_else (network.in_subnets ip) false

module _ (network : Network) (pings : (ip : String) → is_some (network.ping ip) ≡ true) where
  -- the addresses that are reported for the nodes
  abbrev Reports : (ips : List String) → List Node → Type 0
  Reports ips nodes =
      (statuses : List DeviceStatus) × (node_statuses network ips nodes ≡ ok statuses)
      × ((ip : String)
          → contains ip (status_ips statuses)
            ≡ (contains ip (node_ips nodes) && not (contains ip ips) && is_inside network ip))
