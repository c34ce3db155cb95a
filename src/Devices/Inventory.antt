-- ===== src/Devices/Inventory.antt =====
-- services/devices.py: store_device_statuses and ensure_device_nodes. The two tables are lists in the
-- order of their ids. A row of `devices` has the fields of the status that wrote it last, beside the
-- columns that the database fills in; of a row of `nodes` the code here writes and reads two columns.
-- A session does not flush before a query, so queries see the rows of the last commit.
use Prim.Native.String
use cozy_nm.Base.{
  ℕ, zero, suc, String, Bool, true, false, not, ◌&&◌, Option, none, some, if◌then◌else◌, List, [],
  ◌∷◌, ◌++◌, map, length, select, is_some,
}
use cozy_nm.Base.Dicts.{Dict, get, assign, contains}
use cozy_nm.Bridges.Decimal.{decimal}

pub record DeviceStatus : Type 0 where
  pub name : String
  pub ip : String
  pub address : String
  pub public_key : String
  pub config_path : String
  pub interface : Option String
  pub endpoint : Option String
  pub latest_handshake : Option ℕ
  pub transfer_rx : Option ℕ
  pub transfer_tx : Option ℕ
  pub wg_connected : Bool
  pub pingable : Bool
  pub minion_available : Bool
  pub minion_url : String
  pub last_checked_at : ℕ

pub record Node : Type 0 where
  pub name : String
  pub expected_vpn_ip : String

abbrev pub Devices : Type 0
Devices = Dict DeviceStatus

-- f"{base_name}-{suffix}"
unfoldable pub numbered : String → ℕ → String
numbered base suffix = String.◌++◌ base (String.◌++◌ "-" (decimal suffix))

-- `while name in names`, from the first numbered name on
unfoldable pub search : ℕ → String → ℕ → List String → String
search zero base suffix names = numbered base suffix
search (suc fuel) base suffix names =
    let rest = search fuel base (suc suffix) names in
    if contains (numbered base suffix) names then rest else numbered base suffix

-- as many rounds as there are names are enough
unfoldable pub fresh_name : String → String → List String → String
fresh_name name ip names =
    let base = if contains name names then ip else name in
    if contains base names then search (length names) base 2 names else base

-- the loop over the devices: the nodes that it adds
unfoldable pub new_nodes : List DeviceStatus → (ips names : List String) → List Node
new_nodes [] ips names = []
new_nodes (d ∷ ds) ips names =
    let known = contains d.ip ips in
    let name = fresh_name d.name d.ip names in
    let rest =
      new_nodes ds (if known then ips else d.ip ∷ ips) (if known then names else name ∷ names) in
    if known then rest else record { name = name; expected_vpn_ip = d.ip } ∷ rest

abbrev pub node_ips : List Node → List String
node_ips nodes = map (λ n. n.expected_vpn_ip) nodes

abbrev pub node_names : List Node → List String
node_names nodes = map (λ n. n.name) nodes

unfoldable pub ensure_device_nodes : List DeviceStatus → List Node → List Node
ensure_device_nodes devices nodes = nodes ++ new_nodes devices (node_ips nodes) (node_names nodes)

abbrev pub status_names : List DeviceStatus → List String
status_names statuses = map (λ s. s.name) statuses

-- the rows whose names were seen
unfoldable pub keep_seen : List String → Devices → Devices
keep_seen seen devices = select (λ row. contains row.0 seen) devices

-- a name that has no row yet is added for each status of that name, and the commit refuses the second
unfoldable pub adds_twice : Devices → List DeviceStatus → Bool
adds_twice devices [] = false
adds_twice devices (s ∷ statuses) =
    let rest = adds_twice devices statuses in
    if not (is_some (get s.name devices)) && contains s.name (status_names statuses)
    then true
    else rest

unfoldable pub write_statuses : List DeviceStatus → Devices → Devices
write_statuses [] devices = devices
write_statuses (s ∷ statuses) devices = write_statuses statuses (assign s.name s devices)

-- none where the commit raises IntegrityError and nothing is written
unfoldable pub store_device_statuses :
    List DeviceStatus → Devices × List Node → Option (Devices × List Node)
store_device_statuses statuses (devices, nodes) =
    let kept = keep_seen (status_names statuses) devices in
    if adds_twice kept statuses
    then none
    else some (write_statuses statuses kept, ensure_device_nodes statuses nodes)
