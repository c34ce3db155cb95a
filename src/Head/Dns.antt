-- ===== src/Head/Dns.antt =====
-- services/dns.py: which node or device an address belongs to, and the records of the looked-up names.
-- The resolver's answers, the texts drawn for the wildcard probes and ipaddress (the text of a global
-- address) are arguments. The table of records is a list of its rows without the time of the lookup.
use Prim.Native.String
use Prim.Native.String.{[], ◌∷◌}
use cozy_nm.Base.{
  ℕ, String, ◌==◌, code, Bool, true, false, not, ◌&&◌, ◌||◌, Option, none, some, if◌then◌else◌,
  nat_eq, any, any_char, is_empty, strip_chars, List, ◌++◌, map, select, Result, ok, err,
}
use cozy_nm.Base.Dicts.{Dict, get, assign}
use cozy_nm.Config.Checks.{rstrip_dots}
use cozy_nm.Config.Targets.{sorted_set}
use cozy_nm.Devices.Inventory.{DeviceStatus, Node}
use cozy_nm.Devices.Scan.{strip}
use cozy_nm.Mounts.Exports.{set_default}

pub record DnsMapping : Type 0 where
  pub hostname : String
  pub record_type : String
  pub target : String
  pub matched_node : Option String
  pub outside_vpn : Bool
  pub warning : Option String

pub data Lookup : Type 0 where
  no_answer : Lookup
  no_domain : (reason : String) → Lookup
  failed : (reason : String) → Lookup
  answers : List String → Lookup

abbrev is_missing : Option String → Bool
is_missing none = true
is_missing (some s) = false

unfoldable pub map_dns_answer :
    (hostname record_type target : String) → (node_ip_map : Dict String) → DnsMapping
map_dns_answer hostname record_type target node_ip_map =
    let matched = get target node_ip_map in
    let outside = (record_type == "A" || record_type == "AAAA") && is_missing matched in
    record {
      hostname = hostname;
      record_type = record_type;
      target = target;
      matched_node = matched;
      outside_vpn = outside;
      warning = if outside then some "points to an IP not seen in VPN/public inventory" else none;
    }

-- endpoint.rsplit(":", 1)[0]
unfoldable pub before_last_colon : String → String
before_last_colon [] = []
before_last_colon (c ∷ s) =
    let rest = before_last_colon s in
    if any_char (nat_eq b':') s then c ∷ rest else if nat_eq (code c) b':' then [] else c ∷ s

abbrev is_bracket : ℕ → Bool
is_bracket c = nat_eq c b'[' || nat_eq c b']'

module _ (global_ip : String → Option String) where
  unfoldable pub device_endpoint_ip : Option String → Option String
  device_endpoint_ip none = none
  device_endpoint_ip (some endpoint) =
      if is_empty endpoint
      then none
      else global_ip (strip_chars is_bracket (before_last_colon endpoint))

  -- {node.expected_vpn_ip: node.name for node in nodes}
  unfoldable pub note_nodes : List Node → Dict String → Dict String
  note_nodes List.[] ip_map = ip_map
  note_nodes (List.◌∷◌ n ns) ip_map = note_nodes ns (assign n.expected_vpn_ip n.name ip_map)

  abbrev pub note_public : Node → Option String → Dict String → Dict String
  note_public n none ip_map = ip_map
  note_public n (some ip) ip_map = if is_empty ip then ip_map else assign ip n.name ip_map

  unfoldable pub note_publics : (Node → Option String) → List Node → Dict String → Dict String
  note_publics public List.[] ip_map = ip_map
  note_publics public (List.◌∷◌ n ns) ip_map =
      note_publics public ns (note_public n (public n) ip_map)

  abbrev pub note_endpoint : DeviceStatus → Option String → Dict String → Dict String
  note_endpoint d none ip_map = ip_map
  note_endpoint d (some ip) ip_map = if is_empty ip then ip_map else set_default ip d.name ip_map

  unfoldable pub note_devices : List DeviceStatus → Dict String → Dict String
  note_devices List.[] ip_map = ip_map
  note_devices (List.◌∷◌ d ds) ip_map =
      note_devices ds (note_endpoint d (device_endpoint_ip d.endpoint) (assign d.ip d.name ip_map))

  -- `public` is the address that the table of addresses, or else the last snapshot, has for a node
  unfoldable pub build_dns_ip_map :
      (public : Node → Option String) → List Node → List DeviceStatus → Dict String
  build_dns_ip_map public nodes devices =
      note_devices devices (note_publics public nodes (note_nodes nodes List.[]))

abbrev failure : (label reason : String) → DnsMapping
failure label reason = record {
  hostname = label;
  record_type = "A";
  target = "";
  matched_node = none;
  outside_vpn = false;
  warning = some (String.◌++◌ "DNS lookup failed: " reason);
}

unfoldable pub resolve_hostname :
    (label : String) → (warn_on_missing : Bool) → Dict String → Lookup → List DnsMapping
resolve_hostname label warn_on_missing node_ip_map no_answer = List.[]
resolve_hostname label warn_on_missing node_ip_map (no_domain reason) =
    if warn_on_missing then List.◌∷◌ (failure label reason) List.[] else List.[]
resolve_hostname label warn_on_missing node_ip_map (failed reason) =
    List.◌∷◌ (failure label reason) List.[]
resolve_hostname label warn_on_missing node_ip_map (answers targets) =
    map (λ target. map_dns_answer label "A" (rstrip_dots target) node_ip_map) targets

module _ (lookup : String → Lookup) (hex : String → String) (node_ip_map : Dict String) where
  -- a domain and a name below it that nobody has
  unfoldable pub resolve_domain : String → List DnsMapping
  resolve_domain domain =
      resolve_hostname domain true node_ip_map (lookup domain)
      ++ resolve_hostname (String.◌++◌ "*." domain) false node_ip_map
          (lookup (String.◌++◌ (hex domain) (String.◌++◌ "." domain)))

  unfoldable pub resolve_each : List String → List DnsMapping
  resolve_each List.[] = List.[]
  resolve_each (List.◌∷◌ raw domains) =
      let domain = rstrip_dots (strip raw) in
      let rest = resolve_each domains in
      if is_empty domain then rest else resolve_domain domain ++ rest

  unfoldable pub resolve_names : List String → List DnsMapping
  resolve_names List.[] = List.[]
  resolve_names (List.◌∷◌ hostname hostnames) =
      resolve_hostname hostname true node_ip_map (lookup hostname) ++ resolve_names hostnames

  unfoldable pub queried_hostnames : List String → List String
  queried_hostnames hostnames =
      sorted_set
        (map (λ h. rstrip_dots (strip h)) (select (λ h. not (is_empty (strip h))) hostnames))

  unfoldable pub resolve_domains : (domains hostnames : List String) → List DnsMapping
  resolve_domains domains hostnames =
      resolve_each (sorted_set domains) ++ resolve_names (queried_hostnames hostnames)

-- the columns that are unique together
abbrev pub same_record : DnsMapping → DnsMapping → Bool
same_record a b = a.hostname == b.hostname && a.record_type == b.record_type && a.target == b.target

unfoldable pub has_duplicate : List DnsMapping → Bool
has_duplicate List.[] = false
has_duplicate (List.◌∷◌ m ms) = any (same_record m) ms || has_duplicate ms

pub data DbError : Type 0 where
  integrity_error : DbError

-- the deletion of the old rows and the new ones are one transaction, which the unique columns can refuse
unfoldable pub refresh_dns_records :
    (mappings old : List DnsMapping) → Result DbError (List DnsMapping) × List DnsMapping
refresh_dns_records mappings old =
    if has_duplicate mappings then (err integrity_error, old) else (ok mappings, mappings)
