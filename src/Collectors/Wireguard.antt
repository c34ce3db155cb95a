-- ===== src/Collectors/Wireguard.antt =====
-- collectors/wireguard.py: parse_wg_dump and collect_wireguard. The numbers are the natural ones that
-- wg prints; `to_int` and `strip` are those of the scan, and so are the ends of the lines.
use cozy_nm.Base.{
  ℕ, String, ◌==◌, Bool, true, false, ◌||◌, Option, none, some, if◌then◌else◌, nat_eq, is_empty,
  List, [], ◌∷◌, ◌++◌, map, or_else,
}
use cozy_nm.Base.Dicts.{Dict, get, assign, contains}
use cozy_nm.Devices.Scan.{split_on, is_line_end, strip, to_int}

pub record WireGuardPeer : Type 0 where
  pub public_key : String
  pub endpoint : Option String
  pub allowed_ips : List String
  pub latest_handshake : Option ℕ
  pub transfer_rx : Option ℕ
  pub transfer_tx : Option ℕ

pub record WireGuardInterface : Type 0 where
  pub name : String
  pub public_key : Option String
  pub listen_port : Option ℕ
  pub peers : List WireGuardPeer

-- a line: of an interface, of a peer with the name of its interface, or another one
pub data Line : Type 0 where
  interface_line : WireGuardInterface → Line
  peer_line : (interface : String) → WireGuardPeer → Line
  other_line : Line

abbrev unless_none : String → Option String
unless_none s = if s == "(none)" then none else some s

unfoldable pub read_line : List String → Line
read_line (name ∷ private ∷ key ∷ port ∷ mark ∷ []) =
    interface_line
      (record { name = name; public_key = unless_none key; listen_port = to_int port; peers = [] })
read_line (name ∷ key ∷ shared ∷ endpoint ∷ allowed ∷ handshake ∷ rx ∷ tx ∷ keepalive ∷ []) =
    peer_line name (record {
      public_key = key;
      endpoint = unless_none endpoint;
      allowed_ips = if allowed == "(none)" then [] else split_on (nat_eq b',') allowed;
      latest_handshake = to_int handshake;
      transfer_rx = to_int rx;
      transfer_tx = to_int tx;
    })
read_line _ = other_line

abbrev pub Interfaces : Type 0
Interfaces = Dict WireGuardInterface

abbrev no_filters : List String → Bool
no_filters [] = true
no_filters (f ∷ fs) = false

-- `filters and name not in filters`, negated
unfoldable pub passes : List String → String → Bool
passes filters name = no_filters filters || contains name filters

abbrev pub bare_interface : String → WireGuardInterface
bare_interface name = record { name = name; public_key = none; listen_port = none; peers = [] }

abbrev pub add_peer : WireGuardPeer → WireGuardInterface → WireGuardInterface
add_peer peer interface = record interface { peers = interface.peers ++ peer ∷ [] }

unfoldable pub add_line : List String → Line → Interfaces → Interfaces
add_line filters (interface_line i) interfaces =
    if passes filters i.name then assign i.name i interfaces else interfaces
add_line filters (peer_line name peer) interfaces =
    if passes filters name
    then assign name (add_peer peer (or_else (get name interfaces) (bare_interface name)))
        interfaces
    else interfaces
add_line filters other_line interfaces = interfaces

unfoldable pub read_lines : List String → List String → Interfaces → Interfaces
read_lines filters [] interfaces = interfaces
read_lines filters (line ∷ lines) interfaces =
    read_lines filters lines
      (add_line filters (read_line (split_on (nat_eq 9) (strip line))) interfaces)

unfoldable pub parse_wg_dump : String → List String → List WireGuardInterface
parse_wg_dump output filters =
    map (λ entry. entry.1) (read_lines filters (split_on is_line_end output) [])

-- how the command ended
pub data WgOutcome : Type 0 where
  not_found : WgOutcome
  failed : (message : String) → WgOutcome
  ended : (returncode : ℕ) → (stdout : String) → (stderr : String) → WgOutcome

pub data WgWarning : Type 0 where
  command_not_found : WgWarning
  command_failed : String → WgWarning
  printed : String → WgWarning
  exited : ℕ → WgWarning

unfoldable pub collect_wireguard :
    WgOutcome → List String → List WireGuardInterface × List WgWarning
collect_wireguard not_found filters = ([], command_not_found ∷ [])
collect_wireguard (failed message) filters = ([], command_failed message ∷ [])
collect_wireguard (ended code stdout stderr) filters =
    if nat_eq code 0
    then (parse_wg_dump stdout filters, [])
    else ([], (if is_empty (strip stderr) then exited code else printed (strip stderr)) ∷ [])
