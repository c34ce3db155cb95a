-- ===== src/Nginx/Interfaces.antt =====
-- collectors/public_interfaces.py: what nginx and Transmission offer, as URLs with a status.
use Prim.Native.String
use Prim.Native.String.{[], ◌∷◌}
use cozy_nm.Base.{
  ℕ, String, Bool, true, false, ◌&&◌, ◌||◌, Option, none, some, if◌then◌else◌, nat_eq, strip_chars,
  is_empty, List,
}
use cozy_nm.Base.Dicts.{Dict, get, assign}
use cozy_nm.Bridges.Decimal.{decimal}
use cozy_nm.Nginx.Sites.{Listener, Site}
use cozy_nm.Nginx.Sockets.{Socket, port_is_open}

pub data Status : Type 0 where
  up : Status
  down : Status

pub record PublicInterface : Type 0 where
  pub service : String
  pub url : String
  pub status : Status

abbrev is_slash : ℕ → Bool
is_slash c = nat_eq c b'/'

unfoldable pub normalized_path : String → String
normalized_path path =
    let inner = strip_chars is_slash path in
    if is_empty inner then "/" else String.◌++◌ "/" (String.◌++◌ inner "/")

unfoldable pub authority_text : String → ℕ → (ssl : Bool) → String
authority_text host port ssl =
    if nat_eq port (if ssl then 443 else 80)
    then host
    else String.◌++◌ host (String.◌++◌ ":" (decimal port))

unfoldable pub interface_url :
    (host : String) → (port : ℕ) → (ssl : Bool) → (path : String) → String
interface_url host port ssl path =
    String.◌++◌ (if ssl then "https" else "http")
      (String.◌++◌ "://" (String.◌++◌ (authority_text host port ssl) (normalized_path path)))

unfoldable pub transmission_web_path : String → String
transmission_web_path rpc_path =
    String.◌++◌ "/" (String.◌++◌ (strip_chars is_slash rpc_path) "/web/")

abbrev pub is_up : Status → Bool
is_up up = true
is_up down = false

abbrev pub was_up : Option PublicInterface → Bool
was_up none = false
was_up (some i) = is_up i.status

abbrev pub status_of : Bool → Status
status_of serving = if serving then up else down

-- a URL that is up stays so
unfoldable pub note : String → Bool → Dict PublicInterface → Dict PublicInterface
note url serving by_url =
    let existing = get url by_url in
    assign url
      (record { service = "nginx"; url = url; status = status_of (serving || was_up existing) })
      by_url

module _ (node_ip : String) (running : Bool) (tcp_listeners : List Socket) where
  abbrev pub vpn_url : Listener → String
  vpn_url l = interface_url node_ip l.port l.ssl "/"

  abbrev pub vpn_open : Listener → Bool
  vpn_open l = running && port_is_open tcp_listeners node_ip l.port

  abbrev pub site_url : Site → String
  site_url (l, hostname) = interface_url hostname l.port l.ssl "/"

  abbrev pub site_open : Site → Bool
  site_open (l, hostname) = running && port_is_open tcp_listeners l.address l.port

  unfoldable pub note_vpn : List Listener → Dict PublicInterface → Dict PublicInterface
  note_vpn List.[] by_url = by_url
  note_vpn (List.◌∷◌ l ls) by_url = note_vpn ls (note (vpn_url l) (vpn_open l) by_url)

  unfoldable pub note_sites : List Site → Dict PublicInterface → Dict PublicInterface
  note_sites List.[] by_url = by_url
  note_sites (List.◌∷◌ s ss) by_url = note_sites ss (note (site_url s) (site_open s) by_url)

  -- both loops of `_collect_nginx`
  unfoldable pub interfaces_by_url : List Listener → List Site → Dict PublicInterface
  interfaces_by_url configured public_sites = note_sites public_sites (note_vpn configured List.[])

unfoldable pub interfaces_of : Dict PublicInterface → List PublicInterface
interfaces_of List.[] = List.[]
interfaces_of (List.◌∷◌ (url, i) by_url) = List.◌∷◌ i (interfaces_of by_url)
