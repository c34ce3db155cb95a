-- ===== src/Nginx/Transmission.antt =====
-- collectors/public_interfaces.py: Transmission's settings, and the interfaces of a node. The settings
-- are what `json.loads` makes of them: a value that is no text and not null is known by its truth
-- value, by what `str` prints and by what `int` makes of it.
use cozy_nm.Base.{
  ℕ, String, ◌==◌, Bool, true, false, not, ◌&&◌, ◌||◌, Option, none, some, if◌then◌else◌, leb,
  has_prefix, is_empty, any_char, or_else, List, [], ◌∷◌, ◌++◌, any, sort_by, Result, ok, err,
  bind_result,
}
use cozy_nm.Base.Dicts.{Dict, get, contains}
use cozy_nm.Bridges.Decimal.{read_int}
use cozy_nm.Bridges.Names.{text_before}
use cozy_nm.Nginx.Reader.{NginxWarning, Collected, read_config}
use cozy_nm.Hosts.Files.{FileText, HostFiles}
use cozy_nm.Nginx.Sites.{listeners_in, is_wildcard, is_colon}
use cozy_nm.Nginx.Sockets.{Socket, port_is_open, host_tcp_listeners, host_processes}
use cozy_nm.Nginx.Interfaces.{
  PublicInterface, interface_url, transmission_web_path, status_of, interfaces_by_url,
  interfaces_of,
}

-- the outcome of `int`: ValueError and TypeError are one, a number below 1 is no port
pub data Whole : Type 0 where
  whole : ℕ → Whole
  no_port : Whole
  overflow : Whole

pub data Json : Type 0 where
  null : Json
  text : String → Json
  other : (truth : Bool) → (printed : String) → (number : Whole) → Json

pub data Settings : Type 0 where
  missing : Settings
  unreadable : Settings
  settings : Dict Json → Settings

pub data InterfaceWarning : Type 0 where
  nginx_warning : NginxWarning → InterfaceWarning
  settings_unreadable : InterfaceWarning
  port_invalid : InterfaceWarning
  node_ip_invalid : InterfaceWarning
  ipv6_unsupported : InterfaceWarning

-- what leaves the collector as an exception, and the lack of fuel of the nginx reader
pub data InterfaceError : Type 0 where
  port_overflow : InterfaceError
  out_of_fuel : InterfaceError
  decode_error : InterfaceError

abbrev pub Report : Type 0
Report = List PublicInterface × List InterfaceWarning

unfoldable pub truth_of : Json → Bool
truth_of null = false
truth_of (text s) = not (is_empty s)
truth_of (other truth printed number) = truth

unfoldable pub printed_of : Json → String
printed_of null = "None"
printed_of (text s) = s
printed_of (other truth printed number) = printed

abbrev read_whole : Option ℕ → Whole
read_whole none = no_port
read_whole (some n) = whole n

unfoldable pub number_of : Json → Whole
number_of null = no_port
number_of (text s) = read_whole (read_int s)
number_of (other truth printed number) = number

unfoldable pub transmission_port : Whole → Result InterfaceError (Option ℕ)
transmission_port (whole n) = ok (if leb 1 n && leb n 65535 then some n else none)
transmission_port no_port = ok none
transmission_port overflow = err port_overflow

unfoldable pub rpc_port : Dict Json → Whole
rpc_port values = number_of (or_else (get "rpc-port" values) (other true "9091" (whole 9091)))

module _ (node_ip : String) (processes : List String) (tcp_listeners : List Socket) where
  unfoldable pub transmission_interface : Dict Json → ℕ → PublicInterface
  transmission_interface values port =
      let path =
        transmission_web_path
          (printed_of (or_else (get "rpc-url" values) (text "/transmission/"))) in
      let ssl = truth_of (or_else (get "rpc-ssl-enabled" values) (other false "False" (whole 0))) in
      let running = any (has_prefix "transmission-da") processes in
      record {
        service = "transmission";
        url = interface_url node_ip port ssl path;
        status = status_of (running && port_is_open tcp_listeners node_ip port);
      }

  abbrev pub transmission_at : Dict Json → Option ℕ → Report
  transmission_at values none = ([], port_invalid ∷ [])
  transmission_at values (some port) = (transmission_interface values port ∷ [], [])

  abbrev pub binds : Dict Json → Bool
  binds values =
      let address = printed_of (or_else (get "rpc-bind-address" values) (text "0.0.0.0")) in
      is_wildcard address || address == node_ip

  unfoldable pub collect_transmission : Settings → Result InterfaceError Report
  collect_transmission missing = ok ([], [])
  collect_transmission unreadable = ok ([], settings_unreadable ∷ [])
  collect_transmission (settings values) =
      if not (truth_of (or_else (get "rpc-enabled" values) (other true "True" (whole 1))))
      then ok ([], [])
      else if not (binds values)
      then ok ([], [])
      else bind_result (transmission_port (rpc_port values))
          λ port. ok (transmission_at values port)

unfoldable pub nginx_warnings : List NginxWarning → List InterfaceWarning
nginx_warnings [] = []
nginx_warnings (w ∷ ws) = nginx_warning w ∷ nginx_warnings ws

-- the host as the collector sees it
pub record HostView : Type 0 where
  pub files : HostFiles
  pub config_exists : Bool
  pub transmission : Settings
  pub tcp : FileText
  pub tcp6 : FileText
  pub comms : List FileText

-- ipaddress: whether it takes a text, whether as a global address, how it prints one, and the text of
-- the bytes of an IPv6 address
pub record Addresses : Type 0 where
  pub is_ip : String → Bool
  pub is_global : String → Bool
  pub ip_text : String → Option String
  pub ipv6_text : List ℕ → String

abbrev pub interface_before : PublicInterface → PublicInterface → Bool
interface_before a b =
    text_before a.service b.service || a.service == b.service && text_before a.url b.url

abbrev pub or_decode_error : {A : Type 0} → Option A → Result InterfaceError A
or_decode_error none = err decode_error
or_decode_error (some a) = ok a

module _ (addresses : Addresses) (host : HostView) where
  unfoldable pub nginx_report :
      (node_ip : String) → List String → List Socket → Collected → Result InterfaceError Report
  nginx_report node_ip processes tcp_listeners none = err out_of_fuel
  nginx_report node_ip processes tcp_listeners (some (directives, warnings)) =
      let (configured, public_sites) =
        listeners_in addresses.is_ip addresses.is_global node_ip directives in
      ok (
        interfaces_of (
            interfaces_by_url node_ip (contains "nginx" processes) tcp_listeners configured
              public_sites),
        nginx_warnings warnings,
      )

  unfoldable pub collect_nginx :
      (fuel : ℕ) → (node_ip : String) → List String → List Socket → Result InterfaceError Report
  collect_nginx fuel node_ip processes tcp_listeners =
      if host.config_exists
      then nginx_report node_ip processes tcp_listeners (read_config host.files fuel)
      else ok ([], [])

  unfoldable pub collect_with :
      (fuel : ℕ) → (node_ip : String) → List String → List Socket → Result InterfaceError Report
  collect_with fuel node_ip processes tcp_listeners =
      bind_result (collect_nginx fuel node_ip processes tcp_listeners) λ (nginx, warnings).
        bind_result (collect_transmission node_ip processes tcp_listeners host.transmission)
          λ (transmission, more).
            ok (sort_by interface_before (nginx ++ transmission), warnings ++ more)

  unfoldable pub collect_at : (fuel : ℕ) → (node_ip : String) → Result InterfaceError Report
  collect_at fuel node_ip = bind_result (or_decode_error (host_processes host.comms)) λ processes.
      bind_result (or_decode_error (host_tcp_listeners addresses.ipv6_text host.tcp host.tcp6))
        (collect_with fuel node_ip processes)

  abbrev pub collect_parsed : (fuel : ℕ) → Option String → Result InterfaceError Report
  collect_parsed fuel none = ok ([], node_ip_invalid ∷ [])
  collect_parsed fuel (some node_ip) =
      if any_char is_colon node_ip then ok ([], ipv6_unsupported ∷ []) else collect_at fuel node_ip

  unfoldable pub collect_public_interfaces :
      (fuel : ℕ) → (node_ip : Option String) → Result InterfaceError Report
  collect_public_interfaces fuel none = ok ([], [])
  collect_public_interfaces fuel (some node_ip) =
      if is_empty node_ip then ok ([], []) else collect_parsed fuel (addresses.ip_text node_ip)
