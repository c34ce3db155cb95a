-- ===== src/Nginx/Sites.antt =====
-- collectors/public_interfaces.py: the servers of the nginx configuration, where they listen and under
-- which names. ipaddress is an argument: `is_ip` says that it takes a text, `is_global` that it takes
-- it as a global address. Texts are ASCII where their digits and letters are asked for.
use Prim.Native.String.{[], ◌∷◌, count}
use cozy_nm.Base.{
  ℕ, zero, suc, ◌-◌, String, ◌==◌, Char, code, Bool, true, false, not, ◌&&◌, ◌||◌, Option, none,
  some, if◌then◌else◌, nat_eq, leb, ltb, has_prefix, is_empty, all_chars, any_char, cut, count_char,
  text_drop, List, ◌++◌, map, set_by, add_some,
}
use cozy_nm.Base.Dicts.{contains}
use cozy_nm.Bridges.Decimal.{read_int, is_digit}
use cozy_nm.Bridges.Names.{is_alnum, ends_alnum, text_before}
use cozy_nm.Config.Checks.{rstrip_dots}
use cozy_nm.Devices.Scan.{split_on}
use cozy_nm.Nginx.Directives.{Directive, simple, block, Directives, no_directives, directive}

pub record Listener : Type 0 where
  pub address : String
  pub port : ℕ
  pub ssl : Bool

-- the children of the blocks of a name, in the order of the text
unfoldable mutual
  pub walk_directive : String → Directive → List Directives
  walk_directive name (simple n arguments) = List.[]
  walk_directive name (block n arguments children) =
      if n == name then List.◌∷◌ children (walk_blocks name children) else walk_blocks name children

  pub walk_blocks : String → Directives → List Directives
  walk_blocks name no_directives = List.[]
  walk_blocks name (directive d ds) = walk_directive name d ++ walk_blocks name ds

abbrev pub is_colon : ℕ → Bool
is_colon c = nat_eq c b':'

abbrev pub all_digits : String → Bool
all_digits value = not (is_empty value) && all_chars is_digit value

abbrev pub bracketed : String → Option (String × String)
bracketed value = if has_prefix "[" value then cut "]:" (text_drop 1 value) else none

-- the address and the text of the port
unfoldable pub plain_target : String → Option (String × String)
plain_target value =
    if nat_eq (count_char b':' value) 1
    then cut ":" value
    else if any_char is_colon value
    then none
    else if all_digits value
    then some ("0.0.0.0", value)
    else some (value, "80")

unfoldable pub listen_target : String → Option (String × String)
listen_target value = elim (bracketed value) [
  | some target ↦ some target
  | none ↦ plain_target value
]

abbrev pub with_port : (address : String) → (ssl : Bool) → Option ℕ → Option Listener
with_port address ssl none = none
with_port address ssl (some port) =
    if leb 1 port && leb port 65535
    then some (record { address = address; port = port; ssl = ssl || nat_eq port 443 })
    else none

abbrev pub listener_at : (ssl : Bool) → Option (String × String) → Option Listener
listener_at ssl none = none
listener_at ssl (some (address, port_text)) = with_port address ssl (read_int port_text)

unfoldable pub parse_listen : List String → Option Listener
parse_listen List.[] = none
parse_listen (List.◌∷◌ value options) =
    if has_prefix "unix:" value
    then none
    else listener_at (contains "ssl" options) (listen_target value)

abbrev pub nth : String → ℕ → Char
nth [] n = "?"
nth (c ∷ s) zero = c
nth (c ∷ s) (suc n) = nth s n

abbrev pub letters : String
letters = "abcdefghijklmnopqrstuvwxyz"

-- lower() of a character, as far as the result is ASCII: 8490 is the sign for Kelvin. All others that
-- are not ASCII stay so, and a name with one is refused.
unfoldable pub lower_char : Char → Char
lower_char c =
    if leb b'A' (code c) && leb (code c) b'Z'
    then nth letters (code c - b'A')
    else if nat_eq (code c) 8490
    then "k"
    else c

unfoldable pub lower : String → String
lower [] = []
lower (c ∷ s) = lower_char c ∷ lower s

abbrev pub is_label_char : ℕ → Bool
is_label_char c = is_alnum c || nat_eq c b'-'

unfoldable pub is_label : String → Bool
is_label [] = false
is_label (c ∷ s) =
    leb (count (c ∷ s)) 63
    && is_alnum (code c)
    && ends_alnum (c ∷ s)
    && all_chars is_label_char (c ∷ s)

unfoldable pub all_labels : List String → Bool
all_labels List.[] = true
all_labels (List.◌∷◌ l ls) = is_label l && all_labels ls

abbrev pub is_ascii : ℕ → Bool
is_ascii c = ltb c 128

module _ (is_ip : String → Bool) where
  unfoldable pub is_hostname : String → Bool
  is_hostname hostname =
      leb (count hostname) 253
      && any_char (nat_eq b'.') hostname
      && all_chars is_ascii hostname
      && all_labels (split_on (nat_eq b'.') hostname)
      && not (is_ip hostname)

  unfoldable pub nginx_hostname : String → Option String
  nginx_hostname value =
      let hostname = lower (rstrip_dots value) in
      if is_hostname hostname then some hostname else none

  -- the names of one directive
  unfoldable pub hostnames_of : List String → List String
  hostnames_of List.[] = List.[]
  hostnames_of (List.◌∷◌ value values) = add_some (nginx_hostname value) (hostnames_of values)

abbrev name_of : Directive → String
name_of (simple name arguments) = name
name_of (block name arguments children) = name

abbrev arguments_of : Directive → List String
arguments_of (simple name arguments) = arguments
arguments_of (block name arguments children) = arguments

-- the arguments of the directives of a name
unfoldable pub arguments_named : String → Directives → List (List String)
arguments_named name no_directives = List.[]
arguments_named name (directive d ds) =
    let rest = arguments_named name ds in
    if name_of d == name then List.◌∷◌ (arguments_of d) rest else rest

unfoldable pub listeners_of : List (List String) → List Listener
listeners_of List.[] = List.[]
listeners_of (List.◌∷◌ arguments more) = add_some (parse_listen arguments) (listeners_of more)

-- where a server listens, on port 80 of every address if it does not say
unfoldable pub parsed_listeners : List (List String) → List Listener
unfolding listeners_of
parsed_listeners List.[] = List.◌∷◌ (record { address = "0.0.0.0"; port = 80; ssl = false }) List.[]
parsed_listeners (List.◌∷◌ arguments more) = listeners_of (List.◌∷◌ arguments more)

unfoldable pub is_wildcard : String → Bool
is_wildcard address = address == "0.0.0.0" || address == "::" || address == "*"

abbrev both_orders : Bool → Bool → Bool → Bool
both_orders less same rest = less || same && rest

-- the order of the keys (port, ssl, address)
abbrev pub listener_before : Listener → Listener → Bool
listener_before a b = both_orders (ltb a.port b.port) (nat_eq a.port b.port) (
    both_orders (not a.ssl && b.ssl) (a.ssl && b.ssl || not a.ssl && not b.ssl)
      (text_before a.address b.address))

abbrev pub Site : Type 0
Site = Listener × String

-- the order of the keys (port, address, hostname), and without ssl first
abbrev pub site_before : Site → Site → Bool
site_before (a, h) (b, k) = both_orders (ltb a.port b.port) (nat_eq a.port b.port) (
    both_orders (text_before a.address b.address) (a.address == b.address)
      (both_orders (text_before h k) (h == k) (not a.ssl && b.ssl)))

module _ (is_ip is_global : String → Bool) (node_ip : String) where
  unfoldable pub is_vpn_bind : Listener → Bool
  is_vpn_bind l = is_wildcard l.address || l.address == node_ip

  unfoldable pub is_public_bind : Listener → Bool
  is_public_bind l = is_wildcard l.address || is_global l.address

  unfoldable pub vpn_of : List Listener → List Listener
  vpn_of List.[] = List.[]
  vpn_of (List.◌∷◌ l ls) = let rest = vpn_of ls in if is_vpn_bind l then List.◌∷◌ l rest else rest

  unfoldable pub sites_of : List String → List Listener → List Site
  sites_of hostnames List.[] = List.[]
  sites_of hostnames (List.◌∷◌ l ls) =
      let rest = sites_of hostnames ls in
      if is_public_bind l then map (λ h. (l, h)) hostnames ++ rest else rest

  unfoldable pub all_hostnames : List (List String) → List String
  all_hostnames List.[] = List.[]
  all_hostnames (List.◌∷◌ values more) = hostnames_of is_ip values ++ all_hostnames more

  unfoldable pub server_vpn : Directives → List Listener
  server_vpn server = vpn_of (parsed_listeners (arguments_named "listen" server))

  unfoldable pub server_sites : Directives → List Site
  server_sites server =
      sites_of (all_hostnames (arguments_named "server_name" server))
        (parsed_listeners (arguments_named "listen" server))

  unfoldable pub servers_vpn : List Directives → List Listener
  servers_vpn List.[] = List.[]
  servers_vpn (List.◌∷◌ server servers) = server_vpn server ++ servers_vpn servers

  unfoldable pub servers_sites : List Directives → List Site
  servers_sites List.[] = List.[]
  servers_sites (List.◌∷◌ server servers) = server_sites server ++ servers_sites servers

  -- both sets of `_nginx_listeners`, for the directives that were read
  unfoldable pub listeners_in : Directives → List Listener × List Site
  listeners_in directives =
      let servers = walk_blocks "server" directives in
      (set_by listener_before (servers_vpn servers), set_by site_before (servers_sites servers))
