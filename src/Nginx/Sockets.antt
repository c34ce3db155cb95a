-- ===== src/Nginx/Sockets.antt =====
-- collectors/public_interfaces.py: the listening TCP sockets and the processes of the host, from the
-- texts of /proc, none for a file that cannot be read. The text of an IPv6 address is an argument. A
-- negative number counts as no number, since a port that is looked for is at least 1.
use Prim.Native.String
use Prim.Native.String.{[], ◌∷◌}
use cozy_nm.Base.{
  ℕ, zero, suc, ◌+◌, ◌-◌, ◌*◌, String, ◌==◌, code, Bool, true, false, not, ◌&&◌, ◌||◌, Option, none,
  some, if◌then◌else◌, nat_eq, leb, has_prefix, is_empty, cut, text_drop, List, ◌++◌, any, select,
  drop,
}
use cozy_nm.Bridges.Decimal.{decimal, is_space}
use cozy_nm.Hosts.Files.{FileText, decoded, failed, undecodable}
use cozy_nm.Devices.Scan.{split_on, is_line_end, strip}

-- the value of a hexadecimal digit
unfoldable pub hex_digit : ℕ → Option ℕ
hex_digit c =
    if leb b'0' c && leb c b'9'
    then some (c - b'0')
    else if leb b'a' c && leb c b'f'
    then some (c - b'a' + 10)
    else if leb b'A' c && leb c b'F'
    then some (c - b'A' + 10)
    else none

-- `need` says that a digit must follow
unfoldable pub read_hex_digits : Bool → ℕ → String → Option ℕ
read_hex_digits need acc [] = if need then none else some acc
read_hex_digits need acc (c ∷ s) = elim (hex_digit (code c)) [
  | some d ↦ read_hex_digits false (acc * 16 + d) s
  | none ↦ if nat_eq (code c) b'_' && not need then read_hex_digits true acc s else none
]

-- behind a prefix one underscore may stand
unfoldable pub read_prefixed : String → Option ℕ
read_prefixed s =
    if has_prefix "0x" s || has_prefix "0X" s
    then read_hex_digits (not (has_prefix "_" (text_drop 2 s))) 0 (text_drop 2 s)
    else read_hex_digits true 0 s

-- int(s, 16), for a text without white space
unfoldable pub read_hex : String → Option ℕ
read_hex s =
    if has_prefix "+" s
    then read_prefixed (text_drop 1 s)
    else if has_prefix "-" s
    then none
    else read_prefixed s

abbrev pub byte_of : Option ℕ → Option ℕ → Option (List ℕ) → Option (List ℕ)
byte_of (some a) (some b) (some bs) = some (List.◌∷◌ (a * 16 + b) bs)
byte_of _ _ _ = none

-- bytes.fromhex(s), for a text without white space
unfoldable pub bytes_of_hex : String → Option (List ℕ)
bytes_of_hex [] = some List.[]
bytes_of_hex (c ∷ []) = none
bytes_of_hex (c ∷ (d ∷ s)) = byte_of (hex_digit (code c)) (hex_digit (code d)) (bytes_of_hex s)

abbrev pub dotted : ℕ → String → String
dotted n s = String.◌++◌ (decimal n) (String.◌++◌ "." s)

-- str(IPv4Address(raw[::-1]))
unfoldable pub ipv4_text : List ℕ → Option String
ipv4_text (List.◌∷◌ a (List.◌∷◌ b (List.◌∷◌ c (List.◌∷◌ d List.[])))) =
    some (dotted d (dotted c (dotted b (decimal a))))
ipv4_text _ = none

-- the words of four bytes, each from its last byte on; what follows the sixteenth is left out
unfoldable pub reordered : ℕ → List ℕ → Option (List ℕ)
reordered zero bytes = some List.[]
reordered (suc words) (List.◌∷◌ a (List.◌∷◌ b (List.◌∷◌ c (List.◌∷◌ d bytes)))) =
    elim (reordered words bytes) [
      | none ↦ none
      | some rest ↦ some (List.◌∷◌ d (List.◌∷◌ c (List.◌∷◌ b (List.◌∷◌ a rest))))
    ]
reordered (suc words) _ = none

abbrev pub column : ℕ → List String → String
column n List.[] = ""
column zero (List.◌∷◌ c cs) = c
column (suc n) (List.◌∷◌ c cs) = column n cs

-- line.split()
unfoldable pub columns_of : String → List String
columns_of line = select (λ c. not (is_empty c)) (split_on is_space line)

abbrev pub Socket : Type 0
Socket = String × ℕ

abbrev pub socket : Option String → Option ℕ → List Socket
socket (some address) (some port) = List.◌∷◌ (address, port) List.[]
socket _ _ = List.[]

module _ (ipv6_text : List ℕ → String) where
  unfoldable pub decode_proc_address : String → (ipv6 : Bool) → Option String
  decode_proc_address value ipv6 = elim (bytes_of_hex value) [
    | none ↦ none
    | some raw ↦
        if ipv6
        then elim (reordered 4 raw) [ none ↦ none | some bytes ↦ some (ipv6_text bytes) ]
        else ipv4_text raw
  ]

  -- address_hex, port_hex
  unfoldable pub socket_at : (ipv6 : Bool) → Option (String × String) → List Socket
  socket_at ipv6 none = List.[]
  socket_at ipv6 (some (address_hex, port_hex)) =
      socket (decode_proc_address address_hex ipv6) (read_hex port_hex)

  -- a line without a fourth column is skipped as one with another state
  unfoldable pub socket_of : (ipv6 : Bool) → List String → List Socket
  unfolding socket_at
  socket_of ipv6 columns =
      if column 3 columns == "0A" then socket_at ipv6 (cut ":" (column 1 columns)) else List.[]

  unfoldable pub sockets_of : (ipv6 : Bool) → List String → List Socket
  sockets_of ipv6 List.[] = List.[]
  sockets_of ipv6 (List.◌∷◌ line lines) = socket_of ipv6 (columns_of line) ++ sockets_of ipv6 lines

  -- none where UnicodeDecodeError leaves the function
  unfoldable pub sockets_in : (ipv6 : Bool) → FileText → Option (List Socket)
  sockets_in ipv6 undecodable = none
  sockets_in ipv6 failed = some List.[]
  sockets_in ipv6 (decoded text) = some (sockets_of ipv6 (drop 1 (split_on is_line_end text)))

  abbrev pub both_sockets : Option (List Socket) → Option (List Socket) → Option (List Socket)
  both_sockets (some first) (some second) = some (first ++ second)
  both_sockets _ _ = none

  -- the texts of tcp and of tcp6
  unfoldable pub host_tcp_listeners : (tcp tcp6 : FileText) → Option (List Socket)
  host_tcp_listeners tcp tcp6 = both_sockets (sockets_in false tcp) (sockets_in true tcp6)

abbrev pub add_process : FileText → Option (List String) → Option (List String)
add_process undecodable processes = none
add_process failed processes = processes
add_process (decoded comm) none = none
add_process (decoded comm) (some processes) = some (List.◌∷◌ (strip comm) processes)

-- the texts of the processes' `comm` files; none where UnicodeDecodeError leaves the function
unfoldable pub host_processes : List FileText → Option (List String)
host_processes List.[] = some List.[]
host_processes (List.◌∷◌ comm more) = add_process comm (host_processes more)

abbrev pub serves : (node_ip : String) → (port : ℕ) → Socket → Bool
serves node_ip port (address, listener_port) =
    nat_eq listener_port port && (address == node_ip || address == "0.0.0.0" || address == "::")

unfoldable pub port_is_open : List Socket → (node_ip : String) → (port : ℕ) → Bool
port_is_open listeners node_ip port = any (serves node_ip port) listeners
