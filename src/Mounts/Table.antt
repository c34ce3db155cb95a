-- ===== src/Mounts/Table.antt =====
-- collectors/mounts.py: the mount table of /proc/1/mountinfo and the SSHFS mounts in it.
use Prim.Native.Nat.{compare, Ordering}
use Prim.Native.Char.{char}
use Prim.Native.String.{[], ◌∷◌}
use cozy_nm.Base.{
  ℕ, zero, suc, ◌+◌, ◌-◌, ◌*◌, ◌≡◌, refl, String, ◌==◌, Char, code, Bool, false, not, ◌&&◌, ◌||◌,
  Option, none, some, or_else, if◌then◌else◌, nat_eq, leb, ltb, has_prefix, is_empty, any_char, cut,
  text_drop, List, length, add_some, sort_by,
}
use cozy_nm.Bridges.Decimal.{read_int}
use cozy_nm.Bridges.Names.{text_before}
use cozy_nm.Devices.Scan.{split_on, in_front, is_line_end}
use cozy_nm.Nginx.Sockets.{column, columns_of}

pub record MountInfo : Type 0 where
  pub root : String
  pub mount_point : String
  pub filesystem_type : String
  pub source : String
  pub mount_options : List String
  pub super_options : List String

pub record SshfsMount : Type 0 where
  pub local_path : String
  pub target_host : String
  pub target_port : ℕ
  pub username : Option String
  pub remote_path : String

-- splitlines, for a text in which a line ends with one character
unfoldable pub split_lines : String → List String
split_lines [] = List.[]
split_lines (c ∷ s) =
    let rest = split_lines s in if is_line_end (code c) then List.◌∷◌ [] rest else in_front c rest

abbrev is_octal : ℕ → Bool
is_octal c = leb b'0' c && leb c b'7'

abbrev pub is_escape : Char → Char → Char → Char → Bool
is_escape c x y z =
    nat_eq (code c) b'\\' && is_octal (code x) && is_octal (code y) && is_octal (code z)

abbrev low_char : (n : ℕ) (o : Ordering) → compare n 55296 ≡ o → Char
low_char n Ordering.lt e = char n (rw e tt)
low_char n _ e = "?"

-- chr(n), for the numbers below 512 that three octal digits give
unfoldable pub chr : ℕ → Char
chr n = low_char n (compare n 55296) refl

unfoldable pub octal_char : Char → Char → Char → Char
unfolding chr
octal_char x y z = chr ((code x - 48) * 64 + (code y - 48) * 8 + (code z - 48))

-- the character that an escape stands for
unfoldable pub escape_of : Char → String → Option Char
unfolding octal_char
escape_of c (x ∷ (y ∷ (z ∷ s))) = if is_escape c x y z then some (octal_char x y z) else none
escape_of c _ = none

abbrev pub to_skip : Option Char → ℕ
to_skip none = 0
to_skip (some d) = 3

-- the rest of the substitution, with so many characters of an escape still to pass over
unfoldable pub unescape_from : ℕ → String → String
unescape_from skip [] = []
unescape_from (suc skip) (c ∷ s) = unescape_from skip s
unescape_from zero (c ∷ s) = or_else (escape_of c s) c ∷ unescape_from (to_skip (escape_of c s)) s

unfoldable pub unescape_mount_value : String → String
unescape_mount_value value = unescape_from 0 value

-- columns.index("-")
unfoldable pub index_of : String → List String → Option ℕ
index_of x List.[] = none
index_of x (List.◌∷◌ y ys) =
    let rest = index_of x ys in
    if y == x then some 0 else elim rest [ none ↦ none | some n ↦ some (suc n) ]

abbrev pub comma_parts : String → List String
comma_parts s = split_on (nat_eq b',') s

abbrev pub mount_of : List String → ℕ → MountInfo
mount_of columns separator = record {
  root = unescape_mount_value (column 3 columns);
  mount_point = unescape_mount_value (column 4 columns);
  filesystem_type = column (separator + 1) columns;
  source = unescape_mount_value (column (separator + 2) columns);
  mount_options = comma_parts (column 5 columns);
  super_options = comma_parts (column (separator + 3) columns);
}

abbrev mount_at : List String → Option ℕ → Option MountInfo
mount_at columns none = none
mount_at columns (some separator) =
    if ltb separator 6 || ltb (length columns) (separator + 4)
    then none
    else some (mount_of columns separator)

-- the body of the `try` statement, none where it raises
unfoldable pub parse_record : String → Option MountInfo
parse_record line = let columns = columns_of line in mount_at columns (index_of "-" columns)

abbrev pub noted : Option MountInfo → ℕ → List ℕ → List ℕ
noted none n ns = List.◌∷◌ n ns
noted (some m) n ns = ns

-- the mounts, and the numbers of the records that cannot be parsed
unfoldable pub parse_records : ℕ → List String → List MountInfo × List ℕ
parse_records number List.[] = (List.[], List.[])
parse_records number (List.◌∷◌ line lines) =
    let (mounts, warnings) = parse_records (suc number) lines in
    (add_some (parse_record line) mounts, noted (parse_record line) number warnings)

unfoldable pub parse_mountinfo : String → List MountInfo × List ℕ
parse_mountinfo text = parse_records 1 (split_lines text)

abbrev pub Source : Type 0
Source = Option String × String × String

-- `.` matches no line feed
abbrev one_line : String → Bool
one_line s = not (any_char (nat_eq b'\n') s)

abbrev pub source_at : Option String → Option (String × String) → Option Source
source_at user none = none
source_at user (some (host, path)) =
    if not (is_empty host) && one_line path then some (user, host, path) else none

-- \[(?P<host>[^]]+)]:(?P<path>.*)
unfoldable pub bracket_source : Option String → String → Option Source
bracket_source user s =
    if not (has_prefix "[" s)
    then none
    else if any_char (nat_eq b']') (host_part (cut "]:" (text_drop 1 s)))
    then none
    else source_at user (cut "]:" (text_drop 1 s))
  where
    host_part : Option (String × String) → String
    host_part none = ""
    host_part (some (host, path)) = host

-- (?P<host>[^:]+):(?P<path>.*)
unfoldable pub plain_source : Option String → String → Option Source
plain_source user s = source_at user (cut ":" s)

abbrev or_source : Option Source → Option Source → Option Source
or_source (some s) other = some s
or_source none other = other

-- an optional user in front, which is tried first; `p` says what no user may hold
abbrev with_user :
    (ℕ → Bool) → (Option String → String → Option Source) → Option (String × String) → Option Source
with_user p parse none = none
with_user p parse (some (user, rest)) =
    if is_empty user || any_char p user then none else parse (some user) rest

unfoldable pub bracketed_source : String → Option Source
bracketed_source value =
    or_source (with_user (λ c. false) bracket_source (cut "@" value)) (bracket_source none value)

unfoldable pub ordinary_source : String → Option Source
ordinary_source value =
    or_source (with_user (λ c. nat_eq c b':' || nat_eq c b'/') plain_source (cut "@" value))
      (plain_source none value)

abbrev without_prefix : String → String
without_prefix value = if has_prefix "sshfs#" value then text_drop 6 value else value

unfoldable pub sshfs_source : String → Option Source
sshfs_source value =
    or_source (bracketed_source (without_prefix value)) (ordinary_source (without_prefix value))

abbrev pub valid_port : Option ℕ → Option ℕ
valid_port none = none
valid_port (some port) = if leb 1 port && leb port 65535 then some port else none

-- the port that one option names
unfoldable pub option_port : String → Option ℕ
option_port option = elim (cut "=" option) [
  | none ↦ none
  | some (key, value) ↦
      if key == "port" || key == "sshfs_port" then valid_port (read_int value) else none
]

unfoldable pub sshfs_port : List String → ℕ
sshfs_port List.[] = 22
sshfs_port (List.◌∷◌ option options) = elim (option_port option) [
  | some port ↦ port
  | none ↦ sshfs_port options
]

abbrev pub sshfs_mount : MountInfo → Source → SshfsMount
sshfs_mount mount (username, target_host, remote_path) = record {
  local_path = mount.mount_point;
  target_host = target_host;
  target_port = sshfs_port mount.super_options;
  username = username;
  remote_path = remote_path;
}

abbrev is_sshfs : MountInfo → Bool
is_sshfs mount = mount.filesystem_type == "fuse.sshfs"

-- the mounts, and the places of those whose source cannot be parsed
unfoldable pub sshfs_mounts : List MountInfo → List SshfsMount × List String
sshfs_mounts List.[] = (List.[], List.[])
sshfs_mounts (List.◌∷◌ mount more) =
    let (values, warnings) = sshfs_mounts more in
    if is_sshfs mount
    then elim (sshfs_source mount.source) [
      | none ↦ (values, List.◌∷◌ mount.mount_point warnings)
      | some source ↦ (List.◌∷◌ (sshfs_mount mount source) values, warnings)
    ]
    else (values, warnings)

unfoldable pub collect_sshfs_mounts : List MountInfo → List SshfsMount × List String
collect_sshfs_mounts mounts =
    let (values, warnings) = sshfs_mounts mounts in
    (sort_by (λ a b. text_before a.local_path b.local_path) values, warnings)
