-- ===== src/Mounts/Correlated.antt =====
-- services/mounts.py: to which node and directory the SSHFS mounts of the nodes lead. A snapshot that
-- has no entry for a list, and one in which the list is empty, are one value. The node of a name is
-- asked for by a function in place of the dictionary of names.
-- posixpath.normpath is modelled for paths with a root, the only ones that are normalized.
use Prim.Native.String
use cozy_nm.Base.{
  ℕ, String, ◌==◌, Bool, not, ◌&&◌, ◌||◌, Option, none, some, if◌then◌else◌, nat_eq, leb,
  has_prefix, is_empty, rstrip, drop_while, List, [], ◌∷◌, length, drop, any, all, or_else,
}
use cozy_nm.Base.Dicts.{contains}
use cozy_nm.Config.Checks.{rstrip_dots}
use cozy_nm.Devices.Inventory.{Node}
use cozy_nm.Devices.Scan.{split_on, strip}
use cozy_nm.Hosts.Paths.{PosixPath, posix_path, parts, keep_parts, root_of}
use cozy_nm.Mounts.Exports.{SftpExport, path_text}
use cozy_nm.Mounts.Table.{SshfsMount}
use cozy_nm.Mounts.Windows.{WindowsPathMapping, is_relative_to, is_separator}
use cozy_nm.Nginx.Sites.{lower}

pub record Snapshot : Type 0 where
  pub hostname : Option String
  pub sshfs_mounts : List SshfsMount
  pub sftp_exports : List SftpExport
  pub windows_path_mappings : List WindowsPathMapping

pub record Entry : Type 0 where
  pub node : Node
  pub snapshot : Option Snapshot
  pub stale : Bool

-- the empty text where there is none
unfoldable pub alias_of : String → String
alias_of value = lower (rstrip_dots (strip value))

abbrev pub is_bracket : ℕ → Bool
is_bracket c = nat_eq c b'[' || nat_eq c b']'

abbrev pub live_snapshot : Entry → Option Snapshot
live_snapshot entry = if entry.stale then none else entry.snapshot

abbrev pub hostname_of : Option Snapshot → String
hostname_of none = ""
hostname_of (some snapshot) = or_else snapshot.hostname ""

-- `alias` is among the names of the entry
unfoldable pub has_alias : (wanted : String) → Entry → Bool
has_alias wanted entry =
    not (is_empty wanted)
    && contains wanted (
        alias_of entry.node.name
        ∷ alias_of entry.node.expected_vpn_ip
        ∷ alias_of (hostname_of (live_snapshot entry))
        ∷ [])

-- the first of those with the name, if all of them are of one node
abbrev pub only_node : List Entry → Option Entry
only_node [] = none
only_node (entry ∷ more) =
    if all (λ e. e.node.name == entry.node.name) more then some entry else none

abbrev pub candidates : (wanted : String) → List Entry → List Entry
candidates wanted [] = []
candidates wanted (entry ∷ more) =
    let rest = candidates wanted more in if has_alias wanted entry then entry ∷ rest else rest

-- _unique_aliases(entries).get(wanted)
unfoldable pub unique_alias : List Entry → (wanted : String) → Option Entry
unique_alias entries wanted = only_node (candidates wanted entries)

-- posixpath.normpath, for a path with a root
unfoldable pub normpath : String → PosixPath
normpath path = record { root = root_of path; names = keep_parts (split_on (nat_eq b'/') path) [] }

abbrev pub is_slash : ℕ → Bool
is_slash = nat_eq b'/'

unfoldable pub target_directory : (chroot remote_path : String) → Option String
target_directory chroot remote_path =
    if has_prefix "/" chroot && has_prefix "/" remote_path
    then some (
        path_text (
          normpath (
            String.◌++◌ (rstrip is_slash chroot)
              (path_text (normpath (String.◌++◌ "/" (drop_while is_slash remote_path)))))))
    else none

abbrev is_target : (username : String) → (port : ℕ) → SftpExport → Bool
is_target username port e = e.username == username && any (nat_eq port) e.ports

abbrev first_target : (username : String) → (port : ℕ) → List SftpExport → Option SftpExport
first_target username port [] = none
first_target username port (e ∷ es) =
    let rest = first_target username port es in if is_target username port e then some e else rest

unfoldable pub target_export : Snapshot → Option String → (port : ℕ) → Option SftpExport
target_export snapshot none port = none
target_export snapshot (some username) port =
    if is_empty username then none else first_target username port snapshot.sftp_exports

-- equal paths are relative to each other too
abbrev is_candidate : (target : PosixPath) → WindowsPathMapping → Bool
is_candidate target mapping =
    not (is_empty mapping.linux_path)
    && not (is_empty mapping.windows_path)
    && is_relative_to target (posix_path mapping.linux_path)

abbrev depth : WindowsPathMapping → ℕ
depth mapping = length (parts (posix_path mapping.linux_path))

abbrev deeper : WindowsPathMapping → Option WindowsPathMapping → WindowsPathMapping
deeper mapping none = mapping
deeper mapping (some best) = if leb (depth best) (depth mapping) then mapping else best

-- the first of the candidates with the most parts
abbrev deepest : (target : PosixPath) → List WindowsPathMapping → Option WindowsPathMapping
deepest target [] = none
deepest target (m ∷ ms) =
    let rest = deepest target ms in if is_candidate target m then some (deeper m rest) else rest

abbrev join_backslash : List String → String
join_backslash [] = ""
join_backslash (name ∷ []) = name
join_backslash (name ∷ (other ∷ names)) =
    String.◌++◌ name (String.◌++◌ "\\" (join_backslash (other ∷ names)))

abbrev ends_path : String → Bool
ends_path path = not (rstrip is_separator path == path)

abbrev below_windows : (windows_path : String) → (relative : List String) → String
below_windows windows_path [] = windows_path
below_windows windows_path (name ∷ names) =
    String.◌++◌ windows_path
      (String.◌++◌ (if ends_path windows_path then "" else "\\") (join_backslash (name ∷ names)))

unfoldable pub windows_directory : Snapshot → Option String → Option String
windows_directory snapshot none = none
windows_directory snapshot (some directory) =
    let target = posix_path directory in
    elim (deepest target snapshot.windows_path_mappings) [
      | none ↦ none
      | some m ↦ some (
          below_windows m.windows_path (drop (length (posix_path m.linux_path).names) target.names))
    ]
