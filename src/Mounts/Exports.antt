-- ===== src/Mounts/Exports.antt =====
-- collectors/mounts.py: the directories that sshd exports by SFTP, and the mounts of a host as a whole.
use Prim.Native.String
use Prim.Native.String.{[], ◌∷◌, count}
use cozy_nm.Base.{
  ℕ, zero, suc, ◌-◌, String, ◌==◌, Bool, not, ◌&&◌, ◌||◌, Option, none, some, is_some, or_else,
  if◌then◌else◌, nat_eq, has_prefix, is_empty, any_char, cut, List, ◌++◌, any, map, add_some,
  sort_by, Result, ok, err, bind_result,
}
use cozy_nm.Base.Dicts.{Dict, get, assign}
use cozy_nm.Bridges.Decimal.{read_int}
use cozy_nm.Bridges.Names.{text_before}
use cozy_nm.Devices.Scan.{split_on}
use cozy_nm.Hosts.Files.{FileText, decoded, failed, undecodable, HostFiles}
use cozy_nm.Hosts.Paths.{PosixPath, posix_path}
use cozy_nm.Mounts.SshConfig.{Lines, SshWarning, SshRead, read_ssh_config}
use cozy_nm.Mounts.Table.{
  MountInfo, SshfsMount, split_lines, valid_port, comma_parts, parse_mountinfo,
  collect_sshfs_mounts,
}
use cozy_nm.Mounts.Windows.{WindowsPathMapping, collect_windows_mappings}
use cozy_nm.Nginx.Sites.{lower}

-- what ends the collector without a result: UnicodeDecodeError, and in the model the lack of fuel
pub data MountFault : Type 0 where
  decode_error : MountFault
  out_of_fuel : MountFault

pub record SftpExport : Type 0 where
  pub username : String
  pub ports : List ℕ
  pub chroot_directory : String

-- the home directory is the sixth column
abbrev add_home : List String → Dict String → Dict String
add_home (List.◌∷◌ a (List.◌∷◌ b (List.◌∷◌ c (List.◌∷◌ d (List.◌∷◌ e (List.◌∷◌ home more))))))
      homes =
    assign a home homes
add_home _ homes = homes

unfoldable pub homes_in : List String → Dict String → Dict String
homes_in List.[] homes = homes
homes_in (List.◌∷◌ line lines) homes = homes_in lines (add_home (split_on (nat_eq b':') line) homes)

-- for the text of /etc/passwd
unfoldable pub host_user_homes : FileText → Result MountFault (Dict String)
host_user_homes undecodable = err decode_error
host_user_homes failed = ok List.[]
host_user_homes (decoded text) = ok (homes_in (split_lines text) List.[])

abbrev is_pattern_char : ℕ → Bool
is_pattern_char c = nat_eq c b'*' || nat_eq c b'!' || nat_eq c b'?'

abbrev is_inexact : String → Bool
is_inexact user = is_empty user || any_char is_pattern_char user

unfoldable pub exact_match_users : List String → List String
exact_match_users (List.◌∷◌ criterion (List.◌∷◌ names List.[])) =
    if not (lower criterion == "user") || any is_inexact (comma_parts names)
    then List.[]
    else comma_parts names
exact_match_users _ = List.[]

-- the rest of s.replace(old, new), with so many characters still to pass over
unfoldable pub replace_from : (old new : String) → ℕ → String → String
replace_from old new skip [] = []
replace_from old new (suc skip) (c ∷ s) = replace_from old new skip s
replace_from old new zero (c ∷ s) =
    let found = has_prefix old (c ∷ s) in
    String.◌++◌ (if found then new else c ∷ [])
      (replace_from old new (if found then count old - 1 else 0) s)

unfoldable pub replace_text : (old new : String) → String → String
unfolding replace_from
replace_text old new s = replace_from old new zero s

abbrev percent_marker : String
percent_marker = "\0PERCENT\0"

-- the names with slashes between them
unfoldable pub join_names : List String → String
join_names List.[] = ""
join_names (List.◌∷◌ x List.[]) = x
join_names (List.◌∷◌ x (List.◌∷◌ y xs)) = String.◌++◌ x ("/" ∷ join_names (List.◌∷◌ y xs))

-- str(path), for one with a root
unfoldable pub path_text : PosixPath → String
path_text p = String.◌++◌ p.root (join_names p.names)

unfoldable pub expand_tokens : String → (username home : String) → String
expand_tokens value username home =
    replace_text percent_marker "%"
      (replace_text "%h" home (replace_text "%u" username (replace_text "%%" percent_marker value)))

unfoldable pub expand_chroot : String → (username : String) → (home : Option String) → Option String
expand_chroot value username home =
    let expanded = expand_tokens value username (or_else home "") in
    if lower value == "none"
    then none
    else if is_some (cut "%h" value) && is_empty (or_else home "")
    then none
    else if has_prefix "/" expanded
    then some (path_text (posix_path expanded))
    else none

pub record ExportState : Type 0 where
  pub ports : List ℕ
  pub matches : Dict (Dict String)
  pub current_users : List String

abbrev pub add_port : Option ℕ → List ℕ → List ℕ
add_port none ports = ports
add_port (some port) ports =
    if any (nat_eq port) ports then ports else ports ++ List.◌∷◌ port List.[]

abbrev unless_present : {V : Type 0} → Option V → (changed d : Dict V) → Dict V
unless_present none changed d = changed
unless_present (some w) changed d = d

-- d.setdefault(k, v)
unfoldable pub set_default : {V : Type 0} → String → V → Dict V → Dict V
set_default k v d = unless_present (get k d) (assign k v d) d

-- " ".join(arguments)
unfoldable pub join_arguments : List String → String
join_arguments List.[] = ""
join_arguments (List.◌∷◌ x List.[]) = x
join_arguments (List.◌∷◌ x (List.◌∷◌ y xs)) = String.◌++◌ x (" " ∷ join_arguments (List.◌∷◌ y xs))

-- the first value of a keyword counts
unfoldable pub match_users :
    (keyword value : String) → List String → Dict (Dict String) → Dict (Dict String)
match_users keyword value List.[] matches = matches
match_users keyword value (List.◌∷◌ user users) matches =
    match_users keyword value users
      (assign user (set_default keyword value (or_else (get user matches) List.[])) matches)

abbrev pub is_export_keyword : String → Bool
is_export_keyword keyword = keyword == "chrootdirectory" || keyword == "forcecommand"

abbrev pub global_line : (keyword : String) → List String → ExportState → ExportState
global_line keyword List.[] s = s
global_line keyword (List.◌∷◌ argument arguments) s =
    if keyword == "port"
    then record s { ports = add_port (valid_port (read_int argument)) s.ports }
    else s

abbrev pub user_line : (keyword : String) → List String → ExportState → ExportState
user_line keyword List.[] s = s
user_line keyword (List.◌∷◌ argument arguments) s =
    if is_export_keyword keyword
    then record s {
      matches =
          match_users keyword (join_arguments (List.◌∷◌ argument arguments)) s.current_users
            s.matches;
    }
    else s

abbrev pub section_line : List String → (keyword : String) → List String → ExportState → ExportState
section_line List.[] keyword arguments s = global_line keyword arguments s
section_line (List.◌∷◌ user users) keyword arguments s = user_line keyword arguments s

-- one round of the loop over the lines
unfoldable pub export_line : List String → ExportState → ExportState
export_line List.[] s = s
export_line (List.◌∷◌ token arguments) s =
    if lower token == "match"
    then record s { current_users = exact_match_users arguments }
    else section_line s.current_users (lower token) arguments s

unfoldable pub export_lines : Lines → ExportState → ExportState
export_lines List.[] s = s
export_lines (List.◌∷◌ tokens more) s = export_lines more (export_line tokens s)

abbrev pub ports_or_22 : List ℕ → List ℕ
ports_or_22 List.[] = List.◌∷◌ 22 List.[]
ports_or_22 (List.◌∷◌ port ports) = List.◌∷◌ port ports

abbrev pub exported : (username : String) → List ℕ → Option String → Option SftpExport
exported username ports none = none
exported username ports (some chroot) =
    some (record { username = username; ports = ports; chroot_directory = chroot })

-- what one user's values export
unfoldable pub user_export :
    (homes : Dict String) → List ℕ → String → Dict String → Option SftpExport
user_export homes ports username values =
    if has_prefix "internal-sftp" (lower (or_else (get "forcecommand" values) ""))
    then exported username ports (
        expand_chroot (or_else (get "chrootdirectory" values) "none") username (get username homes))
    else none

unfoldable pub exports_of : (homes : Dict String) → List ℕ → Dict (Dict String) → List SftpExport
exports_of homes ports List.[] = List.[]
exports_of homes ports (List.◌∷◌ (username, values) matches) =
    add_some (user_export homes ports username values) (exports_of homes ports matches)

-- the exports of the lines that were read
unfoldable pub sftp_exports_in : (homes : Dict String) → Lines → List SftpExport
sftp_exports_in homes lines =
    let s =
      export_lines lines (record { ports = List.[]; matches = List.[]; current_users = List.[] }) in
    sort_by (λ a b. text_before a.username b.username)
      (exports_of homes (ports_or_22 s.ports) s.matches)

pub data MountWarning : Type 0 where
  table_unreadable : MountWarning
  record_unparsed : ℕ → MountWarning
  source_unparsed : String → MountWarning
  ssh_warning : SshWarning → MountWarning

pub record Topology : Type 0 where
  pub sshfs_mounts : List SshfsMount
  pub sftp_exports : List SftpExport
  pub windows_mappings : List WindowsPathMapping
  pub warnings : List MountWarning

-- the texts of the mount table and of the users, and the files of sshd
pub record MountView : Type 0 where
  pub mountinfo : FileText
  pub passwd : FileText
  pub config_exists : Bool
  pub files : HostFiles

abbrev pub with_homes :
    (passwd : FileText) → SshRead → Result MountFault (List SftpExport × List SshWarning)
with_homes passwd none = err out_of_fuel
with_homes passwd (some (lines, warnings)) =
    bind_result (host_user_homes passwd) λ homes. ok (sftp_exports_in homes lines, warnings)

module _ (shlex : String → Option (List String)) (host : MountView) where
  unfoldable pub collect_sftp_exports :
      (fuel : ℕ) → Result MountFault (List SftpExport × List SshWarning)
  collect_sftp_exports fuel =
      if host.config_exists
      then with_homes host.passwd (read_ssh_config shlex host.files fuel)
      else ok (List.[], List.[])

  abbrev pub topology_of :
      List MountInfo × List ℕ
      → Result MountFault (List SftpExport × List SshWarning)
      → Result MountFault Topology
  topology_of table (err fault) = err fault
  topology_of (mounts, unparsed) (ok (exports, ssh_warnings)) =
      let (sshfs, sources) = collect_sshfs_mounts mounts in
      ok (record {
        sshfs_mounts = sshfs;
        sftp_exports = exports;
        windows_mappings = collect_windows_mappings mounts (map (λ e. e.chroot_directory) exports);
        warnings =
            map record_unparsed unparsed
            ++ (map source_unparsed sources ++ map ssh_warning ssh_warnings);
      })

  abbrev pub topology_at : (fuel : ℕ) → FileText → Result MountFault Topology
  topology_at fuel undecodable = err decode_error
  topology_at fuel failed = ok (record {
    sshfs_mounts = List.[];
    sftp_exports = List.[];
    windows_mappings = List.[];
    warnings = List.◌∷◌ table_unreadable List.[];
  })
  topology_at fuel (decoded text) = topology_of (parse_mountinfo text) (collect_sftp_exports fuel)

  unfoldable pub collect_mount_topology : (fuel : ℕ) → Result MountFault Topology
  collect_mount_topology fuel = topology_at fuel host.mountinfo
