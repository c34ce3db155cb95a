-- ===== src/Mounts/Windows.antt =====
-- collectors/mounts.py: the Windows directories behind the 9p mounts of exported directories.
use Prim.Native.String
use Prim.Native.String.{[], ◌∷◌}
use cozy_nm.Base.{
  ℕ, String, ◌==◌, code, Bool, true, false, not, ◌&&◌, ◌||◌, Option, none, some, is_some,
  if◌then◌else◌, nat_eq, has_prefix, is_empty, rstrip, strip_chars, cut, text_drop, List, any,
  sort_by,
}
use cozy_nm.Base.Dicts.{Dict, assign}
use cozy_nm.Bridges.Names.{text_before}
use cozy_nm.Devices.Scan.{split_on}
use cozy_nm.HeadAuth.Origin.{is_alpha}
use cozy_nm.Hosts.Paths.{PosixPath, posix_path}
use cozy_nm.Mounts.Table.{MountInfo}

pub record WindowsPathMapping : Type 0 where
  pub linux_path : String
  pub windows_path : String

abbrev pub is_separator : ℕ → Bool
is_separator c = nat_eq c b'\\' || nat_eq c b'/'

-- _WINDOWS_ROOT
unfoldable pub is_windows_root : String → Bool
is_windows_root (c ∷ (d ∷ [])) = is_alpha (code c) && nat_eq (code d) b':'
is_windows_root (c ∷ (d ∷ (e ∷ []))) =
    is_alpha (code c) && nat_eq (code d) b':' && is_separator (code e)
is_windows_root _ = false

-- ";".join(options)
unfoldable pub join_options : List String → String
join_options List.[] = ""
join_options (List.◌∷◌ o List.[]) = o
join_options (List.◌∷◌ o (List.◌∷◌ p os)) = String.◌++◌ o (";" ∷ join_options (List.◌∷◌ p os))

abbrev names_path : String → Bool
names_path part = has_prefix "path=" part && not (is_empty (text_drop 5 part))

-- the first (?:^|;)path=([^;]+)
unfoldable pub path_option : List String → Option String
path_option List.[] = none
path_option (List.◌∷◌ part parts) =
    let rest = path_option parts in if names_path part then some (text_drop 5 part) else rest

abbrev checked_drive : Option String → Option String
checked_drive none = none
checked_drive (some drive) = if is_windows_root drive then some drive else none

unfoldable pub drive_of : (source : String) → List String → Option String
drive_of source super_options =
    if is_windows_root source
    then some source
    else checked_drive (path_option (split_on (nat_eq b';') (join_options super_options)))

-- relative.replace("/", "\\")
unfoldable pub backslashes : String → String
backslashes [] = []
backslashes (c ∷ s) = (if nat_eq (code c) b'/' then "\\" else c) ∷ backslashes s

-- below a drive, which keeps one backslash
unfoldable pub on_drive : String → (root : String) → String
on_drive drive root =
    String.◌++◌ (rstrip is_separator drive) ("\\" ∷ backslashes (strip_chars (nat_eq b'/') root))

unfoldable pub windows_path_of : (source root : String) → List String → Option String
windows_path_of source root super_options = elim (drive_of source super_options) [
  | none ↦ none
  | some drive ↦ some (on_drive drive root)
]

unfoldable pub is_prefix_of : List String → List String → Bool
is_prefix_of List.[] ys = true
is_prefix_of (List.◌∷◌ x xs) List.[] = false
is_prefix_of (List.◌∷◌ x xs) (List.◌∷◌ y ys) = x == y && is_prefix_of xs ys

-- p.is_relative_to(q)
unfoldable pub is_relative_to : PosixPath → PosixPath → Bool
is_relative_to p q = p.root == q.root && is_prefix_of q.names p.names

unfoldable pub paths_overlap : String → String → Bool
paths_overlap first second =
    is_relative_to (posix_path first) (posix_path second)
    || is_relative_to (posix_path second) (posix_path first)

-- the 9p mounts of drvfs at exported directories
unfoldable pub is_exported_drive : (exported_roots : List String) → MountInfo → Bool
is_exported_drive exported_roots mount =
    mount.filesystem_type == "9p"
    && any (λ root. paths_overlap mount.mount_point root) exported_roots
    && is_some (cut "aname=drvfs" (join_options mount.super_options))

abbrev mapped : MountInfo → Option String → Dict WindowsPathMapping → Dict WindowsPathMapping
mapped mount none mappings = mappings
mapped mount (some path) mappings =
    assign mount.mount_point (record { linux_path = mount.mount_point; windows_path = path })
      mappings

unfoldable pub map_mounts :
    List String → List MountInfo → Dict WindowsPathMapping → Dict WindowsPathMapping
map_mounts exported_roots List.[] mappings = mappings
map_mounts exported_roots (List.◌∷◌ mount mounts) mappings = map_mounts exported_roots mounts (
    if is_exported_drive exported_roots mount
    then mapped mount (windows_path_of mount.source mount.root mount.super_options) mappings
    else mappings)

unfoldable pub mappings_of : Dict WindowsPathMapping → List WindowsPathMapping
mappings_of List.[] = List.[]
mappings_of (List.◌∷◌ (place, m) mappings) = List.◌∷◌ m (mappings_of mappings)

unfoldable pub collect_windows_mappings : List MountInfo → List String → List WindowsPathMapping
collect_windows_mappings mounts exported_roots =
    sort_by (λ a b. text_before a.linux_path b.linux_path)
      (mappings_of (map_mounts exported_roots mounts List.[]))
