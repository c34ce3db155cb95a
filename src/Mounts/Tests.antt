-- ===== src/Mounts/Tests.antt =====
-- The theorems on mounts at concrete tables and configurations.
use cozy_nm.Base.{
  Result, ◌≡◌, refl, String, true, Option, none, some, if◌then◌else◌, List, [], ◌∷◌, ◌++◌, false,
  All,
}
use cozy_nm.Hosts.Files.{decoded, failed, HostFiles, names_eq}
use cozy_nm.Devices.Scan.{split_on}
use cozy_nm.Hosts.Lexical.{IsPlain}
use cozy_nm.Hosts.Paths.{keep_parts, keep_part, drop_last, root_of}
use cozy_nm.Mounts.Allowed.{IsAllowed, sftp_exports_in-IsAllowed}
use cozy_nm.Mounts.Slashes.{IsWhole}
use cozy_nm.Mounts.Chroot.{target_directory-below}
use cozy_nm.Mounts.Correlated.{Entry, normpath, target_directory}
use cozy_nm.Mounts.Rows.{MountRow, correlate_sshfs_mounts}
use cozy_nm.Mounts.Exports.{
  path_text, join_names, MountView, MountFault, Topology, SftpExport, collect_mount_topology,
  sftp_exports_in,
}
use cozy_nm.Mounts.SshConfig.{Lines}
use cozy_nm.Nginx.Sockets.{columns_of}

abbrev lines_1 : Lines
lines_1 =
    ("Port" ∷ "2222" ∷ [])
    ∷ ("Match" ∷ "User" ∷ "media,backup" ∷ [])
    ∷ ("ForceCommand" ∷ "internal-sftp" ∷ [])
    ∷ ("ChrootDirectory" ∷ "/srv/%u" ∷ [])
    ∷ ("ChrootDirectory" ∷ "%h" ∷ [])
    ∷ []

abbrev exports_1 : List SftpExport
exports_1 = sftp_exports_in [] lines_1

sftp_exports_in-IsAllowed_example : All (IsAllowed lines_1) exports_1
sftp_exports_in-IsAllowed_example = sftp_exports_in-IsAllowed [] lines_1

abbrev sshd_names : List String
sshd_names = "etc" ∷ "ssh" ∷ "sshd_config" ∷ []

abbrev texts_1 : List String → Option String
texts_1 names = if names_eq names sshd_names then some "Include sshd_config\n" else none

abbrev files_1 : HostFiles
files_1 = record { link = λ names. none; read_text = texts_1; glob = λ names. some names ∷ [] }

-- splits at spaces
abbrev shlex_1 : String → Option (List String)
shlex_1 line = some (columns_of line)

abbrev view_1 : MountView
view_1 = record {
  mountinfo =
      decoded
        "36 25 0:32 / /mnt/my\\040disk rw,relatime shared:1 - fuse.sshfs media@10.46.0.3:/data rw,port=2222\n37 25 oops\n";
  passwd = failed;
  config_exists = true;
  files = files_1;
}

abbrev topology_1 : Result MountFault Topology
topology_1 = collect_mount_topology shlex_1 view_1 2

target_directory-below_example :
    (root : String) × (names : List String) × ("/srv/media/films"
      ≡ path_text (record { root = root; names = (normpath "/srv/./media/").names ++ names }))
    × All IsPlain names
    × All IsWhole names
target_directory-below_example =
    target_directory-below "/srv/./media/" "/../a/../films" "/srv/media/films" (
      unfold target_directory in
      unfold normpath in
      unfold path_text in
      unfold join_names in
      unfold keep_parts in
      unfold keep_part in unfold drop_last in unfold split_on in unfold root_of in refl)

abbrev media_1 : Entry
media_1 = record {
  node = record { name = "media"; expected_vpn_ip = "10.46.0.3" };
  snapshot = some (record {
    hostname = some "nas";
    sshfs_mounts = [];
    sftp_exports =
        record { username = "films"; ports = 22 ∷ []; chroot_directory = "/srv/films" } ∷ [];
    windows_path_mappings = record { linux_path = "/srv"; windows_path = "C:\\data" } ∷ [];
  });
  stale = false;
}

abbrev desk_1 : Entry
desk_1 = record {
  node = record { name = "desk"; expected_vpn_ip = "10.46.0.4" };
  snapshot = some (record {
    hostname = none;
    sshfs_mounts =
        record {
          local_path = "/mnt/films";
          target_host = "NAS.";
          target_port = 22;
          username = some "films";
          remote_path = "/new";
        }
        ∷ [];
    sftp_exports = [];
    windows_path_mappings = [];
  });
  stale = false;
}

-- the host is known by the name in its snapshot
abbrev rows_1 : List MountRow
rows_1 = correlate_sshfs_mounts some (media_1 ∷ desk_1 ∷ [])
