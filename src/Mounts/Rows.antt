-- ===== src/Mounts/Rows.antt =====
-- services/mounts.py: the rows of the mounts between the nodes. `str(ip_address(text))` is an argument.
use cozy_nm.Base.{
  String, ◌==◌, Bool, true, false, ◌&&◌, ◌||◌, Option, none, some, if◌then◌else◌, strip_chars, List,
  [], ◌∷◌, map, sort_by, or_else,
}
use cozy_nm.Bridges.Names.{text_before}
use cozy_nm.Devices.Inventory.{Node}
use cozy_nm.Devices.Scan.{strip}
use cozy_nm.Mounts.Table.{SshfsMount}
use cozy_nm.Mounts.Correlated.{
  Snapshot, Entry, alias_of, is_bracket, live_snapshot, unique_alias, target_directory,
  target_export, windows_directory,
}

pub record MountRow : Type 0 where
  pub initiator_node : Node
  pub target_node : Option Node
  pub initiator_ip : String
  pub target_ip : Option String
  pub target_host : String
  pub initiator_directory : String
  pub target_directory : Option String
  pub windows_directory : Option String

-- the order of the keys, which are lists of four texts
unfoldable pub key_before : List String → List String → Bool
key_before ks [] = false
key_before [] (l ∷ ls) = true
key_before (k ∷ ks) (l ∷ ls) = let rest = key_before ks ls in text_before k l || k == l && rest

unfoldable pub same_key : List String → List String → Bool
same_key [] [] = true
same_key (k ∷ ks) (l ∷ ls) = k == l && same_key ks ls
same_key _ _ = false

-- rows[key] = row
unfoldable pub put_row :
    (key : List String) → MountRow → List (List String × MountRow) → List (List String × MountRow)
put_row key row [] = (key, row) ∷ []
put_row key row ((k, r) ∷ rows) =
    let rest = put_row key row rows in if same_key k key then (k, row) ∷ rows else (k, r) ∷ rest

module _ (ip_text : String → Option String) where
  unfoldable pub normalized_ip : String → Option String
  normalized_ip value = ip_text (strip_chars is_bracket (strip value))

  abbrev pub ip_of_target : (target_host : String) → Option Node → Option String
  ip_of_target target_host none = normalized_ip target_host
  ip_of_target target_host (some node) = elim (normalized_ip node.expected_vpn_ip) [
    | none ↦ normalized_ip target_host
    | some ip ↦ some ip
  ]

  abbrev pub directory_of : SshfsMount → Option Snapshot → Option String
  directory_of mount none = none
  directory_of mount (some snapshot) =
      elim (target_export snapshot mount.username mount.target_port) [
        | none ↦ none
        | some e ↦ target_directory e.chroot_directory mount.remote_path
      ]

  abbrev pub windows_of : Option Snapshot → Option String → Option String
  windows_of none directory = none
  windows_of (some snapshot) directory = windows_directory snapshot directory

  abbrev pub snapshot_of : Option Entry → Option Snapshot
  snapshot_of none = none
  snapshot_of (some entry) = live_snapshot entry

  abbrev pub node_of : Option Entry → Option Node
  node_of none = none
  node_of (some entry) = some entry.node

  -- the body of the loop over the mounts
  unfoldable pub mount_row : List Entry → (initiator : Node) → SshfsMount → MountRow
  mount_row entries initiator mount =
      let target_host = strip_chars is_bracket (strip mount.target_host) in
      let target = unique_alias entries (alias_of target_host) in
      let directory = directory_of mount (snapshot_of target) in
      record {
        initiator_node = initiator;
        target_node = node_of target;
        initiator_ip = or_else (normalized_ip initiator.expected_vpn_ip) initiator.name;
        target_ip = ip_of_target target_host (node_of target);
        target_host = target_host;
        initiator_directory = mount.local_path;
        target_directory = directory;
        windows_directory = windows_of (snapshot_of target) directory;
      }

  unfoldable pub row_key : SshfsMount → MountRow → List String
  row_key mount row =
      row.initiator_ip
      ∷ or_else row.target_ip row.target_host
      ∷ row.initiator_directory
      ∷ or_else row.target_directory mount.remote_path
      ∷ []

  unfoldable pub add_mounts :
      List Entry
      → (initiator : Node) → List SshfsMount
      → List (List String × MountRow)
      → List (List String × MountRow)
  add_mounts entries initiator [] rows = rows
  add_mounts entries initiator (mount ∷ mounts) rows =
      let row = mount_row entries initiator mount in
      add_mounts entries initiator mounts (put_row (row_key mount row) row rows)

  abbrev pub mounts_of : Option Snapshot → List SshfsMount
  mounts_of none = []
  mounts_of (some snapshot) = snapshot.sshfs_mounts

  unfoldable pub add_initiators :
      (entries initiators : List Entry)
      → List (List String × MountRow)
      → List (List String × MountRow)
  add_initiators entries [] rows = rows
  add_initiators entries (i ∷ more) rows =
      add_initiators entries more (add_mounts entries i.node (mounts_of (live_snapshot i)) rows)

  unfoldable pub correlate_sshfs_mounts : List Entry → List MountRow
  correlate_sshfs_mounts entries =
      map (λ r. r.1) (sort_by (λ a b. key_before a.0 b.0) (add_initiators entries entries []))
