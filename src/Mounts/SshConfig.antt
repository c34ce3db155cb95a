-- ===== src/Mounts/SshConfig.antt =====
-- collectors/mounts.py: `_SshConfigReader` reads sshd_config and what it includes. shlex is an
-- argument: the tokens of a line, none where it raises. A level of inclusion costs a unit of fuel.
use cozy_nm.Base.{
  ℕ, zero, suc, String, ◌==◌, Option, none, some, if◌then◌else◌, List, [], ◌∷◌, ◌++◌, Result, ok,
  err,
}
use cozy_nm.Hosts.Files.{HostFiles, all_matches, read_resolved}
use cozy_nm.Hosts.Paths.{
  PosixPath, FileError, external_path, last_name, safe_virtual_path, actual_path, follow_symlink,
}
use cozy_nm.Mounts.Table.{split_lines}
use cozy_nm.Nginx.Sites.{lower}

pub data SshWarning : Type 0 where
  unread_file : String → FileError → SshWarning
  unparsed_line : String → ℕ → SshWarning

abbrev pub Lines : Type 0
Lines = List (List String)

abbrev pub SshRead : Type 0
SshRead = Option (Lines × List SshWarning)

abbrev pub and_then : Lines × List SshWarning → SshRead → SshRead
and_then first none = none
and_then (ls, ws) (some (ms, vs)) = some (ls ++ ms, ws ++ vs)

-- lines.extend, with the warnings in their order
abbrev pub join_read : SshRead → SshRead → SshRead
join_read none second = none
join_read (some first) second = and_then first second

-- the reader's paths are those of the nginx reader, at its own directory
abbrev pub ssh_safe_virtual_path : PosixPath → Result FileError PosixPath
ssh_safe_virtual_path p = safe_virtual_path "ssh" p

abbrev pub ssh_actual_path : PosixPath → Result FileError (List String)
ssh_actual_path p = actual_path "ssh" p

abbrev pub ssh_follow_symlink : HostFiles → PosixPath → Result FileError PosixPath
ssh_follow_symlink files p = follow_symlink "ssh" files.link p

abbrev pub ssh_matches : HostFiles → List String → List PosixPath
ssh_matches files patterns = all_matches "ssh" files patterns

abbrev pub ssh_resolved :
    HostFiles → PosixPath → List PosixPath → Result FileError (PosixPath × String)
ssh_resolved files p stack = read_resolved "ssh" files p stack

module _ (shlex : String → Option (List String)) (files : HostFiles) where
  module _ (read : PosixPath → SshRead) where
    unfoldable pub read_all_ssh : List PosixPath → SshRead
    read_all_ssh [] = some ([], [])
    read_all_ssh (p ∷ ps) = join_read (read p) (read_all_ssh ps)

    -- what one line gives
    unfoldable pub read_tokens :
        (file : String) → (line_number : ℕ) → Option (List String) → SshRead
    read_tokens file line_number none = some ([], unparsed_line file line_number ∷ [])
    read_tokens file line_number (some []) = some ([], [])
    read_tokens file line_number (some (keyword ∷ arguments)) =
        if lower keyword == "include"
        then read_all_ssh (ssh_matches files arguments)
        else some ((keyword ∷ arguments) ∷ [], [])

    unfoldable pub read_lines_ssh : (file : String) → (line_number : ℕ) → List String → SshRead
    read_lines_ssh file line_number [] = some ([], [])
    read_lines_ssh file line_number (line ∷ lines) =
        join_read (read_tokens file line_number (shlex line))
          (read_lines_ssh file (suc line_number) lines)

  abbrev pub failed_ssh : PosixPath → FileError → SshRead
  failed_ssh virtual_path external_path = some ([], [])
  failed_ssh virtual_path e = some ([], unread_file (last_name virtual_path.names) e ∷ [])

  unfoldable pub read_opened :
      (read : List PosixPath → PosixPath → SshRead)
      → PosixPath
      → List PosixPath
      → Result FileError (PosixPath × String)
      → SshRead
  read_opened read virtual_path stack (err e) = failed_ssh virtual_path e
  read_opened read virtual_path stack (ok (resolved, text)) =
      read_lines_ssh (read (resolved ∷ stack)) (last_name virtual_path.names) 1 (split_lines text)

  unfoldable pub read_ssh_file : ℕ → List PosixPath → PosixPath → SshRead
  unfolding read_opened
  read_ssh_file zero stack virtual_path = none
  read_ssh_file (suc f) stack virtual_path =
      read_opened (read_ssh_file f) virtual_path stack (ssh_resolved files virtual_path stack)

  abbrev pub sshd_config : PosixPath
  sshd_config = record { root = "/"; names = "etc" ∷ "ssh" ∷ "sshd_config" ∷ [] }

  unfoldable pub read_ssh_config : ℕ → SshRead
  read_ssh_config f = read_ssh_file f [] sshd_config
