-- ===== src/Mounts/Reading.antt =====
-- Reading sshd's configuration ends, and looks nowhere but below /etc/ssh.
use cozy_nm.Base.{
  ok, ℕ, zero, suc, ◌≡◌, refl, ap, String, Bool, true, false, Option, none, some, is_some,
  if◌then◌else◌, List, [], ◌∷◌, Result-cases, inl, inr,
}
use cozy_nm.Hosts.Agreeing.{SameBelow, read_resolved-same, all_matches-same}
use cozy_nm.Hosts.Files.{HostFiles, all_matches, read_resolved}
use cozy_nm.Hosts.Paths.{PosixPath, last_name}
use cozy_nm.Mounts.Exports.{MountView, collect_sftp_exports, with_homes}
use cozy_nm.Mounts.SshConfig.{
  SshRead, read_all_ssh, read_tokens, read_lines_ssh, read_opened, read_ssh_file, read_ssh_config,
  sshd_config,
}
use cozy_nm.Mounts.Table.{split_lines}

module _ (shlex : String → Option (List String)) (a b : HostFiles)
    (same : SameBelow "ssh" a b) where
  module _ (r s : PosixPath → SshRead) (same_read : (p : PosixPath) → r p ≡ s p) where
    read_all_ssh-same :
        (ps : List PosixPath) → read_all_ssh shlex a r ps ≡ read_all_ssh shlex b s ps
    unfolding read_all_ssh
    read_all_ssh-same [] = refl
    read_all_ssh-same (p ∷ ps) = rw (same_read p, read_all_ssh-same ps)

    read_tokens-same :
        (file : String) (n : ℕ) (tokens : Option (List String))
        → read_tokens shlex a r file n tokens ≡ read_tokens shlex b s file n tokens
    unfolding read_tokens
    read_tokens-same file n none = refl
    read_tokens-same file n (some []) = refl
    read_tokens-same file n (some (keyword ∷ arguments)) = rw (
      all_matches-same "ssh" a b same arguments,
      read_all_ssh-same (all_matches "ssh" b arguments),
    )

    read_lines_ssh-same :
        (file : String) (n : ℕ) (lines : List String)
        → read_lines_ssh shlex a r file n lines ≡ read_lines_ssh shlex b s file n lines
    unfolding read_lines_ssh
    read_lines_ssh-same file n [] = refl
    read_lines_ssh-same file n (line ∷ lines) =
        rw (read_tokens-same file n (shlex line), read_lines_ssh-same file (suc n) lines)

  read_ssh_file-same :
      (f : ℕ) (stack : List PosixPath) (p : PosixPath)
      → read_ssh_file shlex a f stack p ≡ read_ssh_file shlex b f stack p
  unfolding read_ssh_file read_opened
  read_ssh_file-same zero stack p = refl
  read_ssh_file-same (suc f) stack p = elim (Result-cases (read_resolved "ssh" b p stack)) [
    | inr (x, e) ↦ rw (read_resolved-same "ssh" a b same p stack, e)
    | inl ((q, text), e) ↦
        rw (read_resolved-same "ssh" a b same p stack, e)
          (read_lines_ssh-same (read_ssh_file shlex a f (q ∷ stack))
            (read_ssh_file shlex b f (q ∷ stack)) (read_ssh_file-same f (q ∷ stack))
            (last_name p.names) 1 (split_lines text))
  ]

either-is_some :
    {A : Type 0} (b : Bool) (x y : Option A)
    → is_some x ≡ true
    → is_some y ≡ true
    → is_some (if b then x else y) ≡ true
either-is_some true x y h k = h
either-is_some false x y h k = k

-- The exports depend on nothing outside /etc/ssh but /etc/passwd: with the same users, two hosts that
-- agree below /etc/ssh have the same exports, whatever the includes and links there say.
pub collect_sftp_exports-same :
    (shlex : String → Option (List String)) (host : MountView) (other : HostFiles)
    → SameBelow "ssh" host.files other
    → (fuel : ℕ)
    → collect_sftp_exports shlex host fuel
      ≡ collect_sftp_exports shlex (record host { files = other }) fuel
unfolding collect_sftp_exports read_ssh_config
collect_sftp_exports-same shlex host other same fuel =
    let e = read_ssh_file-same shlex host.files other same fuel [] (sshd_config shlex other) in
    ap (λ r. if host.config_exists then with_homes host.passwd r else ok ([], [])) e
