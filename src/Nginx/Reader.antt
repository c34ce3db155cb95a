-- ===== src/Nginx/Reader.antt =====
-- collectors/public_interfaces.py: `_NginxConfigReader` reads a file and what it includes. The files
-- of the host are arguments, by their names below its root. Each level of inclusion costs one unit of
-- fuel, and none is the lack of it.
use cozy_nm.Base.{
  ℕ, zero, suc, String, ◌==◌, Option, none, some, if◌then◌else◌, List, [], ◌∷◌, ◌++◌, Result, ok,
  err, bind_result,
}
use cozy_nm.Nginx.Tokens.{NginxError, file_error}
use cozy_nm.Nginx.Directives.{
  Directive, simple, block, Directives, no_directives, directive, parse_text,
}
use cozy_nm.Hosts.Paths.{PosixPath, FileError, external_path, last_name}
use cozy_nm.Hosts.Files.{HostFiles, all_matches, read_resolved}

pub record NginxWarning : Type 0 where
  pub file : String
  pub error : NginxError

abbrev pub Collected : Type 0
Collected = Option (Directives × List NginxWarning)

unfoldable pub append_all : Directives → Directives → Directives
append_all no_directives other = other
append_all (directive d ds) other = directive d (append_all ds other)

abbrev pub and_then : Directives × List NginxWarning → Collected → Collected
and_then first none = none
and_then (ds, ws) (some (es, vs)) = some (append_all ds es, ws ++ vs)

-- expanded.extend, with the warnings in their order
abbrev pub join_collected : Collected → Collected → Collected
join_collected none second = none
join_collected (some first) second = and_then first second

abbrev pub single : Directive → Collected
single d = some (directive d no_directives, [])

-- the block of its expanded children
abbrev pub with_children : String → List String → Collected → Collected
with_children name arguments none = none
with_children name arguments (some (ds, ws)) =
    some (directive (block name arguments ds) no_directives, ws)

module _ (files : HostFiles) where
  module _ (read : PosixPath → Collected) where
    unfoldable pub read_all : List PosixPath → Collected
    read_all [] = some (no_directives, [])
    read_all (p ∷ ps) = join_collected (read p) (read_all ps)

    -- the loop of `_read_file` and `_expand_children`
    unfoldable mutual
      pub expand_directive : Directive → Collected
      expand_directive (simple name arguments) =
          if name == "include"
          then read_all (all_matches "nginx" files arguments)
          else single (simple name arguments)
      expand_directive (block name arguments children) =
          let expanded = expand children in
          if name == "include"
          then read_all (all_matches "nginx" files arguments)
          else with_children name arguments expanded

      pub expand : Directives → Collected
      expand no_directives = some (no_directives, [])
      expand (directive d ds) = join_collected (expand_directive d) (expand ds)

  abbrev pub parsed_text :
      Result FileError (PosixPath × String) → Result NginxError (PosixPath × Directives)
  parsed_text (err e) = err (file_error e)
  parsed_text (ok (resolved, text)) =
      bind_result (parse_text text) λ directives. ok (resolved, directives)

  -- the `try` block of `_read_file`: the path that was followed and the directives of its file
  unfoldable pub open_file : PosixPath → List PosixPath → Result NginxError (PosixPath × Directives)
  open_file virtual_path stack = parsed_text (read_resolved "nginx" files virtual_path stack)

  abbrev pub failed : PosixPath → NginxError → Collected
  failed virtual_path (file_error external_path) = some (no_directives, [])
  failed virtual_path e =
      some (no_directives, record { file = last_name virtual_path.names; error = e } ∷ [])

  -- the rest of `_read_file`
  unfoldable pub expand_opened :
      (read : List PosixPath → PosixPath → Collected)
      → PosixPath
      → List PosixPath
      → Result NginxError (PosixPath × Directives)
      → Collected
  expand_opened read virtual_path stack (err e) = failed virtual_path e
  expand_opened read virtual_path stack (ok (resolved, directives)) =
      expand (read (resolved ∷ stack)) directives

  unfoldable pub read_file : ℕ → List PosixPath → PosixPath → Collected
  unfolding expand_opened
  read_file zero stack virtual_path = none
  read_file (suc f) stack virtual_path =
      expand_opened (read_file f) virtual_path stack (open_file virtual_path stack)

  abbrev pub config_path : PosixPath
  config_path = record { root = "/"; names = "etc" ∷ "nginx" ∷ "nginx.conf" ∷ [] }

  unfoldable pub read_config : ℕ → Collected
  read_config f = read_file f [] config_path
