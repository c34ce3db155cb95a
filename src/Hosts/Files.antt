-- ===== src/Hosts/Files.antt =====
-- The files that the readers of nginx's and of sshd's configuration ask for
-- (collectors/public_interfaces.py, collectors/mounts.py): the files of the host are arguments, by
-- their names below its root.
use cozy_nm.Base.{
  String, ◌==◌, Bool, true, false, ◌&&◌, Option, none, some, if◌then◌else◌, List, [], ◌∷◌, ◌++◌,
  any, Result, ok, err, bind_result,
}
use cozy_nm.Hosts.Paths.{
  PosixPath, FileError, recursive_include, unreadable, posix_path, is_absolute, join, actual_path,
  follow_symlink,
}

-- what `read_text(encoding="utf-8")` gives: a text, OSError, or UnicodeDecodeError
pub data FileText : Type 0 where
  decoded : String → FileText
  failed : FileText
  undecodable : FileText

abbrev pub can_decode : FileText → Bool
can_decode undecodable = false
can_decode _ = true

-- the host: the target of a symbolic link, the text of a readable file, and the paths that match a
-- pattern, sorted, with none for one that is not below the host's root
pub record HostFiles : Type 0 where
  pub link : List String → Option String
  pub read_text : List String → Option String
  pub glob : List String → List (Option (List String))

unfoldable pub names_eq : List String → List String → Bool
names_eq [] [] = true
names_eq (x ∷ xs) (y ∷ ys) = x == y && names_eq xs ys
names_eq _ _ = false

abbrev pub path_eq : PosixPath → PosixPath → Bool
path_eq p q = p.root == q.root && names_eq p.names q.names

abbrev pub in_stack : PosixPath → List PosixPath → Bool
in_stack p stack = any (path_eq p) stack

-- the paths that could be given relative to the host's root
unfoldable pub relative_paths : List (Option (List String)) → List PosixPath
relative_paths [] = []
relative_paths (none ∷ found) = relative_paths found
relative_paths (some names ∷ found) = record { root = "/"; names = names } ∷ relative_paths found

abbrev pub text_result : Option String → Result FileError String
text_result none = err unreadable
text_result (some text) = ok text

module _ (dir : String) where
  abbrev pub config_root : PosixPath
  config_root = record { root = "/"; names = "etc" ∷ dir ∷ [] }

  unfoldable pub virtual_pattern : String → PosixPath
  virtual_pattern pattern =
      let path = posix_path pattern in if is_absolute path then path else join config_root path

  module _ (files : HostFiles) where
    abbrev pub found_paths : Result FileError (List String) → List PosixPath
    found_paths (err e) = []
    found_paths (ok names) = relative_paths (files.glob names)

    unfoldable pub include_matches : String → List PosixPath
    include_matches pattern = found_paths (actual_path dir (virtual_pattern pattern))

    unfoldable pub all_matches : List String → List PosixPath
    all_matches [] = []
    all_matches (pattern ∷ patterns) = include_matches pattern ++ all_matches patterns

    -- the path that was followed and the text there, for a path that is not on the stack
    unfoldable pub read_resolved :
        PosixPath → List PosixPath → Result FileError (PosixPath × String)
    read_resolved virtual_path stack =
        bind_result (follow_symlink dir files.link virtual_path) λ resolved.
          if in_stack resolved stack
          then err recursive_include
          else bind_result (actual_path dir resolved)
              λ names. bind_result (text_result (files.read_text names)) λ text. ok (resolved, text)
