-- ===== src/Hosts/Paths.antt =====
-- The paths that the readers of nginx's and of sshd's configuration take
-- (collectors/public_interfaces.py, collectors/mounts.py), with what they use of pathlib's
-- PurePosixPath: the root ("", "/", or "//" for two leading slashes) and the names behind it. The
-- directory below /etc that a reader may look into and the target of a symbolic link, by its names
-- below the root of the host, are arguments.
use cozy_nm.Base.{
  ℕ, zero, suc, String, ◌==◌, Bool, false, not, ◌&&◌, ◌||◌, Option, none, some, nat_eq, has_prefix,
  is_empty, if◌then◌else◌, List, [], ◌∷◌, ◌++◌, select, Result, ok, err, bind_result,
}
use cozy_nm.Devices.Scan.{split_on}

-- what the readers raise for a file
pub data FileError : Type 0 where
  external_path : FileError
  too_many_links : FileError
  recursive_include : FileError
  unreadable : FileError

pub record PosixPath : Type 0 where
  pub root : String
  pub names : List String

abbrev is_name : String → Bool
is_name part = not (is_empty part) && not (part == ".")

unfoldable pub root_of : String → String
root_of text =
    if has_prefix "//" text && not (has_prefix "///" text)
    then "//"
    else if has_prefix "/" text
    then "/"
    else ""

-- PurePosixPath(text)
unfoldable pub posix_path : String → PosixPath
posix_path text = record {
  root = root_of text;
  names = select is_name (split_on (nat_eq b'/') text);
}

abbrev pub is_absolute : PosixPath → Bool
is_absolute p = not (is_empty p.root)

unfoldable pub parts : PosixPath → List String
parts p = if is_absolute p then p.root ∷ p.names else p.names

-- p / q
unfoldable pub join : PosixPath → PosixPath → PosixPath
join p q = if is_absolute q then q else record { root = p.root; names = p.names ++ q.names }

-- all but the last (list.pop, and nothing where there is none)
unfoldable pub drop_last : List String → List String
drop_last [] = []
drop_last (x ∷ []) = []
drop_last (x ∷ (y ∷ xs)) = x ∷ drop_last (y ∷ xs)

unfoldable pub parent : PosixPath → PosixPath
parent p = record { root = p.root; names = drop_last p.names }

-- path.name
unfoldable pub last_name : List String → String
last_name [] = ""
last_name (x ∷ []) = x
last_name (x ∷ (y ∷ xs)) = last_name (y ∷ xs)

-- one round of the loop in `_safe_virtual_path`
unfoldable pub keep_part : String → List String → List String
keep_part part kept =
    if is_empty part || part == "/" || part == "."
    then kept
    else if part == ".."
    then drop_last kept
    else kept ++ part ∷ []

unfoldable pub keep_parts : List String → List String → List String
keep_parts [] kept = kept
keep_parts (part ∷ rest) kept = keep_parts rest (keep_part part kept)

-- PurePosixPath("/").joinpath(*parts): a part "//", which can only be the first, becomes the root
unfoldable pub at_root : List String → PosixPath
at_root [] = record { root = "/"; names = [] }
at_root (part ∷ rest) =
    if part == "//"
    then record { root = "//"; names = rest }
    else record { root = "/"; names = part ∷ rest }

module _ (dir : String) where
  abbrev pub below : List String → Bool
  below (a ∷ (b ∷ rest)) = a == "etc" && b == dir
  below _ = false

  -- result.is_relative_to("/etc/" + dir)
  unfoldable pub in_root : PosixPath → Bool
  in_root p = p.root == "/" && below p.names

  unfoldable pub safe_virtual_path : PosixPath → Result FileError PosixPath
  safe_virtual_path value =
      let result = at_root (keep_parts (parts value) []) in
      if in_root result then ok result else err external_path

  -- the names below the host's root
  unfoldable pub actual_path : PosixPath → Result FileError (List String)
  actual_path p = bind_result (safe_virtual_path p) λ safe. ok safe.names

  module _ (link : List String → Option String) where
    abbrev pub target_path : PosixPath → String → PosixPath
    target_path current target =
        let path = posix_path target in
        if is_absolute path then path else join (parent current) path

    -- the rounds of the loop from a path on
    unfoldable pub follow : ℕ → PosixPath → Result FileError PosixPath
    follow zero current = err too_many_links
    follow (suc rounds) current = bind_result (actual_path current) λ names. elim (link names) [
      | none ↦ ok current
      | some target ↦
          bind_result (safe_virtual_path (target_path current target)) λ p. follow rounds p
    ]

    unfoldable pub follow_symlink : PosixPath → Result FileError PosixPath
    follow_symlink p = bind_result (safe_virtual_path p) λ current. follow 20 current
