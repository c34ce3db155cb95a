-- ===== src/Mounts/Allowed.antt =====
-- What is exported by SFTP: only to users that are named, from directories with a root, at ports of TCP.
use Prim.Native.String.{[], ◌∷◌}
use text.Mathlib.TextLemmas.{cons-append}
use cozy_nm.Base.{
  ℕ, ◌≤◌, ◌≡◌, refl, subst, String, ◌==◌, eq_refl, true, not, ◌&&◌, Option, none, some, or_else,
  arith, nat_eq, leb, leb→le, has_prefix, is_empty, List, ◌++◌, any, All, All-append, All-add_some,
  All-sort_by, cut, is_some, Bool-cases, Option-cases, inl, inr, and-eq-true_iff,
}
use cozy_nm.Base.Dicts.{Dict, get, assign, contains, keys}
use cozy_nm.Bridges.Decimal.{read_int}
use cozy_nm.Hosts.Paths.{posix_path, root_of}
use cozy_nm.Mounts.Exports.{
  SftpExport, exact_match_users, path_text, expand_tokens, expand_chroot, join_names, ExportState,
  match_users, export_line, export_lines, exports_of, user_export, sftp_exports_in, ports_or_22,
  add_port, is_export_keyword, section_line,
}
use cozy_nm.Mounts.SshConfig.{Lines}
use cozy_nm.Mounts.Table.{valid_port}
use cozy_nm.Nginx.Sites.{lower}
use cozy_nm.Mounts.Named.{named_users, or_right, names_exactly, named_users-named}

-- a path with a root begins with a slash
path_text-rooted :
    (s : String) → has_prefix "/" s ≡ true → has_prefix "/" (path_text (posix_path s)) ≡ true
unfolding path_text posix_path root_of
path_text-rooted s h = elim (Bool-cases (has_prefix "//" s && not (has_prefix "///" s))) [
  | inl e ↦ rw (e, cons-append "/" ("/" ∷ []) (join_names (posix_path s).names)) refl
  | inr e ↦ rw (e, h, cons-append "/" [] (join_names (posix_path s).names)) refl
]

expand_chroot-rooted :
    (value username : String) (home : Option String) (r : String)
    → expand_chroot value username home ≡ some r
    → has_prefix "/" r ≡ true
unfolding expand_chroot
expand_chroot-rooted value username home r h =
    let expanded = expand_tokens value username (or_else home "") in
    elim (Bool-cases (lower value == "none")) [
      | inl a ↦ let bad : none ≡ some r = rw a at h in absurd (cc (bad))
      | inr a ↦ elim (Bool-cases (is_some (cut "%h" value) && is_empty (or_else home ""))) [
        | inl b ↦ let bad : none ≡ some r = rw (a, b) at h in absurd (cc (bad))
        | inr b ↦ elim (Bool-cases (has_prefix "/" expanded)) [
          | inr c ↦ let bad : none ≡ some r = rw (a, b, c) at h in absurd (cc (bad))
          | inl c ↦
              let same : some (path_text (posix_path expanded)) ≡ some r = rw (a, b, c) at h in
              let q : path_text (posix_path expanded) ≡ r = cc (same) in
              subst (λ t. has_prefix "/" t ≡ true) q (path_text-rooted expanded c)
        ]
      ]
    ]

abbrev pub IsTcpPort : ℕ → Type 0
IsTcpPort n = (1 ≤ n) × (n ≤ 65535)

valid_port-IsTcpPort : (o : Option ℕ) (n : ℕ) → valid_port o ≡ some n → IsTcpPort n
valid_port-IsTcpPort none n h = absurd (cc)
valid_port-IsTcpPort (some m) n h = elim (Bool-cases (leb 1 m && leb m 65535)) [
  | inr e ↦ let bad : none ≡ some n = rw e at h in absurd (cc (bad))
  | inl e ↦
      let (low, high) = (and-eq-true_iff (leb 1 m) (leb m 65535)).0 e in
      let same : some m ≡ some n = rw e at h in
      let q : m ≡ n = cc (same) in subst IsTcpPort q (leb→le 1 m low, leb→le m 65535 high)
]

add_port-IsTcpPort :
    (o : Option ℕ) (ports : List ℕ)
    → ((n : ℕ) → o ≡ some n → IsTcpPort n)
    → All IsTcpPort ports
    → All IsTcpPort (add_port o ports)
add_port-IsTcpPort none ports v h = h
add_port-IsTcpPort (some n) ports v h = elim (Bool-cases (any (nat_eq n) ports)) [
  | inl e ↦ rw e h
  | inr e ↦ rw e (All-append IsTcpPort ports (List.◌∷◌ n List.[]) h (v n refl, tt))
]

ports_or_22-IsTcpPort : (ports : List ℕ) → All IsTcpPort ports → All IsTcpPort (ports_or_22 ports)
ports_or_22-IsTcpPort List.[] h = ((omega arith, omega arith), tt)
ports_or_22-IsTcpPort (List.◌∷◌ n ports) h = h

module _ (named : List String) where
  abbrev IsNamed : String → Type 0
  IsNamed user = contains user named ≡ true

  abbrev IsKept : SftpExport → Type 0
  IsKept e = IsNamed e.username × All IsTcpPort e.ports × (has_prefix "/" e.chroot_directory ≡ true)

  record IsSound (s : ExportState) : Type 0 where
    ports : All IsTcpPort s.ports
    users : All IsNamed s.current_users
    matched : All IsNamed (keys s.matches)

  keys-assign :
      {V : Type 0} (k : String) (v : V) (d : Dict V)
      → IsNamed k
      → All IsNamed (keys d)
      → All IsNamed (keys (assign k v d))
  unfolding assign
  keys-assign k v List.[] p h = (p, tt)
  keys-assign k v (List.◌∷◌ (j, w) d) p (q, h) = elim (Bool-cases (j == k)) [
    | inl e ↦ rw e (q, h)
    | inr e ↦ rw e (q, keys-assign k v d p h)
  ]

  keys-match_users :
      (keyword value : String) (users : List String) (matches : Dict (Dict String))
      → All IsNamed users
      → All IsNamed (keys matches)
      → All IsNamed (keys (match_users keyword value users matches))
  unfolding match_users
  keys-match_users keyword value List.[] matches h k = k
  keys-match_users keyword value (List.◌∷◌ u us) matches (p, h) k =
      keys-match_users keyword value us _ h (keys-assign u _ matches p k)

  section_line-IsSound :
      (users : List String) (keyword : String) (arguments : List String) (s : ExportState)
      → IsSound s
      → IsSound (section_line users keyword arguments s)
  section_line-IsSound List.[] keyword List.[] s i = i
  section_line-IsSound List.[] keyword (List.◌∷◌ a more) s i =
      elim (Bool-cases (keyword == "port")) [
        | inr e ↦ rw e i
        | inl e ↦ rw e (record {
          ports =
              add_port-IsTcpPort (valid_port (read_int a)) s.ports
                (valid_port-IsTcpPort (read_int a)) i.ports;
          users = i.users;
          matched = i.matched;
        })
      ]
  section_line-IsSound (List.◌∷◌ u us) keyword List.[] s i = i
  section_line-IsSound (List.◌∷◌ u us) keyword (List.◌∷◌ a more) s i =
      elim (Bool-cases (is_export_keyword keyword)) [
        | inr e ↦ rw e i
        | inl e ↦ rw e (record {
          ports = i.ports;
          users = i.users;
          matched = keys-match_users keyword _ s.current_users s.matches i.users i.matched;
        })
      ]

  export_lines-IsSound :
      (lines : Lines) (s : ExportState)
      → All IsNamed (named_users lines)
      → IsSound s
      → IsSound (export_lines lines s)
  unfolding export_lines export_line named_users
  export_lines-IsSound List.[] s n i = i
  export_lines-IsSound (List.◌∷◌ List.[] lines) s n i = export_lines-IsSound lines s n i
  export_lines-IsSound (List.◌∷◌ (List.◌∷◌ token arguments) lines) s n i =
      elim (Bool-cases (lower token == "match")) [
        | inl e ↦
            let both : All IsNamed (exact_match_users arguments ++ named_users lines) = rw e at n in
            let (here, later) = All-split (exact_match_users arguments) (named_users lines) both in
            rw e (
              export_lines-IsSound lines (record s { current_users = exact_match_users arguments })
                later (record { ports = i.ports; users = here; matched = i.matched }))
        | inr e ↦
            let later : All IsNamed (named_users lines) = rw e at n in
            rw e (
              export_lines-IsSound lines (section_line s.current_users (lower token) arguments s)
                later (section_line-IsSound s.current_users (lower token) arguments s i))
      ]
    where
      All-split : (xs ys : List String) → All IsNamed (xs ++ ys) → All IsNamed xs × All IsNamed ys
      All-split List.[] ys h = (tt, h)
      All-split (List.◌∷◌ x xs) ys (p, h) = let (a, b) = All-split xs ys h in ((p, a), b)

  user_export-IsKept :
      (homes : Dict String) (ports : List ℕ) (username : String) (values : Dict String)
      → IsNamed username
      → All IsTcpPort ports
      → (e : SftpExport) → user_export homes ports username values ≡ some e
      → IsKept e
  unfolding user_export
  user_export-IsKept homes ports username values n t e h =
      let chroot =
        expand_chroot (or_else (get "chrootdirectory" values) "none") username
          (get username homes) in
      elim (Bool-cases
        (has_prefix "internal-sftp" (lower (or_else (get "forcecommand" values) "")))) [
          | inr a ↦ let bad : none ≡ some e = rw a at h in absurd (cc (bad))
          | inl a ↦ elim (Option-cases chroot) [
            | inl c ↦ let bad : none ≡ some e = rw (a, c) at h in absurd (cc (bad))
            | inr (dir, c) ↦
                let made : SftpExport = record {
                  username = username;
                  ports = ports;
                  chroot_directory = dir;
                } in
                let same : some made ≡ some e = rw (a, c) at h in
                let q : made ≡ e = cc (same) in
                subst IsKept q (n, t, expand_chroot-rooted _ username (get username homes) dir c)
          ]
        ]

  exports_of-IsKept :
      (homes : Dict String) (ports : List ℕ) (matches : Dict (Dict String))
      → All IsTcpPort ports
      → All IsNamed (keys matches)
      → All IsKept (exports_of homes ports matches)
  unfolding exports_of
  exports_of-IsKept homes ports List.[] t h = tt
  exports_of-IsKept homes ports (List.◌∷◌ (username, values) matches) t (n, h) =
      All-add_some IsKept (user_export homes ports username values) (exports_of homes ports matches)
        (user_export-IsKept homes ports username values n t)
        (exports_of-IsKept homes ports matches t h)

All-contains :
    (xs ys : List String)
    → ((u : String) → contains u xs ≡ true → contains u ys ≡ true)
    → All (λ u. contains u ys ≡ true) xs
unfolding contains
All-contains List.[] ys h = tt
All-contains (List.◌∷◌ x xs) ys h =
    (h x (rw (eq_refl x) refl), All-contains xs ys (λ u k. h u (or_right (x == u) k)))

-- to a user that a line names exactly, from a directory with a root, at ports of TCP
abbrev pub IsAllowed : Lines → SftpExport → Type 0
IsAllowed lines e =
    (any (names_exactly e.username) lines ≡ true)
    × All IsTcpPort e.ports
    × (has_prefix "/" e.chroot_directory ≡ true)

Kept-IsAllowed :
    (lines : Lines) (es : List SftpExport)
    → All (IsKept (named_users lines)) es
    → All (IsAllowed lines) es
Kept-IsAllowed lines List.[] h = tt
Kept-IsAllowed lines (List.◌∷◌ e es) ((n, p, r), h) =
    ((named_users-named e.username lines n, p, r), Kept-IsAllowed lines es h)

-- Whatever sshd's lines and the users' homes are, each export is to a user on the list of a
-- `Match User` line that has no empty name, no pattern and no negation on its list, from a
-- directory with a root, at ports from 1 to 65535.
pub sftp_exports_in-IsAllowed :
    (homes : Dict String) (lines : Lines) → All (IsAllowed lines) (sftp_exports_in homes lines)
unfolding sftp_exports_in
sftp_exports_in-IsAllowed homes lines =
    let named = named_users lines in
    let i =
      export_lines-IsSound named lines
        (record { ports = List.[]; matches = List.[]; current_users = List.[] })
        (All-contains named named (λ u h. h)) (record { ports = tt; users = tt; matched = tt }) in
    Kept-IsAllowed lines _ (
      All-sort_by (IsKept named) _ _
        (exports_of-IsKept named homes _ _ (ports_or_22-IsTcpPort _ i.ports) i.matched))
