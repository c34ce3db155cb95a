-- ===== src/Nginx/Tests.antt =====
-- The theorems on the public interfaces at concrete configurations.
use cozy_nm.Base.{
  ◌≡◌, refl, String, ◌==◌, Bool, true, false, Option, none, some, is_some, arith, Result,
  if◌then◌else◌, List, [], ◌∷◌, any, All, ok, eq_iff, and-eq-true_iff,
}
use cozy_nm.Base.Dicts.{get}
use cozy_nm.Nginx.Tokens.{tokenize_nginx, flushed}
use cozy_nm.Nginx.Directives.{
  simple, block, Directives, no_directives, directive, parse_text, parse_directives,
}
use cozy_nm.Nginx.Printing.{emit_all, is_clean}
use cozy_nm.Nginx.Quoting.{print_tokens, parse_text-print_tokens}
use cozy_nm.Nginx.Termination.{Done, parse_directives-Done}
use cozy_nm.Hosts.Paths.{
  PosixPath, posix_path, follow_symlink, follow, actual_path, safe_virtual_path, at_root,
  keep_parts, keep_part, parts, in_root, root_of, join, parent, drop_last, below,
}
use cozy_nm.Devices.Scan.{split_on}
use cozy_nm.Hosts.Lexical.{Inside, follow_symlink-Inside}
use cozy_nm.Nginx.Reader.{read_file}
use cozy_nm.Nginx.Included.{read_file-is_some}
use cozy_nm.Nginx.Contained.{read_file-same}
use cozy_nm.Hosts.Agreeing.{SameBelow}
use cozy_nm.Hosts.Files.{decoded, failed, HostFiles, names_eq}
use cozy_nm.Nginx.Sites.{Listener, listeners_in}
use cozy_nm.Nginx.Bound.{IsVpn, IsPublic, listeners_in-bound}
use cozy_nm.Nginx.Sockets.{Socket}
use cozy_nm.Nginx.Interfaces.{interfaces_by_url, was_up}
use cozy_nm.Nginx.Statuses.{listed, served, interfaces_by_url-status}
use cozy_nm.Nginx.Transmission.{
  settings, text, Report, InterfaceError, Addresses, HostView, collect_public_interfaces,
}

-- a quoted word with a space, a quote and a brace in it
abbrev server_1 : Directives
server_1 =
    directive
      (block "server" [] (
        directive (simple "listen" ("8443" ∷ "ssl" ∷ [])) (
          directive (simple "server_name" ("git.example.org." ∷ []))
            (directive (simple "return" ("200" ∷ "say \"hi\" {" ∷ [])) no_directives))))
      no_directives

parse_text-print_tokens_example : parse_text (print_tokens (emit_all server_1)) ≡ ok server_1
parse_text-print_tokens_example = parse_text-print_tokens server_1 (unfold is_clean in refl)

parse_directives-Done_example : Done 4 (parse_directives 5 false ("a" ∷ "{" ∷ ";" ∷ "}" ∷ []))
parse_directives-Done_example =
    parse_directives-Done 4 false ("a" ∷ "{" ∷ ";" ∷ "}" ∷ []) (omega arith)

-- a quoted closing brace cannot be told from a bare one, and an empty quoted word is lost
quoted_brace : tokenize_nginx "return 200 '}';" ≡ ok ("return" ∷ "200" ∷ "}" ∷ ";" ∷ [])
unfolding tokenize_nginx flushed
quoted_brace = refl

empty_word : tokenize_nginx "server_name '';" ≡ ok ("server_name" ∷ ";" ∷ [])
unfolding tokenize_nginx flushed
empty_word = refl

abbrev main_conf : List String
main_conf = "etc" ∷ "nginx" ∷ "nginx.conf" ∷ []

abbrev site_conf : List String
site_conf = "etc" ∷ "nginx" ∷ "sites" ∷ "git.conf" ∷ []

abbrev enabled_conf : List String
enabled_conf = "etc" ∷ "nginx" ∷ "enabled" ∷ "git.conf" ∷ []

abbrev texts_1 : List String → Option String
texts_1 names =
    if names_eq names main_conf
    then some "http { include enabled/*.conf; }"
    else if names_eq names site_conf
    then some "server { listen 8443 ssl; server_name git.example.org; } include nginx.conf;"
    else none

-- the site is a link out of the directory of enabled ones, and includes the main file again
abbrev files_1 : HostFiles
files_1 = record {
  link = λ names. if names_eq names enabled_conf then some "../sites/git.conf" else none;
  read_text = texts_1;
  glob = λ names.
      if any (λ n. n == "*.conf") names
      then some enabled_conf ∷ none ∷ []
      else if names_eq names main_conf
      then some main_conf ∷ []
      else [];
}

abbrev path_1 : PosixPath
path_1 = record { root = "/"; names = main_conf }

abbrev known_1 : List (List String)
known_1 = main_conf ∷ site_conf ∷ []

complete_1 :
    (names : List String) → is_some (texts_1 names) ≡ true → any (names_eq names) known_1 ≡ true
complete_1 names h = ground arith

follow_symlink-Inside_example :
    Inside "nginx" (record { root = "/"; names = site_conf }) × (files_1.link site_conf ≡ none)
follow_symlink-Inside_example =
    follow_symlink-Inside "nginx" files_1.link (record { root = "/"; names = enabled_conf })
      (record { root = "/"; names = site_conf })
      (unfold follow_symlink follow actual_path safe_virtual_path at_root keep_parts keep_part parts
          in_root posix_path root_of split_on join parent drop_last names_eq in
        refl)

read_file-is_some_example : is_some (read_file files_1 3 [] path_1) ≡ true
read_file-is_some_example = read_file-is_some files_1 known_1 complete_1 3 [] path_1 (omega arith)

-- the same files beside a file outside /etc/nginx
abbrev files_2 : HostFiles
files_2 = record files_1 {
  read_text =
      λ names. if names_eq names ("etc" ∷ "passwd" ∷ []) then some "root" else texts_1 names;
}

same_text_1 :
    (ns : List String) → below "nginx" ns ≡ true → files_1.read_text ns ≡ files_2.read_text ns
unfolding names_eq
same_text_1 [] h = refl
same_text_1 (a ∷ []) h = absurd (cc)
same_text_1 (a ∷ (b ∷ ns)) h =
    let (e, k) = (and-eq-true_iff (a == "etc") (b == "nginx")).0 h in
    rw ((eq_iff a "etc").0 e, (eq_iff b "nginx").0 k)

files_1-SameBelow : SameBelow "nginx" files_1 files_2
files_1-SameBelow = record {
  same_link = λ ns h. refl;
  same_text = λ ns h. same_text_1 ns h;
  same_glob = λ ns h. refl;
}

read_file-same_example : read_file files_1 3 [] path_1 ≡ read_file files_2 3 [] path_1
read_file-same_example = read_file-same files_1 files_2 files_1-SameBelow 3 [] path_1

abbrev no_ip : String → Bool
no_ip s = false

listeners_in-bound_example :
    All (IsVpn no_ip no_ip "10.46.0.2") (listeners_in no_ip no_ip "10.46.0.2" server_1).0
    × All (IsPublic no_ip no_ip "10.46.0.2") (listeners_in no_ip no_ip "10.46.0.2" server_1).1
listeners_in-bound_example = listeners_in-bound no_ip no_ip "10.46.0.2" server_1

abbrev https_1 : Listener
https_1 = record { address = "0.0.0.0"; port = 443; ssl = true }

abbrev bound_1 : Listener
bound_1 = record { address = "10.46.0.2"; port = 443; ssl = true }

abbrev sockets_1 : List Socket
sockets_1 = ("10.46.0.2", 443) ∷ []

-- one URL for two listeners
interfaces_by_url-status_example :
    (is_some (
        get "https://10.46.0.2/"
          (interfaces_by_url "10.46.0.2" true sockets_1 (https_1 ∷ bound_1 ∷ []) []))
      ≡ listed "10.46.0.2" true sockets_1 "https://10.46.0.2/" (https_1 ∷ bound_1 ∷ []) [])
    × (was_up (
          get "https://10.46.0.2/"
            (interfaces_by_url "10.46.0.2" true sockets_1 (https_1 ∷ bound_1 ∷ []) []))
        ≡ served "10.46.0.2" true sockets_1 "https://10.46.0.2/" (https_1 ∷ bound_1 ∷ []) [])
interfaces_by_url-status_example =
    interfaces_by_url-status "10.46.0.2" true sockets_1 "https://10.46.0.2/"
      (https_1 ∷ bound_1 ∷ []) []

abbrev addresses_1 : Addresses
addresses_1 = record {
  is_ip = no_ip;
  is_global = no_ip;
  ip_text = λ s. some s;
  ipv6_text = λ bytes. "::";
}

abbrev host_1 : HostView
host_1 = record {
  files = files_1;
  config_exists = true;
  transmission = settings (("rpc-port", text "9092") ∷ []);
  tcp = decoded "  sl  local_address rem_address   st\n   0: 00000000:20FB 00000000:0000 0A\n";
  tcp6 = failed;
  comms = decoded "nginx\n" ∷ failed ∷ [];
}

abbrev report_1 : Result InterfaceError Report
report_1 = collect_public_interfaces addresses_1 host_1 3 (some "10.46.0.2")
