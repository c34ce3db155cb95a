-- ===== src/Nginx/Bound.antt =====
-- What `_nginx_listeners` reports is bound to an address that the node answers on, at a port of TCP.
use Prim.Native.String.{[], ◌∷◌, count}
use cozy_nm.Base.{
  Char, refl, ◌==◌, eq_iff, is_empty, any_char, all_chars, rstrip, code, false, ◌⊎◌, ℕ, ◌≤◌, ◌≡◌,
  String, Bool, true, ◌&&◌, ◌||◌, Option, none, some, arith, nat_eq, leb, has_prefix, List, map,
  All, All-append, All-add_some, All-set_by, subst, and-eq-true_iff, leb→le, Bool-cases, inl, inr,
}
use cozy_nm.Bridges.Names.{ends_alnum}
use cozy_nm.Devices.Scan.{split_on}
use cozy_nm.Bridges.Decimal.{read_int}
use cozy_nm.Nginx.Directives.{Directives}
use cozy_nm.Nginx.Hostnames.{nginx_hostname-stays}
use cozy_nm.Nginx.Sites.{
  Listener, Site, listen_target, with_port, listener_at, parse_listen, is_hostname, nginx_hostname,
  hostnames_of, listeners_of, parsed_listeners, is_vpn_bind, is_public_bind, is_wildcard, is_label,
  is_label_char, all_labels, vpn_of, sites_of, all_hostnames, server_vpn, server_sites, servers_vpn,
  servers_sites, listeners_in, walk_blocks, listener_before, site_before, arguments_named,
}

abbrev pub IsPort : Listener → Type 0
IsPort l = (1 ≤ l.port) × (l.port ≤ 65535)

with_port-IsPort :
    (address : String) (ssl : Bool) (port : Option ℕ) (l : Listener)
    → with_port address ssl port ≡ some l
    → IsPort l
with_port-IsPort address ssl none l h = absurd (cc)
with_port-IsPort address ssl (some n) l h = elim (Bool-cases (leb 1 n && leb n 65535)) [
  | inr e ↦ let bad : none ≡ some l = rw e at h in absurd (cc (bad))
  | inl e ↦
      let (low, high) = (and-eq-true_iff (leb 1 n) (leb n 65535)).0 e in
      let here : Listener = record { address = address; port = n; ssl = ssl || nat_eq n 443 } in
      let same : some here ≡ some l = rw e at h in
      let q : here ≡ l = cc (same) in subst IsPort q (leb→le 1 n low, leb→le n 65535 high)
]

listener_at-IsPort :
    (ssl : Bool) (target : Option (String × String)) (l : Listener)
    → listener_at ssl target ≡ some l
    → IsPort l
listener_at-IsPort ssl none l h = absurd (cc)
listener_at-IsPort ssl (some (address, port)) l h = with_port-IsPort address ssl (read_int port) l h

parse_listen-IsPort :
    (arguments : List String) (l : Listener) → parse_listen arguments ≡ some l → IsPort l
unfolding parse_listen
parse_listen-IsPort List.[] l h = absurd (cc)
parse_listen-IsPort (List.◌∷◌ value options) l h = elim (Bool-cases (has_prefix "unix:" value)) [
  | inl e ↦ let bad : none ≡ some l = rw e at h in absurd (cc (bad))
  | inr e ↦ listener_at-IsPort _ (listen_target value) l (rw e at h)
]

listeners_of-IsPort : (ds : List (List String)) → All IsPort (listeners_of ds)
unfolding listeners_of
listeners_of-IsPort List.[] = tt
listeners_of-IsPort (List.◌∷◌ d ds) =
    All-add_some IsPort (parse_listen d) (listeners_of ds) (parse_listen-IsPort d)
      (listeners_of-IsPort ds)

parsed_listeners-IsPort : (ds : List (List String)) → All IsPort (parsed_listeners ds)
unfolding parsed_listeners
parsed_listeners-IsPort List.[] = ((omega arith, omega arith), tt)
parsed_listeners-IsPort (List.◌∷◌ d ds) = listeners_of-IsPort (List.◌∷◌ d ds)

-- an ASCII letter or digit
abbrev is_plain : ℕ → Bool
is_plain c = leb b'0' c && leb c b'9' || leb b'A' c && leb c b'Z' || leb b'a' c && leb c b'z'

-- a label of a host name: up to 63 letters, digits and hyphens, with no hyphen at its ends
abbrev pub IsLabel : String → Type 0
IsLabel l =
    (is_empty l ≡ false)
    × (count l ≤ 63)
    × (all_chars (λ c. is_plain c || nat_eq c b'-') l ≡ true)
    × (has_prefix "-" l ≡ false)
    × (rstrip (nat_eq b'-') l ≡ l)

-- labels between dots, two at least, of 253 characters in all, and no address
abbrev pub IsHostname : (is_ip : String → Bool) → String → Type 0
IsHostname is_ip h =
    (count h ≤ 253)
    × (any_char (nat_eq b'.') h ≡ true)
    × All IsLabel (split_on (nat_eq b'.') h)
    × (is_ip h ≡ false)

kept-end :
    (c : Char) (s : String)
    → is_empty s ≡ false
    → rstrip (nat_eq b'-') s ≡ s
    → rstrip (nat_eq b'-') (c ∷ s) ≡ c ∷ s
kept-end c s h e = elim (Bool-cases (nat_eq b'-' (code c))) [
  | inl k ↦ rw (k, e, h) refl
  | inr k ↦ rw (k, e) refl
]

ends_alnum-rstrip : (l : String) → ends_alnum l ≡ true → rstrip (nat_eq b'-') l ≡ l
ends_alnum-rstrip [] h = refl
ends_alnum-rstrip (c ∷ []) h = let k : nat_eq b'-' (code c) ≡ false = ground arith in rw k refl
ends_alnum-rstrip (c ∷ (d ∷ s)) h =
    let ih = ends_alnum-rstrip (d ∷ s) h in kept-end c (d ∷ s) refl ih

is_label-IsLabel : (l : String) → is_label l ≡ true → IsLabel l
unfolding is_label
is_label-IsLabel [] h = absurd (cc)
is_label-IsLabel (c ∷ s) h =
    let labels : all_chars is_label_char (c ∷ s) ≡ true = ground arith in
    (
      refl,
      leb→le (count (c ∷ s)) 63 (ground arith),
      labels,
      ground arith,
      ends_alnum-rstrip (c ∷ s) (ground arith),
    )

all_labels-IsLabel : (ls : List String) → all_labels ls ≡ true → All IsLabel ls
unfolding all_labels
all_labels-IsLabel List.[] h = tt
all_labels-IsLabel (List.◌∷◌ l ls) h =
    let (a, b) = (and-eq-true_iff (is_label l) (all_labels ls)).0 h in
    (is_label-IsLabel l a, all_labels-IsLabel ls b)

is_hostname-IsHostname :
    (is_ip : String → Bool) (h : String) → is_hostname is_ip h ≡ true → IsHostname is_ip h
unfolding is_hostname
is_hostname-IsHostname is_ip h e = (
  leb→le (count h) 253 (ground arith),
  ground arith,
  all_labels-IsLabel (split_on (nat_eq b'.') h) (ground arith),
  ground arith,
)

hostnames_of-IsHostname :
    (is_ip : String → Bool) (values : List String)
    → All (IsHostname is_ip) (hostnames_of is_ip values)
unfolding hostnames_of
hostnames_of-IsHostname is_ip List.[] = tt
hostnames_of-IsHostname is_ip (List.◌∷◌ v vs) =
    All-add_some (IsHostname is_ip) (nginx_hostname is_ip v) (hostnames_of is_ip vs)
      (λ h e. is_hostname-IsHostname is_ip h (nginx_hostname-stays is_ip v h e).0)
      (hostnames_of-IsHostname is_ip vs)

-- the addresses that stand for every one
abbrev pub IsEvery : String → Type 0
IsEvery address = (address ≡ "0.0.0.0") ⊎ ((address ≡ "::") ⊎ (address ≡ "*"))

is_wildcard-IsEvery : (address : String) → is_wildcard address ≡ true → IsEvery address
unfolding is_wildcard
is_wildcard-IsEvery a h = elim (Bool-cases (a == "0.0.0.0")) [
  | inl e ↦ inl ((eq_iff a "0.0.0.0").0 e)
  | inr e ↦ elim (Bool-cases (a == "::")) [
    | inl k ↦ inr (inl ((eq_iff a "::").0 k))
    | inr k ↦ inr (inr ((eq_iff a "*").0 (rw (e, k) at h)))
  ]
]

module _ (is_ip is_global : String → Bool) (node_ip : String) where
  -- bound to every address or to the node's
  abbrev pub IsVpn : Listener → Type 0
  IsVpn l = (IsEvery l.address ⊎ (l.address ≡ node_ip)) × IsPort l

  -- bound to every address or to a global one, under a host name
  abbrev pub IsPublic : Site → Type 0
  IsPublic (l, h) =
      (IsEvery l.address ⊎ (is_global l.address ≡ true)) × IsPort l × IsHostname is_ip h

  vpn_bind :
      (l : Listener)
      → is_vpn_bind is_ip is_global node_ip l ≡ true
      → IsEvery l.address ⊎ (l.address ≡ node_ip)
  unfolding is_vpn_bind
  vpn_bind l h = elim (Bool-cases (is_wildcard l.address)) [
    | inl e ↦ inl (is_wildcard-IsEvery l.address e)
    | inr e ↦ inr ((eq_iff l.address node_ip).0 (rw e at h))
  ]

  public_bind :
      (l : Listener)
      → is_public_bind is_ip is_global node_ip l ≡ true
      → IsEvery l.address ⊎ (is_global l.address ≡ true)
  unfolding is_public_bind
  public_bind l h = elim (Bool-cases (is_wildcard l.address)) [
    | inl e ↦ inl (is_wildcard-IsEvery l.address e)
    | inr e ↦ inr (rw e at h)
  ]

  vpn_of-IsVpn :
      (ls : List Listener) → All IsPort ls → All IsVpn (vpn_of is_ip is_global node_ip ls)
  unfolding vpn_of
  vpn_of-IsVpn List.[] h = tt
  vpn_of-IsVpn (List.◌∷◌ l ls) (p, h) = elim (Bool-cases (is_vpn_bind is_ip is_global node_ip l)) [
    | inl e ↦ rw e ((vpn_bind l e, p), vpn_of-IsVpn ls h)
    | inr e ↦ rw e (vpn_of-IsVpn ls h)
  ]

  paired-IsPublic :
      (l : Listener) (hs : List String)
      → is_public_bind is_ip is_global node_ip l ≡ true
      → IsPort l
      → All (IsHostname is_ip) hs
      → All IsPublic (map (λ h. (l, h)) hs)
  paired-IsPublic l List.[] e p a = tt
  paired-IsPublic l (List.◌∷◌ h hs) e p (b, a) =
      ((public_bind l e, p, b), paired-IsPublic l hs e p a)

  sites_of-IsPublic :
      (hs : List String) (ls : List Listener)
      → All (IsHostname is_ip) hs
      → All IsPort ls
      → All IsPublic (sites_of is_ip is_global node_ip hs ls)
  unfolding sites_of
  sites_of-IsPublic hs List.[] a h = tt
  sites_of-IsPublic hs (List.◌∷◌ l ls) a (p, h) =
      elim (Bool-cases (is_public_bind is_ip is_global node_ip l)) [
        | inl e ↦ rw e (
            All-append IsPublic (map (λ k. (l, k)) hs) _ (paired-IsPublic l hs e p a)
              (sites_of-IsPublic hs ls a h))
        | inr e ↦ rw e (sites_of-IsPublic hs ls a h)
      ]

  all_hostnames-IsHostname :
      (vs : List (List String)) → All (IsHostname is_ip) (all_hostnames is_ip is_global node_ip vs)
  unfolding all_hostnames
  all_hostnames-IsHostname List.[] = tt
  all_hostnames-IsHostname (List.◌∷◌ v vs) =
      All-append (IsHostname is_ip) (hostnames_of is_ip v) _ (hostnames_of-IsHostname is_ip v)
        (all_hostnames-IsHostname vs)

  servers_vpn-IsVpn :
      (servers : List Directives) → All IsVpn (servers_vpn is_ip is_global node_ip servers)
  unfolding servers_vpn server_vpn
  servers_vpn-IsVpn List.[] = tt
  servers_vpn-IsVpn (List.◌∷◌ s ss) =
      All-append IsVpn (server_vpn is_ip is_global node_ip s) _
        (vpn_of-IsVpn _ (parsed_listeners-IsPort (arguments_named "listen" s)))
        (servers_vpn-IsVpn ss)

  servers_sites-IsPublic :
      (servers : List Directives) → All IsPublic (servers_sites is_ip is_global node_ip servers)
  unfolding servers_sites server_sites
  servers_sites-IsPublic List.[] = tt
  servers_sites-IsPublic (List.◌∷◌ s ss) =
      All-append IsPublic (server_sites is_ip is_global node_ip s) _
        (sites_of-IsPublic _ _ (all_hostnames-IsHostname (arguments_named "server_name" s))
          (parsed_listeners-IsPort (arguments_named "listen" s)))
        (servers_sites-IsPublic ss)

  -- Whatever the configuration says, each listener that is taken for the VPN is bound to every
  -- address or to the node's, each public site to every address or to a global one and under a valid
  -- host name, and both have a port from 1 to 65535.
  pub listeners_in-bound :
      (ds : Directives)
      → All IsVpn (listeners_in is_ip is_global node_ip ds).0
        × All IsPublic (listeners_in is_ip is_global node_ip ds).1
  unfolding listeners_in
  listeners_in-bound ds = (
    All-set_by IsVpn listener_before _ (servers_vpn-IsVpn (walk_blocks "server" ds)),
    All-set_by IsPublic site_before _ (servers_sites-IsPublic (walk_blocks "server" ds)),
  )
