-- ===== src/Config/Checks.antt =====
-- config.py: dns_hostnames and dns_domains, and the validators positive_int and unique_hosts.
use Prim.Native.String.{[], ◌∷◌}
use cozy_nm.Base.{
  ℕ, String, code, Bool, true, not, ◌&&◌, if◌then◌else◌, is_empty, nat_eq, ltb, List, map, select,
}
use cozy_nm.Base.Dicts.{contains}
use cozy_nm.Bridges.State.{Host}
use cozy_nm.Config.Targets.{sorted_set}
use cozy_nm.Devices.Scan.{strip}

-- s.rstrip(".")
unfoldable pub rstrip_dots : String → String
rstrip_dots [] = []
rstrip_dots (c ∷ s) =
    let rest = rstrip_dots s in if nat_eq (code c) b'.' && is_empty rest then [] else c ∷ rest

-- the set comprehension of both functions, sorted
unfoldable pub dns_names : List String → List String
dns_names names =
    sorted_set (select (λ n. not (is_empty n)) (map (λ n. rstrip_dots (strip n)) names))

-- a value of 0 or below is refused
unfoldable pub positive_int : ℕ → Bool
positive_int value = ltb 0 value

unfoldable pub unique_hosts : List Host → Bool
unique_hosts List.[] = true
unique_hosts (List.◌∷◌ h hosts) =
    not (contains h.node_ip (map (λ g. g.node_ip) hosts)) && unique_hosts hosts
