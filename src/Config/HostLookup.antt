-- ===== src/Config/HostLookup.antt =====
-- The host that bridge_host finds.
use cozy_nm.Base.{
  ◌≡◌, sym, subst, ◌==◌, eq_iff, eq_refl, true, some, arith, List, [], ◌∷◌, ◌++◌, map, Bool-cases,
  inl, inr,
}
use cozy_nm.Base.Dicts.{contains}
use cozy_nm.Bridges.State.{Host}
use cozy_nm.Config.Targets.{find_host}
use cozy_nm.Config.Checks.{unique_hosts}

contains-middle :
    (before after : List Host) (host : Host)
    → contains host.node_ip (map (λ k. k.node_ip) (before ++ host ∷ after)) ≡ true
unfolding contains
contains-middle [] after host = rw (eq_refl host.node_ip)
contains-middle (g ∷ before) after host = ground (arith, contains-middle before after host)

-- In a list that unique_hosts accepts, every host is found under its address, wherever it stands.
pub find_host_unique :
    (before after : List Host) (host : Host)
    → unique_hosts (before ++ host ∷ after) ≡ true
    → find_host host.node_ip (before ++ host ∷ after) ≡ some host
unfolding unique_hosts find_host contains
find_host_unique [] after host h = rw (eq_refl host.node_ip)
find_host_unique (g ∷ before) after host h = elim (Bool-cases (g.node_ip == host.node_ip)) [
  | inr e ↦ rw e (find_host_unique before after host (ground arith))
  | inl e ↦
      let m : contains g.node_ip (map (λ k. k.node_ip) (before ++ host ∷ after)) ≡ true =
        subst (λ ip. contains ip (map (λ k. k.node_ip) (before ++ host ∷ after)) ≡ true)
          (sym ((eq_iff g.node_ip host.node_ip).0 e)) (contains-middle before after host) in
      absurd (ground arith)
]
