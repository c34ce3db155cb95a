-- ===== src/Config/OwnNode.antt =====
-- A node does not poll itself.
use cozy_nm.Base.{
  ◌≡◌, refl, String, ◌==◌, true, false, not, ◌||◌, arith, is_empty, List, [], ◌∷◌, map, Bool-cases,
  Option-cases, inl, inr,
}
use cozy_nm.Base.Dicts.{Dict, get, contains}
use cozy_nm.Config.Targets.{
  KnownNode, AppConfig, or_text, node_identifier, deployed_targets, named_targets, nodes_by_name,
  topology_nodes, current_ip, no_minions, minion_targets,
}

abbrev pub target_names : List (String × String) → List String
target_names targets = map (λ t. t.0) targets

named_targets-no_self :
    (config : AppConfig) (nodes : Dict KnownNode) (names : List String)
    → contains (node_identifier config) (target_names (named_targets config false nodes names))
      ≡ false
unfolding named_targets contains
named_targets-no_self config nodes [] = refl
named_targets-no_self config nodes (n ∷ names) = elim (Bool-cases (n == node_identifier config)) [
  | inl e ↦ rw e (named_targets-no_self config nodes names)
  | inr e ↦ elim (Option-cases (get n nodes)) [
    | inl g ↦ rw (e, g) (named_targets-no_self config nodes names)
    | inr (k, g) ↦ rw (e, g) (rw e (named_targets-no_self config nodes names))
  ]
]

deployed_targets-no_self :
    (config : AppConfig) (current : String) (ips : List String)
    → is_empty current ≡ false
    → contains current (target_names (deployed_targets config false current ips)) ≡ false
unfolding deployed_targets contains
deployed_targets-no_self config current [] h = refl
deployed_targets-no_self config current (ip ∷ ips) h = elim (Bool-cases (ip == current)) [
  | inl e ↦ rw (h, e) (deployed_targets-no_self config current ips h)
  | inr e ↦ rw (h, e) (rw e (deployed_targets-no_self config current ips h))
]

node_identifier-current_ip :
    (config : AppConfig)
    → is_empty (current_ip config) ≡ false
    → node_identifier config ≡ current_ip config
unfolding node_identifier current_ip or_text
node_identifier-current_ip config h = ground arith

-- Without `include_self` the node's own identifier is no target. If the minions come from a deployment,
-- the node has an address of its own, or it is the deployment's head.
pub minion_targets-no_self :
    (config : AppConfig)
    → (no_minions config.deployment.minions || not (is_empty (current_ip config))) ≡ true
    → contains (node_identifier config) (target_names (minion_targets config false)) ≡ false
unfolding minion_targets
minion_targets-no_self config h = elim (Bool-cases (no_minions config.deployment.minions)) [
  | inl m ↦
      rw m (named_targets-no_self config (nodes_by_name (topology_nodes config) []) config.minions)
  | inr m ↦
      let c : is_empty (current_ip config) ≡ false = ground arith in
      rw (m, node_identifier-current_ip config c)
        (deployed_targets-no_self config (current_ip config) config.deployment.minions c)
]
