-- ===== src/Config/Targets.antt =====
-- config.py: what AppConfig computes from its fields. A missing text and an empty one are one value
-- here, since every test in the code takes them alike.
use Prim.Native.String
use cozy_nm.Base.{
  ℕ, String, ◌==◌, Bool, true, false, not, ◌&&◌, Option, none, some, if◌then◌else◌, is_empty, List,
  [], ◌∷◌, map,
}
use cozy_nm.Base.Dicts.{Dict, get, assign}
use cozy_nm.Bridges.Decimal.{decimal}
use cozy_nm.Bridges.Names.{text_before}
use cozy_nm.Bridges.State.{Host}

-- the fields of KnownNode that are used here
pub record KnownNode : Type 0 where
  pub name : String
  pub expected_vpn_ip : String

pub record DeploymentConfig : Type 0 where
  pub head : String
  pub minions : List String

pub record AppConfig : Type 0 where
  pub mode : String
  pub node_name : String
  pub node_ip : String
  pub minion_port : ℕ
  pub known_nodes : List KnownNode
  pub minions : List String
  pub deployment : DeploymentConfig
  pub hosts : List Host

-- a or b
unfoldable pub or_text : String → String → String
or_text a b = if is_empty a then b else a

-- a member of a sorted set
unfoldable pub insert : String → List String → List String
insert x [] = x ∷ []
insert x (y ∷ ys) =
    let rest = insert x ys in
    if x == y then y ∷ ys else if text_before y x then y ∷ rest else x ∷ y ∷ ys

unfoldable pub sorted_set : List String → List String
sorted_set [] = []
sorted_set (x ∷ xs) = insert x (sorted_set xs)

unfoldable pub deployment_ips : DeploymentConfig → List String
deployment_ips d = sorted_set (if is_empty d.head then d.minions else d.head ∷ d.minions)

unfoldable pub find_host : String → List Host → Option Host
find_host ip [] = none
find_host ip (h ∷ hosts) = let rest = find_host ip hosts in if h.node_ip == ip then some h else rest

unfoldable pub bridge_host : AppConfig → (node_ip : String) → Option Host
bridge_host config node_ip =
    let selected = or_text node_ip config.node_ip in
    if is_empty selected then none else find_host selected config.hosts

-- the deployment's head, on the head
unfoldable pub own_head : AppConfig → String
own_head config = if config.mode == "head" then config.deployment.head else ""

unfoldable pub node_identifier : AppConfig → String
node_identifier config = or_text config.node_ip (or_text (own_head config) config.node_name)

abbrev or_nodes : List KnownNode → List KnownNode → List KnownNode
or_nodes [] other = other
or_nodes (n ∷ ns) other = n ∷ ns

unfoldable pub topology_nodes : AppConfig → List KnownNode
topology_nodes config =
    or_nodes config.known_nodes
      (map (λ ip. record { name = ip; expected_vpn_ip = ip }) (deployment_ips config.deployment))

abbrev url : AppConfig → String → String
url config ip =
    String.◌++◌ "http://" (String.◌++◌ ip (String.◌++◌ ":" (decimal config.minion_port)))

unfoldable pub deployed_targets :
    AppConfig → Bool → (current : String) → List String → List (String × String)
deployed_targets config include_self current [] = []
deployed_targets config include_self current (ip ∷ ips) =
    let rest = deployed_targets config include_self current ips in
    if not include_self && not (is_empty current) && ip == current
    then rest
    else (ip, url config ip) ∷ rest

-- the comprehension: a later node of a name replaces an earlier one
unfoldable pub nodes_by_name : List KnownNode → Dict KnownNode → Dict KnownNode
nodes_by_name [] d = d
nodes_by_name (n ∷ ns) d = nodes_by_name ns (assign n.name n d)

abbrev target :
    AppConfig → String → Option KnownNode → List (String × String) → List (String × String)
target config name none rest = rest
target config name (some n) rest = (name, url config n.expected_vpn_ip) ∷ rest

unfoldable pub named_targets :
    AppConfig → Bool → Dict KnownNode → List String → List (String × String)
named_targets config include_self nodes [] = []
named_targets config include_self nodes (name ∷ names) =
    let rest = named_targets config include_self nodes names in
    if not include_self && name == node_identifier config
    then rest
    else target config name (get name nodes) rest

-- the address of the node itself, as `minion_targets` takes it with a deployment
unfoldable pub current_ip : AppConfig → String
current_ip config = or_text config.node_ip (own_head config)

abbrev pub no_minions : List String → Bool
no_minions [] = true
no_minions (m ∷ ms) = false

unfoldable pub minion_targets : AppConfig → Bool → List (String × String)
minion_targets config include_self =
    if no_minions config.deployment.minions
    then named_targets config include_self (nodes_by_name (topology_nodes config) []) config.minions
    else deployed_targets config include_self (current_ip config) config.deployment.minions
