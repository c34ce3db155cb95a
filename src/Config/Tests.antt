-- ===== src/Config/Tests.antt =====
-- The configuration of a head with two minions, one of them itself.
use cozy_nm.Base.{◌≡◌, refl, false, [], ◌∷◌}
use cozy_nm.Base.Dicts.{contains}
use cozy_nm.Bridges.Decimal.{decimal}
use cozy_nm.Config.Targets.{
  AppConfig, minion_targets, deployed_targets, current_ip, own_head, or_text, node_identifier,
}
use cozy_nm.Base.{true}
use cozy_nm.Bridges.State.{Host}
use cozy_nm.Bridges.Decimal.{rstrip_space}
use cozy_nm.Devices.Scan.{strip}
use cozy_nm.Config.Targets.{sorted_set, insert}
use cozy_nm.Config.Checks.{unique_hosts, dns_names, rstrip_dots}
use cozy_nm.Config.OwnNode.{target_names, minion_targets-no_self}

abbrev head_1 : AppConfig
head_1 = record {
  mode = "head";
  node_name = "cozy-head";
  node_ip = "";
  minion_port = 8001;
  known_nodes = [];
  minions = [];
  deployment = record { head = "10.46.0.1"; minions = "10.46.0.1" ∷ "10.46.0.2" ∷ [] };
  hosts = [];
}

targets_run : minion_targets head_1 false ≡ ("10.46.0.2", "http://10.46.0.2:8001") ∷ []
unfolding minion_targets deployed_targets current_ip own_head or_text decimal
targets_run = refl

minion_targets-no_self_example :
    contains (node_identifier head_1) (target_names (minion_targets head_1 false)) ≡ false
unfolding current_ip own_head or_text
minion_targets-no_self_example = minion_targets-no_self head_1 refl

abbrev host_1 : Host
host_1 = record {
  node_ip = "10.46.0.1";
  compose_dir = "/srv/a";
  compose_dir_name = "a";
  compose_file = "docker-compose.yml";
}

abbrev host_2 : Host
host_2 = record host_1 { node_ip = "10.46.0.2" }

hosts_differ : unique_hosts (host_1 ∷ host_2 ∷ []) ≡ true
unfolding unique_hosts contains
hosts_differ = refl

names_run :
    dns_names (" b.example.org. " ∷ "a.example.org" ∷ "b.example.org" ∷ "." ∷ [])
    ≡ "a.example.org" ∷ "b.example.org" ∷ []
unfolding dns_names sorted_set insert rstrip_dots strip rstrip_space
names_run = refl
