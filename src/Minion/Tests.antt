-- ===== src/Minion/Tests.antt =====
-- The bridge API at concrete requests.
use cozy_nm.Base.{◌≡◌, refl, some, none, true, []}
use cozy_nm.Bridges.Yaml.{Value, mapping, end}
use cozy_nm.Bridges.State.{Lib, Files, World, completed}
use cozy_nm.Minion.Api.{
  MinionConfig, apply_bridge_project, refused, handle, require_bridge_token, compare_digest,
  behind_space, is_lowered, is_ascii,
}
use cozy_nm.Minion.Access.{Guarded, handle-Guarded}

abbrev lib_1 : Lib Value
lib_1 = record {
  safe_load = some;
  safe_dump = λ v. v;
  sha256 = λ v. "5feceb66";
  empty_project = mapping end;
  repr = λ v. "{}";
  ip_version = λ s. none;
}

abbrev world_1 : World Value
world_1 = record {
  write_fault = none;
  has_directory = true;
  dockerignore_ok = true;
  readable = true;
  run = λ c. completed 0 "" "";
  containers = λ name. none;
}

abbrev config_1 : MinionConfig
config_1 = record {
  mode = "minion";
  bridge_api_token = "secret";
  host = some (record {
    node_ip = "10.46.0.1";
    compose_dir = "/srv/socat";
    compose_dir_name = "socat";
    compose_file = "docker-compose.yml";
  });
}

abbrev files_1 : Files Value
files_1 = record { compose = none; applied_hash = none; backups = []; issued = [] }

wrong_token :
    handle lib_1 world_1 world_1 config_1 (some "Bearer secrets") apply_bridge_project files_1
    ≡ (refused 401, files_1)
unfolding handle require_bridge_token compare_digest behind_space is_lowered is_ascii
wrong_token = refl

wrong_letters :
    handle lib_1 world_1 world_1 config_1 (some "Bearer sécret") apply_bridge_project files_1
    ≡ (refused 500, files_1)
unfolding handle require_bridge_token compare_digest behind_space is_lowered is_ascii
wrong_letters = refl

handle-Guarded_example :
    Guarded lib_1 world_1 world_1 config_1 (some "bearer secret") apply_bridge_project files_1
handle-Guarded_example =
    handle-Guarded lib_1 world_1 world_1 config_1 (some "bearer secret") apply_bridge_project
      files_1
