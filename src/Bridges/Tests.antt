-- ===== src/Bridges/Tests.antt =====
-- The theorems on bridges at concrete projects. The contents of the Compose file are the document
-- itself, which the YAML library of the tests reads back.
use cozy_nm.Base.{
  ◌≡◌, ◌⊎◌, refl, ◌↔◌, String, ◌==◌, true, false, none, some, arith, [], ◌∷◌, Result, ok, err,
  or_else, if◌then◌else◌,
}
use cozy_nm.Base.Dicts.{contains, get, assign}
use cozy_nm.Bridges.Yaml.{
  Value, scalar, mapping, text, Fields, end, field, lookup, key_is, key_text, has_key, put, remove,
  replace, is_truthy,
}
use cozy_nm.Bridges.Service.{
  BridgeDefinition, BridgeDefinitionInput, standard_service, validate_bridge_input, parse_service,
  integer, unknown_keys, has_odd_key, has_env_keys, environment_fields, has_text, environment_items,
  environment_dict, publishes, port_faults, input_faults, validated, shown_name, field_faults,
  parse_mapping,
}
use cozy_nm.Bridges.ServiceLaws.{own_definition, parse_service-standard_service}
use cozy_nm.Bridges.State.{
  BridgeFault, chmod_fault, os_error, read_only, Lib, Files, World, completed, Document,
  BridgeProject, BridgeOperationResult, Host, status_code,
}
use cozy_nm.Bridges.Document.{
  load_document, validate_document, parse, owner_of, doc_services, doc_of, read_document,
  taken_port, claim_port, validate_service, validate_services,
}
use cozy_nm.Bridges.Compose.{
  pending_apply, limited, finish, error_of, ensure_paths, locked, issue, run_compose,
  config_command, compose_is_valid, back_up, install, interrupt_copy, prune, write_temporary,
  current_hash, mark_current_applied, write_document,
}
use cozy_nm.Bridges.Manager.{
  create, update, delete, service_action, apply_project, actions, manager, apply_command,
  action_command, restart_command, create_body, update_body, delete_body, action_body, apply_body,
  restart_body, operation, restart_project,
}
use cozy_nm.Bridges.Ports.{
  has_distinct_ports, validate_document-ok_iff, is_apart, add_port, managed_ports, is_parsable,
}
use cozy_nm.Bridges.Outcomes.{Kept}
use cozy_nm.Bridges.Edits.{create_edit, update_edit, delete_edit, Allows, Breaks, run_edit-atomic}
use cozy_nm.Bridges.Histories.{edit, action, apply, serve_all, IsOrderly, serve_all-IsOrderly}
use cozy_nm.Bridges.Lookups.{expected}
use cozy_nm.Bridges.Results.{run_edit-ok, create-lookup, create-delete, unmanaged-read_only}
use cozy_nm.Bridges.Applied.{apply-not_pending}
use cozy_nm.Bridges.Decimal.{decimal, read_int}
use cozy_nm.Bridges.Names.{is_service_name, is_dns_name}
use cozy_nm.Bridges.View.{
  project_name, collect, runtime_containers, insert_by_service, sort_by_service, configured_names,
  orphans_of, show_service, show_services, checked_document, refused_project, found_containers,
  described_project, project,
}

abbrev lib_1 : Lib Value
lib_1 = record {
  safe_load = some;
  safe_dump = λ v. v;
  sha256 = λ v. "5feceb66";
  empty_project = mapping end;
  repr = λ v. "[]";
  ip_version = λ s. if s == "10.46.0.7" then some 4 else none;
}

abbrev world_1 : World Value
world_1 = record {
  write_fault = none;
  has_directory = true;
  dockerignore_ok = true;
  readable = true;
  run = λ c. completed 0 "done" "";
  containers = λ name. some [];
}

abbrev host_1 : Host
host_1 = record {
  node_ip = "10.46.0.1";
  compose_dir = "/srv/socat";
  compose_dir_name = "socat";
  compose_file = "docker-compose.yml";
}

abbrev ssh : BridgeDefinitionInput
ssh = record { name = "ssh"; listen_port = 2222; target_host = "10.46.0.7"; target_port = 22 }

abbrev web : BridgeDefinitionInput
web = record { name = "web"; listen_port = 80; target_host = "www.example.org"; target_port = 80 }

-- a project with one foreign service
abbrev services_1 : Fields
services_1 = field (text "db") (mapping (field (text "image") (scalar (text "postgres")) end)) end

abbrev document_1 : Document
document_1 = record {
  fields = field (text "services") (mapping services_1) end;
  services = services_1;
}

abbrev files_1 : Files Value
files_1 = record {
  compose = some (mapping (field (text "services") (mapping services_1) end));
  applied_hash = none;
  backups = [];
  issued = [];
}

-- opens the whole model of the bridges for the runs
bridge_code : Unit {0}
unfolding key_is key_text lookup has_key put remove replace is_truthy decimal read_int
    is_service_name is_dns_name integer unknown_keys has_odd_key has_env_keys standard_service
    environment_fields has_text environment_items validate_bridge_input environment_dict publishes
    port_faults input_faults validated shown_name field_faults parse_mapping parse_service
    status_code owner_of doc_services doc_of read_document load_document parse taken_port claim_port
    validate_service validate_services validate_document limited finish error_of ensure_paths locked
    issue run_compose config_command compose_is_valid back_up install interrupt_copy prune
    write_temporary current_hash mark_current_applied pending_apply write_document project_name
    collect runtime_containers insert_by_service sort_by_service configured_names orphans_of
    show_service show_services checked_document refused_project found_containers described_project
    project manager apply_command action_command restart_command create_body update_body delete_body
    action_body apply_body restart_body operation create update delete service_action apply_project
    restart_project is_apart add_port managed_ports is_parsable get assign contains
bridge_code = tt

web_valid : validate_bridge_input lib_1.ip_version web ≡ ok tt
unfolding bridge_code
web_valid = refl

parse_service-standard_service_example :
    parse_service lib_1.repr lib_1.ip_version "web" (standard_service web)
    ≡ some (own_definition web)
parse_service-standard_service_example =
    parse_service-standard_service lib_1.repr lib_1.ip_version web refl web_valid

abbrev ports_doc : Fields
ports_doc =
    field (text "ssh") (standard_service ssh) (field (text "web") (standard_service web) services_1)

validate_document-ok_iff_example :
    (validate_document lib_1 (field (text "services") (mapping ports_doc) end) ≡ ok tt)
    ↔ (has_distinct_ports lib_1 ports_doc ≡ true)
unfolding bridge_code
validate_document-ok_iff_example =
    validate_document-ok_iff lib_1 (field (text "services") (mapping ports_doc) end) ports_doc refl

files_1-loads :
    (world : World Value)
    → world.readable ≡ true
    → (d : Document) × (load_document lib_1 world files_1.compose ≡ ok d)
      × (has_distinct_ports lib_1 d.services ≡ true)
unfolding bridge_code
files_1-loads world r = (document_1, rw r refl, refl)

-- the system fails after the file is replaced
abbrev world_2 : World Value
world_2 = record world_1 { write_fault = some chmod_fault }

serve_all-IsOrderly_example : IsOrderly lib_1 1 (
    serve_all lib_1 host_1
      ((world_2, world_1, edit (create_edit ssh))
        ∷ (world_1, world_1, apply)
        ∷ (world_1, world_1, edit (update_edit "ssh" web))
        ∷ (world_1, world_1, action "web" "restart")
        ∷ (world_1, world_1, edit (delete_edit "web"))
        ∷ [])
      files_1)
serve_all-IsOrderly_example =
    serve_all-IsOrderly lib_1 host_1 (λ v. refl)
      ((world_2, world_1, edit (create_edit ssh))
        ∷ (world_1, world_1, apply)
        ∷ (world_1, world_1, edit (update_edit "ssh" web))
        ∷ (world_1, world_1, action "web" "restart")
        ∷ (world_1, world_1, edit (delete_edit "web"))
        ∷ [])
      0 files_1 (files_1-loads, omega arith)

ssh_interrupted : (create lib_1 host_1 world_2 world_1 ssh files_1).0 ≡ err os_error
unfolding bridge_code
ssh_interrupted = refl

run_edit-atomic_example :
    Kept files_1 (create lib_1 host_1 world_2 world_1 ssh files_1).1
    ⊎ Breaks lib_1 host_1 world_2 world_1
        (create_edit ssh)
        files_1
        (create lib_1 host_1 world_2 world_1 ssh files_1).1
run_edit-atomic_example =
    run_edit-atomic lib_1 host_1 world_2 world_1 (λ v. refl) (create_edit ssh) files_1 os_error
      ssh_interrupted

abbrev files_2 : Files Value
files_2 = (create lib_1 host_1 world_1 world_1 ssh files_1).1

abbrev project_of : Result BridgeFault BridgeProject → BridgeProject
project_of (ok p) = p
project_of (err e) = record {
  node_ip = "";
  compose_dir = "";
  compose_file = "";
  compose_valid = false;
  pending_apply = true;
  services = [];
  orphans = [];
  errors = e ∷ [];
}

ssh_created :
    (create lib_1 host_1 world_1 world_1 ssh files_1).0
    ≡ ok (project_of (create lib_1 host_1 world_1 world_1 ssh files_1).0)
unfolding bridge_code
ssh_created = refl

ssh_deleted :
    (delete lib_1 host_1 world_1 world_1 "ssh" files_2).0
    ≡ ok (project_of (delete lib_1 host_1 world_1 world_1 "ssh" files_2).0)
unfolding bridge_code
ssh_deleted = refl

run_edit-ok_example :
    (d d' : Document) × (load_document lib_1 world_1 files_1.compose ≡ ok d)
    × Allows lib_1 world_1 (create_edit ssh) d
    × (load_document lib_1 world_1 files_2.compose ≡ ok d')
    × ((name : String) → lookup name d'.services ≡ expected (create_edit ssh) d.services name)
    × ((name : String)
        → ("services" == name) ≡ false
        → lookup name d'.fields ≡ lookup name d.fields)
    × (has_distinct_ports lib_1 d'.services ≡ true)
run_edit-ok_example =
    run_edit-ok lib_1 host_1 world_1 world_1 world_1 (λ v. refl) refl (create_edit ssh) files_1
      (project_of (create lib_1 host_1 world_1 world_1 ssh files_1).0) ssh_created

create-lookup_example :
    (d d' : Document) × (load_document lib_1 world_1 files_1.compose ≡ ok d)
    × (load_document lib_1 world_1 files_2.compose ≡ ok d')
    × ((raw : Value) × (lookup "ssh" d'.services ≡ some raw)
        × (parse lib_1 "ssh" raw ≡ some (own_definition ssh)))
    × ((name : String) → ("ssh" == name) ≡ false → lookup name d'.services ≡ lookup name d.services)
create-lookup_example =
    create-lookup lib_1 host_1 world_1 world_1 world_1 (λ v. refl) refl refl ssh files_1
      (project_of (create lib_1 host_1 world_1 world_1 ssh files_1).0) ssh_created

create-delete_example :
    (d d' : Document) × (load_document lib_1 world_1 files_1.compose ≡ ok d)
    × (load_document lib_1 world_1 (delete lib_1 host_1 world_1 world_1 "ssh" files_2).1.compose
        ≡ ok d')
    × (d'.services ≡ d.services)
create-delete_example =
    create-delete lib_1 host_1 world_1 world_1 world_1 (λ v. refl) refl refl ssh files_1
      (project_of (create lib_1 host_1 world_1 world_1 ssh files_1).0)
      (project_of (delete lib_1 host_1 world_1 world_1 "ssh" files_2).0) ssh_created ssh_deleted

abbrev db_value : Value
db_value = mapping (field (text "image") (scalar (text "postgres")) end)

abbrev db_definition : BridgeDefinition
db_definition = or_else (parse lib_1 "db" db_value) (own_definition (record ssh { name = "db" }))

document_1-loads : load_document lib_1 world_1 files_1.compose ≡ ok document_1
unfolding bridge_code
document_1-loads = refl

db_found : lookup "db" services_1 ≡ some db_value
unfolding bridge_code
db_found = refl

db_parses : (parse lib_1 "db" db_value ≡ some db_definition) × (db_definition.managed ≡ false)
unfolding bridge_code
db_parses = (refl, refl)

unmanaged-read_only_example :
    ((v : BridgeDefinitionInput)
      → validate_bridge_input lib_1.ip_version v ≡ ok tt
      → update lib_1 host_1 world_1 world_1 "db" v files_1 ≡ (err read_only, files_1))
    × (delete lib_1 host_1 world_1 world_1 "db" files_1 ≡ (err read_only, files_1))
    × ((action : String)
        → contains action actions ≡ true
        → service_action lib_1 host_1 world_1 world_1 "db" action files_1
          ≡ (err read_only, files_1))
unmanaged-read_only_example =
    unmanaged-read_only lib_1 host_1 world_1 world_1 "db" document_1 db_value db_definition files_1
      refl refl document_1-loads db_found (λ h. absurd (ground arith)) db_parses.0 db_parses.1

abbrev result_of : Result BridgeFault BridgeOperationResult → BridgeOperationResult
result_of (ok r) = r
result_of (err e) = record { message = ""; stdout = ""; stderr = ""; project = project_of (err e) }

applied :
    (apply_project lib_1 host_1 world_1 world_1 files_2).0
    ≡ ok (result_of (apply_project lib_1 host_1 world_1 world_1 files_2).0)
unfolding bridge_code
applied = refl

apply-not_pending_example :
    pending_apply lib_1 (apply_project lib_1 host_1 world_1 world_1 files_2).1 ≡ false
apply-not_pending_example =
    apply-not_pending lib_1 host_1 world_1 world_1 files_2
      (result_of (apply_project lib_1 host_1 world_1 world_1 files_2).0) applied
