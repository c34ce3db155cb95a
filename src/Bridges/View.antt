-- ===== src/Bridges/View.antt =====
-- services/bridges.py: _project_name, _runtime_containers and project.
use cozy_nm.Base.{
  String, true, false, not, Option, none, some, is_some, if◌then◌else◌, is_empty, List, [], ◌∷◌,
  ◌++◌, map, select, Result, ok, err, Exec, pure, raise, lift, ◌>>=◌, or_else, bind_result,
}
use cozy_nm.Base.Dicts.{Dict, get, assign, contains}
use cozy_nm.Bridges.Names.{text_before}
use cozy_nm.Bridges.Yaml.{Value, Fields, end, field, key_text, lookup, is_truthy}
use cozy_nm.Bridges.Service.{BridgeDefinition, value_text}
use cozy_nm.Bridges.State.{
  BridgeFault, type_error, containers_unreadable, Lib, Files, World, installed, Container, Document,
  BridgeOrphan, ShownService, BridgeProject, Host,
}
use cozy_nm.Bridges.Document.{load_document, validate_document, parse}
use cozy_nm.Bridges.Compose.{compose_is_valid, pending_apply}

abbrev pub Runtime : Type 0
Runtime = Dict Container

unfoldable pub project_name : (Value → String) → Host → Option Value → String
project_name repr host (some v) = if is_truthy v then value_text repr v else host.compose_dir_name
project_name repr host none = host.compose_dir_name

-- the loop of `runtime_containers`: a container without a service is skipped, a later one replaces
unfoldable pub collect : List Container → Runtime → Runtime
collect [] runtime = runtime
collect (c ∷ cs) runtime =
    collect cs
      (if is_empty (or_else c.service "") then runtime else assign (or_else c.service "") c runtime)

unfoldable pub runtime_containers : Option (List Container) → Result BridgeFault Runtime
runtime_containers none = err containers_unreadable
runtime_containers (some cs) = ok (collect cs [])

unfoldable pub insert_by_service : String × Container → Runtime → Runtime
insert_by_service c [] = c ∷ []
insert_by_service c (d ∷ ds) =
    let rest = insert_by_service c ds in if text_before d.0 c.0 then d ∷ rest else c ∷ d ∷ ds

-- sorted(runtime.items()): every service stands in it once
unfoldable pub sort_by_service : Runtime → Runtime
sort_by_service [] = []
sort_by_service (c ∷ cs) = insert_by_service c (sort_by_service cs)

unfoldable pub configured_names : Fields → List String
configured_names end = []
configured_names (field k v rest) = key_text k ∷ configured_names rest

unfoldable pub orphans_of : List String → Runtime → List BridgeOrphan
orphans_of names runtime =
    map (λ c. record { name = c.1.name; service = c.0; state = c.1.state; status = c.1.status })
      (select (λ c. not (contains c.0 names)) (sort_by_service runtime))

unfoldable pub show_service : Option Container → BridgeDefinition → ShownService
show_service none b = record { definition = b; runtime_state = none; runtime_status = none }
show_service (some c) b = record {
  definition = record b { container_name = some c.name };
  runtime_state = some c.state;
  runtime_status = some c.status;
}

abbrev pub errors_of : {A : Type 0} → Result BridgeFault A → List BridgeFault
errors_of (ok a) = []
errors_of (err e) = e ∷ []

abbrev pub option_list : Option BridgeFault → List BridgeFault
option_list none = []
option_list (some e) = e ∷ []

abbrev pub ok_or : {A : Type 0} → Result BridgeFault A → A → A
ok_or (ok a) d = a
ok_or (err e) d = d

module _ {C : Type 0} (lib : Lib C) where
  abbrev shown : Option BridgeDefinition → Result BridgeFault BridgeDefinition
  shown none = err type_error
  shown (some b) = ok b

  unfoldable pub show_services : Runtime → Fields → Result BridgeFault (List ShownService)
  show_services runtime end = ok []
  show_services runtime (field k v rest) = bind_result (shown (parse lib (key_text k) v)) λ b.
      bind_result (show_services runtime rest)
        λ more. ok (show_service (get (key_text k) runtime) b ∷ more)

  unfoldable pub checked_document : World C → Files C → Result BridgeFault Document
  checked_document world files =
      bind_result (load_document lib world files.compose)
        λ document. bind_result (validate_document lib document.fields) λ u. ok document

module _ {C : Type 0} (lib : Lib C) (host : Host) where
  -- the answer for a document that is refused; TypeError passes on
  unfoldable pub refused_project : BridgeFault → Exec (Files C) BridgeFault BridgeProject
  refused_project type_error = raise type_error
  refused_project e = pure (record {
    node_ip = host.node_ip;
    compose_dir = host.compose_dir;
    compose_file = host.compose_file;
    compose_valid = false;
    pending_apply = true;
    services = [];
    orphans = [];
    errors = e ∷ [];
  })

  unfoldable pub found_containers : World C → Document → Result BridgeFault Runtime
  found_containers world document =
      runtime_containers
        (world.containers (project_name lib.repr host (lookup "name" document.fields)))

  unfoldable pub described_project : World C → Document → Exec (Files C) BridgeFault BridgeProject
  described_project world document =
      let found = found_containers world document in
      let runtime = ok_or found [] in
      do
        error ← compose_is_valid world installed
        services ← lift (show_services lib runtime document.services)
        λ files. (
          ok (record {
            node_ip = host.node_ip;
            compose_dir = host.compose_dir;
            compose_file = host.compose_file;
            compose_valid = not (is_some error);
            pending_apply = pending_apply lib files;
            services = services;
            orphans = orphans_of (configured_names document.services) runtime;
            errors = option_list error ++ errors_of found;
          }),
          files,
        )

  abbrev pub answer :
      World C → Result BridgeFault Document → Exec (Files C) BridgeFault BridgeProject
  answer world (ok document) = described_project world document
  answer world (err e) = refused_project e

  unfoldable pub project : World C → Exec (Files C) BridgeFault BridgeProject
  project world files = answer world (checked_document lib world files) files
