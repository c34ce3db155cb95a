-- ===== src/Bridges/Manager.antt =====
-- services/bridges.py: the operations of BridgeManager. `after` is what the surroundings answer while
-- the project is described at the end of a call.
use Prim.Native.String
use cozy_nm.Base.{
  ℕ, String, ◌==◌, Bool, not, ◌&&◌, Option, none, some, if◌then◌else◌, List, [], ◌∷◌, Result, ok,
  err, Exec, pure, raise, lift, reads, ◌>>=◌, ◌>>◌,
}
use cozy_nm.Base.Dicts.{contains}
use cozy_nm.Bridges.Yaml.{
  Value, scalar, null, mapping, Fields, end, field, lookup, has_key, put, remove, replace,
}
use cozy_nm.Bridges.Service.{
  BridgeDefinition, BridgeDefinitionInput, InputFault, standard_service, validate_bridge_input,
}
use cozy_nm.Bridges.State.{
  BridgeFault, not_minion, not_whitelisted, input_refused, already_exists, unknown_bridge,
  read_only, unsupported_action, type_error, Lib, Files, World, Command, installed, Document,
  BridgeProject, BridgeOperationResult, Host,
}
use cozy_nm.Bridges.Document.{load_document, validate_document, parse}
use cozy_nm.Bridges.Compose.{
  locked, run_compose, compose_is_valid, refuse_invalid, mark_current_applied, write_document,
}
use cozy_nm.Bridges.View.{project}

-- BridgeManager.__init__: the mode of the configuration and the host that `bridge_host` finds
unfoldable pub manager : (mode : String) → Option Host → Result BridgeFault Host
manager mode none = err (if mode == "minion" then not_whitelisted else not_minion)
manager mode (some host) = if mode == "minion" then ok host else err not_minion

abbrev pub actions : List String
actions = "start" ∷ "stop" ∷ "restart" ∷ []

-- document with its services replaced
abbrev pub with_services : Document → Fields → Fields
with_services document services = put "services" (mapping services) document.fields

module _ {C : Type 0} where
  abbrev checked_input : Result InputFault (Unit {0}) → Exec (Files C) BridgeFault Unit
  checked_input (ok u) = pure tt
  checked_input (err f) = raise (input_refused f)

  abbrev pub load : Lib C → World C → Exec (Files C) BridgeFault Document
  load lib world = reads λ files. load_document lib world files.compose

  -- the refusal of a definition that is not managed
  abbrev pub managed_only : Option BridgeDefinition → Exec (Files C) BridgeFault Unit
  managed_only none = raise type_error
  managed_only (some b) = if b.managed then pure tt else raise read_only

  -- an entry's value, where the name is known
  abbrev pub entry : Option Value → String → Exec (Files C) BridgeFault Value
  entry none name = raise (unknown_bridge name)
  entry (some v) name = pure v

  -- `raw is None` counts a null entry too
  abbrev pub not_null : Value → String → Exec (Files C) BridgeFault Unit
  not_null (scalar null) name = raise (unknown_bridge name)
  not_null v name = pure tt

  abbrev pub refuse_if : Bool → BridgeFault → Exec (Files C) BridgeFault Unit
  refuse_if b e = if b then raise e else pure tt

  abbrev command : List String → ℕ → Command C
  command arguments timeout = record {
    arguments = arguments;
    compose_file = installed;
    timeout = timeout;
  }

  -- up for a project with services, down for one without
  unfoldable pub apply_command : Fields → Command C
  apply_command end = command ("down" ∷ "--remove-orphans" ∷ []) 120
  apply_command (field k v rest) = command ("up" ∷ "-d" ∷ "--build" ∷ "--remove-orphans" ∷ []) 300

  unfoldable pub action_command : String → String → Command C
  action_command action name = command (action ∷ name ∷ []) 60

  unfoldable pub restart_command : Command C
  restart_command = command ("restart" ∷ []) 120

module _ {C : Type 0} (world : World C) where
  abbrev pub restart_services : Fields → Exec (Files C) BridgeFault (Option (String × String))
  restart_services end = pure none
  restart_services (field k v rest) = do
    result ← run_compose world restart_command
    pure (some result)

module _ {C : Type 0} (lib : Lib C) (world : World C) where
  unfoldable pub create_body : BridgeDefinitionInput → Exec (Files C) BridgeFault Unit
  create_body v = do
    document ← load lib world
    refuse_if (has_key v.name document.services) (already_exists v.name)
    write_document lib world
        (with_services document (put v.name (standard_service v) document.services))

  unfoldable pub update_body : String → BridgeDefinitionInput → Exec (Files C) BridgeFault Unit
  update_body current v = do
    document ← load lib world
    raw ← entry (lookup current document.services) current
    managed_only (parse lib current raw)
    refuse_if (not (v.name == current) && has_key v.name document.services) (already_exists v.name)
    write_document lib world
        (with_services document (replace current v.name (standard_service v) document.services))

  unfoldable pub delete_body : String → Exec (Files C) BridgeFault Unit
  delete_body name = do
    document ← load lib world
    raw ← entry (lookup name document.services) name
    managed_only (parse lib name raw)
    write_document lib world (with_services document (remove name document.services))

  unfoldable pub action_body : String → String → Exec (Files C) BridgeFault (String × String)
  action_body name action = do
    document ← load lib world
    raw ← entry (lookup name document.services) name
    not_null raw name
    managed_only (parse lib name raw)
    run_compose world (action_command action name)

  unfoldable pub apply_body : Exec (Files C) BridgeFault (String × String)
  apply_body = do
    document ← load lib world
    lift (validate_document lib document.fields)
    error ← compose_is_valid world installed
    refuse_invalid error
    result ← run_compose world (apply_command document.services)
    mark_current_applied lib world
    pure result

  unfoldable pub restart_body : Exec (Files C) BridgeFault (Option (String × String))
  restart_body = do document ← load lib world; restart_services world document.services

module _ {C : Type 0} (lib : Lib C) (host : Host) (after : World C) where
  unfoldable pub operation :
      String → String × String → Exec (Files C) BridgeFault BridgeOperationResult
  operation message (out, errors) = do
    view ← project lib host after
    pure (record { message = message; stdout = out; stderr = errors; project = view })

  abbrev pub restarted : Option (String × String) → Exec (Files C) BridgeFault BridgeOperationResult
  restarted none = operation "Compose project has no configured services." ("", "")
  restarted (some result) =
      operation "Compose project restarted without applying saved changes." result

module _ {C : Type 0} (lib : Lib C) (host : Host) (world after : World C) where
  unfoldable pub create : BridgeDefinitionInput → Exec (Files C) BridgeFault BridgeProject
  create v = do
    u ← checked_input (validate_bridge_input lib.ip_version v)
    locked world (create_body lib world v)
    project lib host after

  unfoldable pub update : String → BridgeDefinitionInput → Exec (Files C) BridgeFault BridgeProject
  update current v = do
    u ← checked_input (validate_bridge_input lib.ip_version v)
    locked world (update_body lib world current v)
    project lib host after

  unfoldable pub delete : String → Exec (Files C) BridgeFault BridgeProject
  delete name = locked world (delete_body lib world name) >> project lib host after

  unfoldable pub service_action : String → String → Exec (Files C) BridgeFault BridgeOperationResult
  service_action name action = do
    u ← refuse_if (not (contains action actions)) (unsupported_action action)
    result ← locked world (action_body lib world name action)
    operation lib host after
        (String.◌++◌ "Bridge "
          (String.◌++◌ name (String.◌++◌ " " (String.◌++◌ action " completed."))))
        result

  unfoldable pub apply_project : Exec (Files C) BridgeFault BridgeOperationResult
  apply_project = do
    result ← locked world (apply_body lib world)
    operation lib host after "Compose project applied." result

  unfoldable pub restart_project : Exec (Files C) BridgeFault BridgeOperationResult
  restart_project = do
    result ← locked world (restart_body lib world)
    restarted lib host after result
