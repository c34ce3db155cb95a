-- ===== src/Bridges/State.antt =====
-- services/bridges.py: the errors, the files of a Compose project, and what its surroundings answer.
-- The contents of the Compose file are of a type `C` that the YAML library reads and writes.
use cozy_nm.Base.{ℕ, String, Bool, Option, none, some, List}
use cozy_nm.Bridges.Yaml.{Value, Fields}
use cozy_nm.Bridges.Service.{InputFault, BridgeDefinition}

pub data BridgeFault : Type 0 where
  not_minion : BridgeFault
  not_whitelisted : BridgeFault
  input_refused : InputFault → BridgeFault
  no_directory : BridgeFault
  no_dockerignore : BridgeFault
  unreadable : BridgeFault
  document_not_mapping : BridgeFault
  services_not_mapping : BridgeFault
  port_used : (port : ℕ) → (owner : String) → BridgeFault
  already_exists : String → BridgeFault
  unknown_bridge : String → BridgeFault
  read_only : BridgeFault
  unsupported_action : String → BridgeFault
  compose_unavailable : BridgeFault
  compose_timed_out : BridgeFault
  compose_failed : (stdout : String) → (stderr : String) → BridgeFault
  compose_refused : BridgeFault → BridgeFault
  containers_unreadable : BridgeFault
  type_error : BridgeFault
  os_error : BridgeFault

-- `status_code`; none for TypeError and OSError, which are no BridgeManagerError
unfoldable pub status_code : BridgeFault → Option ℕ
status_code not_minion = some 404
status_code not_whitelisted = some 403
status_code (input_refused f) = some 400
status_code no_directory = some 503
status_code no_dockerignore = some 503
status_code unreadable = some 503
status_code document_not_mapping = some 400
status_code services_not_mapping = some 400
status_code (port_used p o) = some 400
status_code (already_exists n) = some 409
status_code (unknown_bridge n) = some 404
status_code read_only = some 409
status_code (unsupported_action a) = some 400
status_code compose_unavailable = some 503
status_code compose_timed_out = some 409
status_code (compose_failed o e) = some 409
status_code (compose_refused f) = some 400
status_code containers_unreadable = some 503
status_code type_error = none
status_code os_error = none

module _ (C : Type 0) where
  -- the file that a command reads: the project's, or the temporary one with the contents to install
  pub data ComposeArgument : Type 0 where
    installed : ComposeArgument
    temporary : C → ComposeArgument

  pub record Command : Type 0 where
    pub arguments : List String
    pub compose_file : ComposeArgument
    pub timeout : ℕ

  -- where the operating system fails while a file is written: at the temporary file; at the copy, of which
  -- something may be left; at the replacement; at its mode; or at a stale backup, after some were removed
  pub data WriteFault : Type 0 where
    temporary_fault : WriteFault
    copy_fault : (left : Option C) → WriteFault
    replace_fault : WriteFault
    chmod_fault : WriteFault
    unlink_fault : (removed : ℕ) → WriteFault

  -- the libraries: yaml (none for YAMLError), hashlib's sha256 as hexadecimal digits, `str` of a
  -- collection, the version that ipaddress finds, and the contents b"services: {}\n"
  pub record Lib : Type 0 where
    pub safe_load : C → Option Value
    pub safe_dump : Value → C
    pub sha256 : C → String
    pub empty_project : C
    pub repr : Value → String
    pub ip_version : String → Option ℕ

  -- the files below the Compose directory, and the commands issued, the last one first
  pub record Files : Type 0 where
    pub compose : Option C
    pub applied_hash : Option String
    pub backups : List C
    pub issued : List Command

pub data Outcome : Type 0 where
  unavailable : Outcome
  timed_out : Outcome
  completed : (returncode : ℕ) → (stdout : String) → (stderr : String) → Outcome

-- a container of the project as the Docker library lists it
pub record Container : Type 0 where
  pub service : Option String
  pub name : String
  pub state : String
  pub status : String

-- what the surroundings answer while a call runs
pub record World (C : Type 0) : Type 0 where
  pub has_directory : Bool
  pub dockerignore_ok : Bool
  pub readable : Bool
  pub run : Command C → Outcome
  pub containers : String → Option (List Container)
  pub write_fault : Option (WriteFault C)

-- the keys of the document beside the services, which it also holds
pub record Document : Type 0 where
  pub fields : Fields
  pub services : Fields

pub record BridgeOrphan : Type 0 where
  pub name : String
  pub service : String
  pub state : String
  pub status : String

-- a service with the state of its container, where it has one
pub record ShownService : Type 0 where
  pub definition : BridgeDefinition
  pub runtime_state : Option String
  pub runtime_status : Option String

pub record BridgeProject : Type 0 where
  pub node_ip : String
  pub compose_dir : String
  pub compose_file : String
  pub compose_valid : Bool
  pub pending_apply : Bool
  pub services : List ShownService
  pub orphans : List BridgeOrphan
  pub errors : List BridgeFault

pub record BridgeOperationResult : Type 0 where
  pub message : String
  pub stdout : String
  pub stderr : String
  pub project : BridgeProject

-- BridgeHostConfig, with the last component of `compose_dir`
pub record Host : Type 0 where
  pub node_ip : String
  pub compose_dir : String
  pub compose_dir_name : String
  pub compose_file : String
