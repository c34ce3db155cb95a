-- ===== src/Minion/Api.antt =====
-- api/minion.py: the token guard, the construction of the manager, and the handlers of the bridge API.
-- The guard stands in the decorators of the routes, so it runs before the manager is built. A header is
-- a text of Latin-1 characters; `health` and `snapshot` belong to the collectors and are left out.
use Prim.Native.String.{[], ◌∷◌}
use cozy_nm.Base.{
  ℕ, ◌+◌, String, code, ◌==◌, Bool, true, false, not, ◌&&◌, Option, none, some, if◌then◌else◌,
  nat_eq, leb, ltb, is_empty, all_chars, take_until, or_else, Result, ok, err,
}
use cozy_nm.Bridges.Service.{BridgeDefinitionInput}
use cozy_nm.Bridges.State.{
  BridgeFault, status_code, Lib, Files, World, BridgeProject, BridgeOperationResult, Host,
}
use cozy_nm.Bridges.Manager.{
  manager, create, update, delete, service_action, apply_project, restart_project,
}
use cozy_nm.Bridges.View.{project}

-- the part of AppConfig that the API reads; `host` is what `bridge_host` finds
pub record MinionConfig : Type 0 where
  pub mode : String
  pub bridge_api_token : String
  pub host : Option Host

-- what stands behind the first space, as `partition` gives it
unfoldable pub behind_space : String → String
behind_space [] = []
behind_space (c ∷ s) = let rest = behind_space s in if nat_eq (code c) b' ' then s else rest

abbrev lower : ℕ → ℕ
lower c = if leb b'A' c && leb c b'Z' then c + 32 else c

-- s.lower() == wanted, for a wanted text of small letters
unfoldable pub is_lowered : String → String → Bool
is_lowered [] [] = true
is_lowered [] (d ∷ t) = false
is_lowered (c ∷ s) [] = false
is_lowered (c ∷ s) (d ∷ t) = nat_eq (lower (code c)) (code d) && is_lowered s t

unfoldable pub is_ascii : String → Bool
is_ascii s = all_chars (λ c. ltb c 128) s

-- hmac.compare_digest on texts: none for TypeError
unfoldable pub compare_digest : String → String → Option Bool
compare_digest a b = if is_ascii a && is_ascii b then some (a == b) else none

abbrev pub server_error : ℕ
server_error = 500

abbrev compared : Option Bool → Result ℕ (Unit {0})
compared none = err server_error
compared (some same) = if same then ok tt else err 401

-- the status that the guard answers with, if it refuses
unfoldable pub require_bridge_token : MinionConfig → Option String → Result ℕ (Unit {0})
require_bridge_token config authorization =
    let expected = config.bridge_api_token in
    let header = or_else authorization "" in
    let scheme = take_until (nat_eq b' ') header in
    let supplied = behind_space header in
    if not (config.mode == "minion")
    then err 404
    else if is_empty expected
    then err 503
    else if not (is_lowered scheme "bearer")
    then err 401
    else compared (compare_digest supplied expected)

pub data ApiCall : Type 0 where
  list_bridges : ApiCall
  create_bridge : BridgeDefinitionInput → ApiCall
  update_bridge : String → BridgeDefinitionInput → ApiCall
  delete_bridge : String → ApiCall
  bridge_action : (name : String) → (verb : String) → ApiCall
  apply_bridge_project : ApiCall
  restart_bridge_project : ApiCall

-- the status and the body; an error's body is made of the fault
pub data Response : Type 0 where
  project_body : BridgeProject → Response
  operation_body : BridgeOperationResult → Response
  bridge_error : (status : ℕ) → BridgeFault → Response
  refused : (status : ℕ) → Response

abbrev with_body : {A : Type 0} → (A → Response) → Result BridgeFault A → Response
with_body body (ok a) = body a
with_body body (err e) = bridge_error (or_else (status_code e) server_error) e

-- `list_bridges` catches nothing
abbrev uncaught : Result BridgeFault BridgeProject → Response
uncaught (ok p) = project_body p
uncaught (err e) = bridge_error server_error e

module _ {C : Type 0} (lib : Lib C) (world after : World C) where
  unfoldable pub dispatch : Host → ApiCall → Files C → Response × Files C
  dispatch host list_bridges files = let (r, t) = project lib host after files in (uncaught r, t)
  dispatch host (create_bridge v) files =
      let (r, t) = create lib host world after v files in (with_body project_body r, t)
  dispatch host (update_bridge name v) files =
      let (r, t) = update lib host world after name v files in (with_body project_body r, t)
  dispatch host (delete_bridge name) files =
      let (r, t) = delete lib host world after name files in (with_body project_body r, t)
  dispatch host (bridge_action name verb) files =
      let (r, t) = service_action lib host world after name verb files in
      (with_body operation_body r, t)
  dispatch host apply_bridge_project files =
      let (r, t) = apply_project lib host world after files in (with_body operation_body r, t)
  dispatch host restart_bridge_project files =
      let (r, t) = restart_project lib host world after files in (with_body operation_body r, t)

  abbrev managed : Result BridgeFault Host → ApiCall → Files C → Response × Files C
  managed (ok host) call files = dispatch host call files
  managed (err e) call files = (refused (or_else (status_code e) server_error), files)

  abbrev guarded : Result ℕ (Unit {0}) → MinionConfig → ApiCall → Files C → Response × Files C
  guarded (err status) config call files = (refused status, files)
  guarded (ok u) config call files = managed (manager config.mode config.host) call files

  unfoldable pub handle : MinionConfig → Option String → ApiCall → Files C → Response × Files C
  handle config authorization call files =
      guarded (require_bridge_token config authorization) config call files
