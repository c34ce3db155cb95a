-- ===== src/Bridges/Steady.antt =====
-- The calls that only run commands: they leave the Compose file and its backups.
use cozy_nm.Base.{
  ◌≡◌, refl, ◌∙◌, String, Bool, true, false, not, Option, none, some, arith, Result, ok, err, Exec,
  lift, ◌>>=◌,
}
use cozy_nm.Base.Dicts.{contains}
use cozy_nm.Bridges.Yaml.{Value, Fields, end, field, lookup}
use cozy_nm.Bridges.Service.{BridgeDefinition}
use cozy_nm.Bridges.State.{
  BridgeFault, Lib, Files, World, Command, ComposeArgument, installed, Host, unsupported_action,
}
use cozy_nm.Bridges.Document.{validate_document, parse}
use cozy_nm.Bridges.Compose.{
  ensure_paths, locked, run_compose, compose_is_valid, issue, refuse_invalid, mark_current_applied,
}
use cozy_nm.Bridges.Manager.{
  load, entry, not_null, managed_only, refuse_if, actions, action_command, apply_command,
  restart_command, action_body, apply_body, restart_body, restart_services, operation, restarted,
  service_action, apply_project, restart_project,
}
use cozy_nm.Bridges.View.{project}
use cozy_nm.Bridges.ViewLaws.{project-Kept}

module _ {C : Type 0} where
  abbrev pub IsSteady : {A : Type 0} → Exec (Files C) BridgeFault A → Type 0
  IsSteady m =
      (files : Files C)
      → ((m files).1.compose ≡ files.compose) × ((m files).1.backups ≡ files.backups)

  continue-IsSteady :
      {A B : Type 0} (r : Result BridgeFault A) (f : A → Exec (Files C) BridgeFault B)
      → ((a : A) → IsSteady (f a))
      → IsSteady ((lift r) >>= f)
  continue-IsSteady (ok a) f h files = h a files
  continue-IsSteady (err e) f h files = (refl, refl)

  bind-IsSteady :
      {A B : Type 0} (m : Exec (Files C) BridgeFault A) (f : A → Exec (Files C) BridgeFault B)
      → IsSteady m
      → ((a : A) → IsSteady (f a))
      → IsSteady (m >>= f)
  bind-IsSteady m f h k files =
      let (c, b) = h files in
      let (c', b') = continue-IsSteady (m files).0 f k (m files).1 in (c' ∙ c, b' ∙ b)

  lift-IsSteady : {A : Type 0} (r : Result BridgeFault A) → IsSteady (lift r)
  lift-IsSteady r files = (refl, refl)

  ensure_paths-IsSteady : (world : World C) → IsSteady (ensure_paths world)
  unfolding ensure_paths
  ensure_paths-IsSteady world files = ground arith

  locked-IsSteady :
      {A : Type 0} (world : World C) (m : Exec (Files C) BridgeFault A)
      → IsSteady m
      → IsSteady (locked world m)
  unfolding locked
  locked-IsSteady world m h =
      bind-IsSteady (ensure_paths world) (λ _. m) (ensure_paths-IsSteady world) (λ u. h)

  run_compose-IsSteady : (world : World C) (c : Command C) → IsSteady (run_compose world c)
  unfolding run_compose issue
  run_compose-IsSteady world c files = (refl, refl)

  compose_is_valid-IsSteady :
      (world : World C) (c : ComposeArgument C) → IsSteady (compose_is_valid world c)
  unfolding compose_is_valid run_compose issue
  compose_is_valid-IsSteady world c files = (refl, refl)

  refuse_invalid-IsSteady : (e : Option BridgeFault) → IsSteady (refuse_invalid e)
  refuse_invalid-IsSteady none files = (refl, refl)
  refuse_invalid-IsSteady (some e) files = (refl, refl)

  entry-IsSteady : (o : Option Value) (name : String) → IsSteady (entry o name)
  entry-IsSteady none name files = (refl, refl)
  entry-IsSteady (some v) name files = (refl, refl)

  refuse_if-IsSteady : (b : Bool) (e : BridgeFault) → IsSteady (refuse_if b e)
  refuse_if-IsSteady true e files = (refl, refl)
  refuse_if-IsSteady false e files = (refl, refl)

  not_null-IsSteady : (v : Value) (name : String) → IsSteady (not_null v name)
  not_null-IsSteady v name files = ground arith

  managed_only-IsSteady : (o : Option BridgeDefinition) → IsSteady (managed_only o)
  managed_only-IsSteady none files = (refl, refl)
  managed_only-IsSteady (some b) files = ground arith

module _ {C : Type 0} (lib : Lib C) (host : Host) (world after : World C) where
  project-IsSteady : IsSteady (project lib host after)
  project-IsSteady files = let (c, a, b) = project-Kept lib host after files in (c, b)

  operation-IsSteady :
      (message : String) (r : String × String) → IsSteady (operation lib host after message r)
  unfolding operation
  operation-IsSteady message (out, errors) =
      bind-IsSteady (project lib host after) _ project-IsSteady (λ v files. (refl, refl))

  mark_current_applied-IsSteady : IsSteady (mark_current_applied lib world)
  unfolding mark_current_applied
  mark_current_applied-IsSteady =
      bind-IsSteady (ensure_paths world) _ (ensure_paths-IsSteady world) (λ u files. (refl, refl))

  action_body-IsSteady : (name action : String) → IsSteady (action_body lib world name action)
  unfolding action_body
  action_body-IsSteady name action =
      bind-IsSteady (load lib world) _ (λ files. (refl, refl))
        λ d. bind-IsSteady (entry (lookup name d.services) name) _ (entry-IsSteady _ name) λ raw.
          bind-IsSteady (not_null raw name) _ (not_null-IsSteady raw name) λ u.
            bind-IsSteady (managed_only (parse lib name raw)) _ (managed_only-IsSteady _)
              λ u'. run_compose-IsSteady world (action_command action name)

  pub service_action-IsSteady :
      (name action : String) → IsSteady (service_action lib host world after name action)
  unfolding service_action
  service_action-IsSteady name action =
      bind-IsSteady (refuse_if (not (contains action actions)) (unsupported_action action)) _
        (refuse_if-IsSteady _ _)
        λ u.
          bind-IsSteady (locked world (action_body lib world name action)) _
            (locked-IsSteady world _ (action_body-IsSteady name action)) λ r. operation-IsSteady _ r

  apply_body-IsSteady : IsSteady (apply_body lib world)
  unfolding apply_body
  apply_body-IsSteady =
      bind-IsSteady (load lib world) _ (λ files. (refl, refl))
        λ d.
          bind-IsSteady (lift (validate_document lib d.fields)) _
            (lift-IsSteady (validate_document lib d.fields))
            λ u.
              bind-IsSteady (compose_is_valid world installed) _
                (compose_is_valid-IsSteady world installed)
                λ e. bind-IsSteady (refuse_invalid e) _ (refuse_invalid-IsSteady e) λ u'.
                  bind-IsSteady (run_compose world (apply_command d.services)) _
                    (run_compose-IsSteady world _)
                    λ r.
                      bind-IsSteady (mark_current_applied lib world) _ mark_current_applied-IsSteady
                        (λ u'' files. (refl, refl))

  pub apply_project-IsSteady : IsSteady (apply_project lib host world after)
  unfolding apply_project
  apply_project-IsSteady =
      bind-IsSteady (locked world (apply_body lib world)) _
        (locked-IsSteady world _ apply_body-IsSteady) λ r. operation-IsSteady _ r

  restart_services-IsSteady : (services : Fields) → IsSteady (restart_services world services)
  restart_services-IsSteady end files = (refl, refl)
  restart_services-IsSteady (field k v rest) files =
      bind-IsSteady (run_compose world restart_command) _ (run_compose-IsSteady world _)
        (λ r files'. (refl, refl)) files

  restart_body-IsSteady : IsSteady (restart_body lib world)
  unfolding restart_body
  restart_body-IsSteady =
      bind-IsSteady (load lib world) _ (λ files. (refl, refl))
        (λ d. restart_services-IsSteady d.services)

  restarted-IsSteady : (o : Option (String × String)) → IsSteady (restarted lib host after o)
  restarted-IsSteady none = operation-IsSteady _ _
  restarted-IsSteady (some r) = operation-IsSteady _ r

  pub restart_project-IsSteady : IsSteady (restart_project lib host world after)
  unfolding restart_project
  restart_project-IsSteady =
      bind-IsSteady (locked world (restart_body lib world)) _
        (locked-IsSteady world _ restart_body-IsSteady) λ o. restarted-IsSteady o
