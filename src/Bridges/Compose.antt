-- ===== src/Bridges/Compose.antt =====
-- services/bridges.py: _limited, _ensure_paths, _locked, _run_compose, _compose_is_valid,
-- mark_current_applied, _pending_apply and _write_document. A backup's name grows with the time, so the
-- backups stand in the order in which they were written. Faults of the operating system are the ones in
-- `World`. The text of .dockerignore is left out.
use Prim.Native.String.{count}
use cozy_nm.Base.{
  ℕ, ◌-◌, String, ◌==◌, Bool, true, not, Option, none, some, if◌then◌else◌, nat_eq, List, [], ◌∷◌,
  ◌++◌, take_last, length, drop, ltb, or_else, Result, ok, err, Exec, pure, raise, lift, ◌>>=◌,
  ◌>>◌,
}
use cozy_nm.Bridges.Names.{drop_text}
use cozy_nm.Bridges.Yaml.{Fields, mapping}
use cozy_nm.Bridges.State.{
  BridgeFault, no_directory, no_dockerignore, compose_unavailable, compose_timed_out,
  compose_failed, compose_refused, Lib, Files, World, Command, ComposeArgument, os_error, temporary,
  Outcome, WriteFault, temporary_fault, copy_fault, replace_fault, chmod_fault, unlink_fault,
  unavailable, timed_out, completed,
}
use cozy_nm.Bridges.Document.{validate_document}

abbrev pub max_command_output : ℕ
max_command_output = 4000

-- value[-MAX_COMMAND_OUTPUT:]
unfoldable pub limited : String → String
limited s = drop_text (count s - max_command_output) s

abbrev pub max_backups : ℕ
max_backups = 20

unfoldable pub finish : (check : Bool) → Outcome → Result BridgeFault (String × String)
finish check unavailable = err compose_unavailable
finish check timed_out = err compose_timed_out
finish check (completed code out errors) =
    if check
    then if nat_eq code 0
      then ok (limited out, limited errors)
      else err (compose_failed (limited out) (limited errors))
    else ok (limited out, limited errors)

-- the error that a run ended with
unfoldable pub error_of : {A : Type 0} → Result BridgeFault A → Option BridgeFault
error_of (ok a) = none
error_of (err e) = some e

module _ {C : Type 0} where
  unfoldable pub ensure_paths : World C → Exec (Files C) BridgeFault Unit
  ensure_paths world =
      if not world.has_directory
      then raise no_directory
      else if not world.dockerignore_ok
      then raise no_dockerignore
      else pure tt

  unfoldable pub locked :
      {A : Type 0} → World C → Exec (Files C) BridgeFault A → Exec (Files C) BridgeFault A
  locked world body = ensure_paths world >> body

  unfoldable pub issue : Command C → Files C → Files C
  issue c files = record files { issued = c ∷ files.issued }

  unfoldable pub run_compose : World C → Command C → Exec (Files C) BridgeFault (String × String)
  run_compose world c files = (finish true (world.run c), issue c files)

  unfoldable pub config_command : ComposeArgument C → Command C
  config_command file = record {
    arguments = "config" ∷ "--quiet" ∷ [];
    compose_file = file;
    timeout = 30;
  }

  unfoldable pub compose_is_valid :
      World C → ComposeArgument C → Exec (Files C) BridgeFault (Option BridgeFault)
  compose_is_valid world file files =
      let (r, t) = run_compose world (config_command file) files in (ok (error_of r), t)

  abbrev pub refuse_invalid : Option BridgeFault → Exec (Files C) BridgeFault Unit
  refuse_invalid none = pure tt
  refuse_invalid (some e) = raise (compose_refused e)

  unfoldable pub back_up : Option C → List C → List C
  back_up none backups = backups
  back_up (some contents) backups = backups ++ contents ∷ []

  -- the file and its copy, before a stale backup is removed
  abbrev pub replaced : C → Files C → Files C
  replaced rendered files = record files {
    compose = some rendered;
    backups = back_up files.compose files.backups;
  }

  -- backups[:-20] are removed
  unfoldable pub prune : Files C → Files C
  prune files = record files { backups = take_last max_backups files.backups }

  -- there is a copy only of a file that exists
  unfoldable pub interrupt_copy : (left : Option C) → C → Option C → Exec (Files C) BridgeFault Unit
  interrupt_copy left rendered none files = (ok tt, prune (replaced rendered files))
  interrupt_copy left rendered (some contents) files =
      (err os_error, record files { backups = back_up left files.backups })

  -- the copy to the backups, the replacement, the removal of the stale backups
  unfoldable pub install : Option (WriteFault C) → C → Exec (Files C) BridgeFault Unit
  install none rendered files = (ok tt, prune (replaced rendered files))
  install (some temporary_fault) rendered files = (ok tt, prune (replaced rendered files))
  install (some (copy_fault left)) rendered files = interrupt_copy left rendered files.compose files
  install (some replace_fault) rendered files =
      (err os_error, record files { backups = back_up files.compose files.backups })
  install (some chmod_fault) rendered files = (err os_error, replaced rendered files)
  install (some (unlink_fault removed)) rendered files =
      let copies = back_up files.compose files.backups in
      if ltb removed (length copies - max_backups)
      then (err os_error, record files { compose = some rendered; backups = drop removed copies })
      else (ok tt, prune (replaced rendered files))

  -- mkstemp, the text and the mode of the temporary file
  unfoldable pub write_temporary : Option (WriteFault C) → Exec (Files C) BridgeFault Unit
  write_temporary (some temporary_fault) = raise os_error
  write_temporary _ = pure tt

module _ {C : Type 0} (lib : Lib C) where
  unfoldable pub current_hash : Files C → String
  current_hash files = lib.sha256 (or_else files.compose lib.empty_project)

  unfoldable pub mark_current_applied : World C → Exec (Files C) BridgeFault Unit
  mark_current_applied world = ensure_paths world >> λ files.
      (ok tt, record files { applied_hash = some (current_hash files) })

  unfoldable pub pending_apply : Files C → Bool
  pending_apply files = elim files.applied_hash [
    | none ↦ true
    | some applied ↦ not (applied == current_hash files)
  ]

  unfoldable pub write_document : World C → Fields → Exec (Files C) BridgeFault Unit
  write_document world fields = do
    u ← lift (validate_document lib fields)
    ensure_paths world
    write_temporary world.write_fault
    error ← compose_is_valid world (temporary (lib.safe_dump (mapping fields)))
    refuse_invalid error
    install world.write_fault (lib.safe_dump (mapping fields))
