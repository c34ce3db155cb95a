-- ===== src/Bridges/Outcomes.antt =====
-- The ways in which the operations that write the Compose file can end.
use cozy_nm.Base.{
  ℕ, ◌≤◌, ◌-◌, ◌≡◌, refl, arith, ltb, drop, length, is_some, [], ◌∷◌, ◌++◌, none, Option, String,
  ◌==◌, true, false, not, some, take_last, Result, ok, err, Bool-cases, Option-cases, Result-cases,
  inl, inr, ◌⊎◌, ◌&&◌,
}
use cozy_nm.Bridges.Yaml.{Value, mapping, Fields, lookup, has_key, put, remove, replace}
use cozy_nm.Bridges.Service.{BridgeDefinition, BridgeDefinitionInput, standard_service}
use cozy_nm.Bridges.State.{
  BridgeFault, Lib, Files, World, temporary, Document, os_error, WriteFault, temporary_fault,
  copy_fault, replace_fault, chmod_fault, unlink_fault,
}
use cozy_nm.Bridges.Document.{load_document, validate_document, parse}
use cozy_nm.Bridges.Compose.{
  max_backups, ensure_paths, write_document, run_compose, config_command, error_of, finish,
  compose_is_valid, issue, install, back_up, interrupt_copy, prune, write_temporary,
}
use cozy_nm.Bridges.Manager.{create_body, update_body, delete_body, with_services}

module _ {C : Type 0} where
  -- the files as they were, but for the commands issued
  abbrev pub Kept : Files C → Files C → Type 0
  Kept files t =
      (t.compose ≡ files.compose)
      × (t.applied_hash ≡ files.applied_hash)
      × (t.backups ≡ files.backups)

  -- the contents installed, the old ones among the last backups
  abbrev pub Installed : C → Files C → Files C → Type 0
  Installed contents files t =
      (t.compose ≡ some contents)
      × (t.applied_hash ≡ files.applied_hash)
      × (t.backups ≡ take_last max_backups (back_up files.compose files.backups))

  -- A write that was interrupted: the file is as it was, with one more backup, or it has the new
  -- contents, and its old ones are the last backup.
  abbrev pub Interrupted : C → Files C → Files C → Type 0
  Interrupted contents files t =
      (t.applied_hash ≡ files.applied_hash)
      × (((t.compose ≡ files.compose) × ((copy : C) × (t.backups ≡ files.backups ++ copy ∷ [])))
          ⊎ ((t.compose ≡ some contents)
              × ((n : ℕ) × (t.backups ≡ drop n (back_up files.compose files.backups))
                  × (n ≤ length (back_up files.compose files.backups) - max_backups))))

  abbrev pub Fails : Result BridgeFault Unit × Files C → Files C → Type 0
  Fails (r, t) files = ((e : BridgeFault) × (r ≡ err e)) × Kept files t

module _ {C : Type 0} (rendered : C) (files : Files C) where
  -- how an installation can end
  abbrev Installs : (fault : Option (WriteFault C)) → Result BridgeFault Unit × Files C → Type 0
  Installs fault (r, t) =
      ((r ≡ ok tt) × Installed rendered files t)
      ⊎ (((r ≡ err os_error) × (is_some fault ≡ true) × Interrupted rendered files t)
          ⊎ Fails (r, t) files)

  backed_up :
      (fault : WriteFault C) (copy : Option C)
      → Installs (some fault) (err os_error, record files { backups = back_up copy files.backups })
  unfolding back_up
  backed_up fault none = inr (inr ((_, refl), (refl, refl, refl)))
  backed_up fault (some copy) = inr (inl (refl, refl, (refl, inl (refl, (copy, refl)))))

  copied :
      (left : Option C) (contents : Option C)
      → files.compose ≡ contents
      → Installs (some (copy_fault left)) (interrupt_copy left rendered contents files)
  unfolding interrupt_copy prune
  copied left none h = inl (refl, (refl, refl, refl))
  copied left (some contents) h = backed_up (copy_fault left) left

  install-outcome : (fault : Option (WriteFault C)) → Installs fault (install fault rendered files)
  unfolding install prune
  install-outcome none = inl (refl, (refl, refl, refl))
  install-outcome (some temporary_fault) = inl (refl, (refl, refl, refl))
  install-outcome (some (copy_fault left)) = copied left files.compose refl
  install-outcome (some replace_fault) = backed_up replace_fault files.compose
  install-outcome (some chmod_fault) =
      inr (inl (refl, refl, (refl, inr (refl, (0, refl, omega arith)))))
  install-outcome (some (unlink_fault removed)) =
      elim (Bool-cases (ltb removed (length (back_up files.compose files.backups) - max_backups))) [
        | inr e ↦ rw e (inl (refl, (refl, refl, refl)))
        | inl e ↦ rw e (inr (inl (refl, refl, (refl, inr (refl, (removed, refl, ground arith))))))
      ]

write_temporary-cases :
    {C : Type 0} (fault : Option (WriteFault C)) (files : Files C)
    → (write_temporary fault files ≡ (ok tt, files))
      ⊎ (write_temporary fault files ≡ (err os_error, files))
unfolding write_temporary
write_temporary-cases none files = inl refl
write_temporary-cases (some temporary_fault) files = inr refl
write_temporary-cases (some (copy_fault left)) files = inl refl
write_temporary-cases (some replace_fault) files = inl refl
write_temporary-cases (some chmod_fault) files = inl refl
write_temporary-cases (some (unlink_fault removed)) files = inl refl

module _ {C : Type 0} (lib : Lib C) (world : World C) where
  abbrev pub Writes : Fields → Result BridgeFault Unit × Files C → Files C → Type 0
  Writes fields (r, t) files =
      (validate_document lib fields ≡ ok tt)
      × (((r ≡ ok tt) × Installed (lib.safe_dump (mapping fields)) files t)
          ⊎ ((r ≡ err os_error)
              × (is_some world.write_fault ≡ true)
              × Interrupted (lib.safe_dump (mapping fields)) files t))

  pub write_document-outcome :
      (fields : Fields) (files : Files C)
      → Writes fields (write_document lib world fields files) files
        ⊎ Fails (write_document lib world fields files) files
  unfolding write_document ensure_paths compose_is_valid run_compose issue write_temporary
  write_document-outcome fields files = elim (Result-cases (validate_document lib fields)) [
    | inr (e, v) ↦ rw v (inr ((e, refl), (refl, refl, refl)))
    | inl (u, v) ↦ elim (Bool-cases world.has_directory) [
      | inr d ↦ rw (v, d) (inr ((_, refl), (refl, refl, refl)))
      | inl d ↦ elim (Bool-cases world.dockerignore_ok) [
        | inr i ↦ rw (v, d, i) (inr ((_, refl), (refl, refl, refl)))
        | inl i ↦ elim (write_temporary-cases world.write_fault files) [
          | inr t ↦ rw (v, d, i, t) (inr ((_, refl), (refl, refl, refl)))
          | inl t ↦
              elim (Option-cases (
                error_of (
                  finish true
                    (world.run (config_command (temporary (lib.safe_dump (mapping fields)))))))) [
                      | inr (e, c) ↦ rw (v, d, i, t, c) (inr ((_, refl), (refl, refl, refl)))
                      | inl c ↦
                          rw (v, d, i, t, c)
                            (elim (install-outcome (lib.safe_dump (mapping fields))
                              (issue (config_command (temporary (lib.safe_dump (mapping fields))))
                                files)
                              world.write_fault) [
                                | inl k ↦ inl (refl, inl k)
                                | inr (inl k) ↦ inl (refl, inr k)
                                | inr (inr k) ↦ inr k
                              ])
                    ]
        ]
      ]
    ]
  ]

  -- an edit of the loaded document, where `Guard` holds of it
  abbrev pub Edits :
      (Document → Type 0)
      → (Document → Fields)
      → Result BridgeFault Unit × Files C
      → Files C
      → Type 0
  Edits Guard edit r files =
      (document : Document) × (load_document lib world files.compose ≡ ok document)
      × Guard document
      × Writes (with_services document (edit document)) r files

  pub create_body-outcome :
      (v : BridgeDefinitionInput) (files : Files C)
      → Edits
          (λ d. has_key v.name d.services ≡ false)
          (λ d. put v.name (standard_service v) d.services)
          (create_body lib world v files)
          files
        ⊎ Fails (create_body lib world v files) files
  unfolding create_body
  create_body-outcome v files = elim (Result-cases (load_document lib world files.compose)) [
    | inr (e, l) ↦ rw l (inr ((e, refl), (refl, refl, refl)))
    | inl (d, l) ↦ elim (Bool-cases (has_key v.name d.services)) [
      | inl k ↦ rw (l, k) (inr ((_, refl), (refl, refl, refl)))
      | inr k ↦
          rw (l, k)
            (elim (write_document-outcome
              (with_services d (put v.name (standard_service v) d.services)) files) [
                | inl w ↦ inl (d, refl, k, w)
                | inr f ↦ inr f
              ])
    ]
  ]

  -- the service of a name is there, and managed
  abbrev pub IsManaged : String → Document → Type 0
  IsManaged name d =
      (raw : Value) × (b : BridgeDefinition) × (lookup name d.services ≡ some raw)
      × (parse lib name raw ≡ some b)
      × (b.managed ≡ true)

  pub delete_body-outcome :
      (name : String) (files : Files C)
      → Edits
          (IsManaged name)
          (λ d. remove name d.services)
          (delete_body lib world name files)
          files
        ⊎ Fails (delete_body lib world name files) files
  unfolding delete_body
  delete_body-outcome name files = elim (Result-cases (load_document lib world files.compose)) [
    | inr (e, l) ↦ rw l (inr ((e, refl), (refl, refl, refl)))
    | inl (d, l) ↦ elim (Option-cases (lookup name d.services)) [
      | inl k ↦ rw (l, k) (inr ((_, refl), (refl, refl, refl)))
      | inr (raw, k) ↦ elim (Option-cases (parse lib name raw)) [
        | inl p ↦ rw (l, k, p) (inr ((_, refl), (refl, refl, refl)))
        | inr (b, p) ↦ elim (Bool-cases b.managed) [
          | inr m ↦ rw (l, k, p, m) (inr ((_, refl), (refl, refl, refl)))
          | inl m ↦
              rw (l, k, p, m)
                (elim (write_document-outcome (with_services d (remove name d.services)) files) [
                  | inl w ↦ inl (d, refl, (raw, b, k, p, m), w)
                  | inr f ↦ inr f
                ])
        ]
      ]
    ]
  ]

  -- the new name is free, if it is another one
  abbrev pub IsFree : String → String → Document → Type 0
  IsFree current name d = (not (name == current) && has_key name d.services) ≡ false

  pub update_body-outcome :
      (current : String) (v : BridgeDefinitionInput) (files : Files C)
      → Edits
          (λ d. IsManaged current d × IsFree current v.name d)
          (λ d. replace current v.name (standard_service v) d.services)
          (update_body lib world current v files)
          files
        ⊎ Fails (update_body lib world current v files) files
  unfolding update_body
  update_body-outcome current v files =
      elim (Result-cases (load_document lib world files.compose)) [
        | inr (e, l) ↦ rw l (inr ((e, refl), (refl, refl, refl)))
        | inl (d, l) ↦ elim (Option-cases (lookup current d.services)) [
          | inl k ↦ rw (l, k) (inr ((_, refl), (refl, refl, refl)))
          | inr (raw, k) ↦ elim (Option-cases (parse lib current raw)) [
            | inl p ↦ rw (l, k, p) (inr ((_, refl), (refl, refl, refl)))
            | inr (b, p) ↦ elim (Bool-cases b.managed) [
              | inr m ↦ rw (l, k, p, m) (inr ((_, refl), (refl, refl, refl)))
              | inl m ↦ elim (Bool-cases (not (v.name == current) && has_key v.name d.services)) [
                | inl t ↦ rw (l, k, p, m, t) (inr ((_, refl), (refl, refl, refl)))
                | inr t ↦
                    rw (l, k, p, m, t)
                      (elim (write_document-outcome
                        (with_services d (replace current v.name (standard_service v) d.services))
                        files) [ inl w ↦ inl (d, refl, ((raw, b, k, p, m), t), w) | inr f ↦ inr f ])
              ]
            ]
          ]
        ]
      ]
