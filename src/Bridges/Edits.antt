-- ===== src/Bridges/Edits.antt =====
-- The edits of the Compose file as whole calls: what they leave, and that a failing one leaves the files.
use cozy_nm.Base.{
  ◌≡◌, refl, sym, ap, subst, ◌∙◌, String, true, false, some, arith, is_some, Result, ok, err, Exec,
  ◌>>◌, Bool-cases, Result-cases, inl, inr, ◌⊎◌, seq-ok, seq-err, ◌≢◌,
}
use cozy_nm.Bridges.Yaml.{
  Value, mapping, Fields, end, field, has_key, put, remove, replace, lookup-put_self, is_truthy,
}
use cozy_nm.Bridges.Service.{BridgeDefinitionInput, standard_service, validate_bridge_input}
use cozy_nm.Bridges.State.{BridgeFault, os_error, Lib, Files, World, Document, BridgeProject, Host}
use cozy_nm.Bridges.Document.{load_document, validate_document, read_document, doc_of, doc_services}
use cozy_nm.Bridges.Compose.{ensure_paths, locked}
use cozy_nm.Bridges.Manager.{
  create_body, update_body, delete_body, create, update, delete, with_services,
}
use cozy_nm.Bridges.Ports.{is_parsable, validate_document-ok_iff}
use cozy_nm.Bridges.View.{project}
use cozy_nm.Bridges.ViewLaws.{project-raises}
use cozy_nm.Bridges.Outcomes.{
  Kept, Installed, Interrupted, Fails, Edits, IsManaged, IsFree, create_body-outcome,
  update_body-outcome, delete_body-outcome,
}

-- YAML reads back what it wrote
abbrev pub RoundTrips : {C : Type 0} → Lib C → Type 0
RoundTrips lib = (v : Value) → lib.safe_load (lib.safe_dump v) ≡ some v

put-is_truthy : (name : String) (v : Value) (d : Fields) → is_truthy (mapping (put name v d)) ≡ true
unfolding put is_truthy
put-is_truthy name v end = refl
put-is_truthy name v (field k w rest) = ground arith

-- A document whose services were replaced is read back as such.
pub load-with_services :
    {C : Type 0} (lib : Lib C) (world : World C) (d : Document) (services : Fields)
    → RoundTrips lib
    → world.readable ≡ true
    → load_document lib world (some (lib.safe_dump (mapping (with_services d services))))
      ≡ ok (record { fields = with_services d services; services = services })
unfolding load_document read_document doc_of doc_services
load-with_services lib world d services h r = rw (
  r,
  h (mapping (with_services d services)),
  put-is_truthy "services" (mapping services) d.fields,
  lookup-put_self "services" (mapping services) d.fields,
)

abbrev pub services_or : Result BridgeFault Document → Fields → Fields
services_or (ok d) s = d.services
services_or (err e) s = s

-- A call that edits the file, and what it makes of the services.
pub data Edit : Type 0 where
  create_edit : BridgeDefinitionInput → Edit
  update_edit : String → BridgeDefinitionInput → Edit
  delete_edit : String → Edit

abbrev pub edited : Edit → Fields → Fields
edited (create_edit v) services = put v.name (standard_service v) services
edited (update_edit current v) services = replace current v.name (standard_service v) services
edited (delete_edit name) services = remove name services

module _ {C : Type 0} (lib : Lib C) (world : World C) where
  -- what the edit asks of the document
  abbrev pub Allows : Edit → Document → Type 0
  Allows (create_edit v) d = has_key v.name d.services ≡ false
  Allows (update_edit current v) d =
      IsManaged lib world current d × IsFree lib world current v.name d
  Allows (delete_edit name) d = IsManaged lib world name d

  abbrev edit_body : Edit → Exec (Files C) BridgeFault Unit
  edit_body (create_edit v) = create_body lib world v
  edit_body (update_edit current v) = update_body lib world current v
  edit_body (delete_edit name) = delete_body lib world name

  edit_body-outcome :
      (e : Edit) (files : Files C)
      → Edits lib world (Allows e) (λ d. edited e d.services) (edit_body e files) files
        ⊎ Fails (edit_body e files) files
  edit_body-outcome (create_edit v) files = create_body-outcome lib world v files
  edit_body-outcome (update_edit current v) files = update_body-outcome lib world current v files
  edit_body-outcome (delete_edit name) files = delete_body-outcome lib world name files

  locked-outcome :
      (body : Exec (Files C) BridgeFault Unit) (files : Files C)
      → (locked world body files ≡ body files) ⊎ Fails (locked world body files) files
  unfolding locked ensure_paths
  locked-outcome body files = elim (Bool-cases world.has_directory) [
    | inr d ↦ rw (d) (inr ((_, refl), (refl, refl, refl)))
    | inl d ↦ elim (Bool-cases world.dockerignore_ok) [
      | inr i ↦ rw (d, i) (inr ((_, refl), (refl, refl, refl)))
      | inl i ↦ rw (d, i) (inl refl)
    ]
  ]

  pub locked_edit-outcome :
      (e : Edit) (files : Files C)
      → Edits lib world
          (Allows e)
          (λ d. edited e d.services)
          (locked world (edit_body e) files)
          files
        ⊎ Fails (locked world (edit_body e) files) files
  locked_edit-outcome e files = elim (locked-outcome (edit_body e) files) [
    | inr f ↦ inr f
    | inl h ↦
        subst (λ r. Edits lib world (Allows e) (λ d. edited e d.services) r files ⊎ Fails r files)
          (sym h) (edit_body-outcome e files)
  ]

module _ {C : Type 0} (lib : Lib C) (host : Host) (world after : World C) where
  abbrev pub run_edit : Edit → Exec (Files C) BridgeFault BridgeProject
  run_edit (create_edit v) = create lib host world after v
  run_edit (update_edit current v) = update lib host world after current v
  run_edit (delete_edit name) = delete lib host world after name

  -- a write of an allowed and accepted edit that the operating system interrupted
  abbrev pub Breaks : Edit → Files C → Files C → Type 0
  Breaks e files t =
      (d : Document) × (load_document lib world files.compose ≡ ok d)
      × Allows lib world e d
      × (validate_document lib (with_services d (edited e d.services)) ≡ ok tt)
      × (is_some world.write_fault ≡ true)
      × Interrupted (lib.safe_dump (mapping (with_services d (edited e d.services)))) files t

  -- How a call that edits can end: the edit is installed and the project described; or it raises, and
  -- nothing is written or the write was interrupted.
  abbrev pub Ends : Edit → Files C → Type 0
  Ends e files =
      ((d : Document) × (load_document lib world files.compose ≡ ok d)
        × Allows lib world e d
        × (validate_document lib (with_services d (edited e d.services)) ≡ ok tt)
        × ((t : Files C) × Installed
              (lib.safe_dump (mapping (with_services d (edited e d.services)))) files t
            × (run_edit e files ≡ project lib host after t)))
      ⊎ (((x : BridgeFault) × ((run_edit e files).0 ≡ err x))
          × (Kept files (run_edit e files).1 ⊎ Breaks e files (run_edit e files).1))

  then_project :
      (e : Edit) (files : Files C)
      → run_edit e files ≡ (locked world (edit_body lib world e) >> project lib host after) files
      → Ends e files
  then_project e files h =
      let m = locked world (edit_body lib world e) in
      let n = project lib host after in
      elim (locked_edit-outcome lib world e files) [
        | inl (d, l, a, (v, inl (o, i))) ↦
            inl (d, l, a, v, ((m files).1, i, h ∙ seq-ok m n files tt o))
        | inl (d, l, a, (v, inr (o, f, k))) ↦
            let r = h ∙ seq-err m n files os_error o in
            inr (
              (os_error, ap (λ p. p.0) r),
              inr (subst (λ p. Breaks e files p.1) (sym r) (d, l, a, v, f, k)),
            )
        | inr ((x, o), k) ↦
            let r = h ∙ seq-err m n files x o in
            inr ((x, ap (λ p. p.0) r), inl (subst (λ p. Kept files p.1) (sym r) k))
      ]

  pub run_edit-Ends : (e : Edit) (files : Files C) → Ends e files
  unfolding create update delete
  run_edit-Ends (create_edit v) files =
      elim (Result-cases (validate_bridge_input lib.ip_version v)) [
        | inr (x, i) ↦ rw i (inr ((_, refl), inl (refl, refl, refl)))
        | inl (u, i) ↦ then_project (create_edit v) files (rw i refl)
      ]
  run_edit-Ends (update_edit current v) files =
      elim (Result-cases (validate_bridge_input lib.ip_version v)) [
        | inr (x, i) ↦ rw i (inr ((_, refl), inl (refl, refl, refl)))
        | inl (u, i) ↦ then_project (update_edit current v) files (rw i refl)
      ]
  run_edit-Ends (delete_edit name) files = then_project (delete_edit name) files refl

  -- an accepted document cannot hold a service that is not parsed
  not_unparsable :
      (d : Document) (services : Fields) (d' : Document)
      → RoundTrips lib
      → validate_document lib (with_services d services) ≡ ok tt
      → load_document lib after (some (lib.safe_dump (mapping (with_services d services)))) ≡ ok d'
      → is_parsable lib d'.services ≢ false
  unfolding load_document
  not_unparsable d services d' h v l p =
      let accepted =
        (validate_document-ok_iff lib (with_services d services) services
            (lookup-put_self "services" (mapping services) d.fields)).0
          v in
      elim (Bool-cases after.readable) [
        | inr r ↦ ground arith
        | inl r ↦
            let s =
              subst (λ q. is_parsable lib (services_or q services) ≡ false)
                (sym l ∙ load-with_services lib after d services h r) p in
            ground arith
      ]

  -- With a YAML library that reads back what it wrote, a create, update or delete that raises leaves
  -- the Compose file, the noted hash and the backups; or the operating system failed in the write, and
  -- then the hash is as it was, and either the file is too, with one more backup, or the file holds
  -- the whole document of the allowed and accepted edit, and the backups end with the old contents, if
  -- there were any, with none removed but the stale ones.
  pub run_edit-atomic :
      RoundTrips lib
      → (e : Edit) (files : Files C) (x : BridgeFault) → (run_edit e files).0 ≡ err x
      → Kept files (run_edit e files).1 ⊎ Breaks e files (run_edit e files).1
  run_edit-atomic h e files x o = elim (run_edit-Ends e files) [
    | inr (_, k) ↦ k
    | inl (d, l, a, v, (t, i, r)) ↦
        let (d', l', p) = project-raises lib host after t x (ap (λ q. q.0) (sym r) ∙ o) in
        absurd (
          not_unparsable d (edited e d.services) d' h v
            (subst (λ c. load_document lib after c ≡ ok d') i.0 l') p)
  ]
