-- ===== src/Bridges/Results.antt =====
-- What the calls of the bridge API promise their callers.
use cozy_nm.Base.{
  ◌≡◌, refl, sym, ap, ◌∙◌, String, ◌==◌, true, false, none, some, arith, ok, err, Result-cases, inl,
  inr, ◌≢◌, pure,
}
use cozy_nm.Base.Dicts.{contains}
use cozy_nm.Bridges.Yaml.{
  Value, scalar, sequence, mapping, null, text, other, lookup, put, remove, lookup-put_self,
  lookup-put_other, remove-put,
}
use cozy_nm.Bridges.Service.{
  BridgeDefinition, BridgeDefinitionInput, standard_service, validate_bridge_input,
}
use cozy_nm.Bridges.ServiceLaws.{own_definition, parse_service-standard_service}
use cozy_nm.Bridges.State.{read_only, Lib, Files, World, Document, BridgeProject, Host}
use cozy_nm.Bridges.Document.{load_document, parse}
use cozy_nm.Bridges.Compose.{ensure_paths, locked}
use cozy_nm.Bridges.Manager.{
  create, update, delete, service_action, with_services, actions, delete_body, update_body,
  action_body, not_null,
}
use cozy_nm.Bridges.Ports.{has_distinct_ports, validate_document-ok_iff}
use cozy_nm.Bridges.Lookups.{expected, IsPossible, lookup-edited}
use cozy_nm.Bridges.ViewLaws.{project-Kept}
use cozy_nm.Bridges.Edits.{
  Edit, create_edit, update_edit, delete_edit, edited, Allows, run_edit, run_edit-Ends, RoundTrips,
  load-with_services, services_or,
}

not_null-pass :
    {C : Type 0} (raw : Value) (name : String)
    → raw ≢ scalar null
    → not_null {C = C} raw name ≡ pure tt
not_null-pass (scalar null) name h = absurd (h refl)
not_null-pass (scalar (text s)) name h = refl
not_null-pass (scalar (other t s)) name h = refl
not_null-pass (sequence s) name h = refl
not_null-pass (mapping s) name h = refl

module _ {C : Type 0} (lib : Lib C) (host : Host) (world after later : World C) where
  -- the document that a successful edit leaves
  pub run_edit-document :
      RoundTrips lib
      → later.readable ≡ true
      → (e : Edit) (files : Files C) (p : BridgeProject)
      → (run_edit lib host world after e files).0 ≡ ok p
      → (d : Document) × (load_document lib world files.compose ≡ ok d)
        × Allows lib world e d
        × (load_document lib later (run_edit lib host world after e files).1.compose
            ≡ ok (record {
              fields = with_services d (edited e d.services);
              services = edited e d.services;
            }))
        × (has_distinct_ports lib (edited e d.services) ≡ true)
  run_edit-document h r e files p o = elim (run_edit-Ends lib host world after e files) [
    | inr ((x, f), k) ↦ absurd (ground arith)
    | inl (d, l, a, v, (t, i, q)) ↦
        let (c, b, s) = project-Kept lib host after t in
        (
          d,
          l,
          a,
          ap (load_document lib later) (ap (λ z. z.1.compose) q ∙ c ∙ i.0)
              ∙ load-with_services lib later d (edited e d.services) h r,
          (validate_document-ok_iff lib (with_services d (edited e d.services))
                (edited e d.services)
                (lookup-put_self "services" (mapping (edited e d.services)) d.fields)).0
              v,
        )
  ]

  possible : (e : Edit) (d : Document) → Allows lib world e d → IsPossible e d.services
  possible (create_edit v) d a = tt
  possible (update_edit current v) d ((raw, b, l, p, m), f) = ((raw, l), f)
  possible (delete_edit name) d a = tt

  -- A successful edit, with a YAML library that reads back what it wrote: the edit was allowed on the
  -- document of the file, and a readable file holds a document afterwards in which each name of a
  -- service stands for what the edit gives it, or for what it stood for; every other entry of
  -- the document is as it was, and the managed services have different ports.
  pub run_edit-ok :
      RoundTrips lib
      → later.readable ≡ true
      → (e : Edit) (files : Files C) (p : BridgeProject)
      → (run_edit lib host world after e files).0 ≡ ok p
      → (d d' : Document) × (load_document lib world files.compose ≡ ok d)
        × Allows lib world e d
        × (load_document lib later (run_edit lib host world after e files).1.compose ≡ ok d')
        × ((name : String) → lookup name d'.services ≡ expected e d.services name)
        × ((name : String)
            → ("services" == name) ≡ false
            → lookup name d'.fields ≡ lookup name d.fields)
        × (has_distinct_ports lib d'.services ≡ true)
  run_edit-ok h r e files p o =
      let (d, l, a, l', ports) = run_edit-document h r e files p o in
      (
        d,
        record { fields = with_services d (edited e d.services); services = edited e d.services },
        l,
        a,
        l',
        λ name. lookup-edited e d.services name (possible e d a),
        λ name n. lookup-put_other "services" name (mapping (edited e d.services)) d.fields n,
        ports,
      )

  -- what `create` was given is valid
  create-validated :
      (v : BridgeDefinitionInput) (files : Files C) (p : BridgeProject)
      → (create lib host world after v files).0 ≡ ok p
      → validate_bridge_input lib.ip_version v ≡ ok tt
  unfolding create
  create-validated v files p o = elim (Result-cases (validate_bridge_input lib.ip_version v)) [
    | inl (u, i) ↦ i
    | inr (x, i) ↦ absurd (ground arith)
  ]

  -- After a successful create a readable file holds a service of the given name that is parsed as
  -- managed with the given ports and host, and the other services are as they were. The YAML
  -- library reads back what it wrote, and the empty text is no address.
  pub create-lookup :
      RoundTrips lib
      → lib.ip_version "" ≡ none
      → later.readable ≡ true
      → (v : BridgeDefinitionInput) (files : Files C) (p : BridgeProject)
      → (create lib host world after v files).0 ≡ ok p
      → (d d' : Document) × (load_document lib world files.compose ≡ ok d)
        × (load_document lib later (create lib host world after v files).1.compose ≡ ok d')
        × ((raw : Value) × (lookup v.name d'.services ≡ some raw)
            × (parse lib v.name raw ≡ some (own_definition v)))
        × ((name : String)
            → (v.name == name) ≡ false
            → lookup name d'.services ≡ lookup name d.services)
  unfolding parse
  create-lookup h i r v files p o =
      let (d, l, a, l', ports) = run_edit-document h r (create_edit v) files p o in
      (
        d,
        record {
          fields = with_services d (edited (create_edit v) d.services);
          services = edited (create_edit v) d.services;
        },
        l,
        l',
        (
          standard_service v,
          lookup-put_self v.name (standard_service v) d.services,
          parse_service-standard_service lib.repr lib.ip_version v i (create-validated v files p o),
        ),
        λ name n. lookup-put_other v.name name (standard_service v) d.services n,
      )

module _ {C : Type 0} (lib : Lib C) (host : Host) (world after later : World C) where
  -- With a YAML library that reads back what it wrote, a successful delete after a successful
  -- create leaves the services as they were before the create, where the files can be read.
  pub create-delete :
      RoundTrips lib
      → world.readable ≡ true
      → later.readable ≡ true
      → (v : BridgeDefinitionInput) (files : Files C) (p q : BridgeProject)
      → (create lib host world after v files).0 ≡ ok p
      → (delete lib host world after v.name (create lib host world after v files).1).0 ≡ ok q
      → (d d' : Document) × (load_document lib world files.compose ≡ ok d)
        × (load_document lib later
              (delete lib host world after v.name (create lib host world after v files).1).1.compose
            ≡ ok d')
        × (d'.services ≡ d.services)
  create-delete h w r v files p q o o' =
      let (d, l, a, l', ports) =
        run_edit-document lib host world after world h w (create_edit v) files p o in
      let (e, m, b, m', ports') =
        run_edit-document lib host world after later h r (delete_edit v.name)
          (create lib host world after v files).1 q o' in
      let s : put v.name (standard_service v) d.services ≡ e.services =
        ap (λ z. services_or z d.services) (sym l' ∙ m) in
      (
        d,
        record {
          fields = with_services e (remove v.name e.services);
          services = remove v.name e.services;
        },
        l,
        m',
        ap (remove v.name) (sym s) ∙ remove-put v.name (standard_service v) d.services a,
      )

module _ {C : Type 0} (lib : Lib C) (host : Host) (world after : World C) where
  -- Where the directory is there and .dockerignore can be kept, a service of the file that is not
  -- null, is parsed and is not managed is read-only: an update with a valid input, a delete and
  -- an action of the known ones are refused with read_only, and neither a file nor the issued
  -- commands change.
  pub unmanaged-read_only :
      (name : String) (d : Document) (raw : Value) (b : BridgeDefinition) (files : Files C)
      → world.has_directory ≡ true
      → world.dockerignore_ok ≡ true
      → load_document lib world files.compose ≡ ok d
      → lookup name d.services ≡ some raw
      → raw ≢ scalar null
      → parse lib name raw ≡ some b
      → b.managed ≡ false
      → ((v : BridgeDefinitionInput)
          → validate_bridge_input lib.ip_version v ≡ ok tt
          → update lib host world after name v files ≡ (err read_only, files))
        × (delete lib host world after name files ≡ (err read_only, files))
        × ((action : String)
            → contains action actions ≡ true
            → service_action lib host world after name action files ≡ (err read_only, files))
  unfolding update delete service_action locked ensure_paths update_body delete_body action_body
      load_document
  unmanaged-read_only name d raw b files dir ign l k n p m = (
    λ v i. rw (i, dir, ign, l, k, p, m),
    rw (dir, ign, l, k, p, m),
    λ action a. rw (a, dir, ign, l, k, not_null-pass raw name n, p, m),
  )
