-- ===== src/Bridges/ViewLaws.antt =====
-- Describing a project: it changes no file, and it raises only for services that cannot be parsed.
use cozy_nm.Base.{
  ℕ, ◌≡◌, refl, ap, subst, ◌∙◌, String, true, false, Option, none, some, arith, if◌then◌else◌,
  Result, ok, err, Bool-cases, Option-cases, Result-cases, inl, inr, ◌≢◌, List, [],
}
use cozy_nm.Bridges.Yaml.{
  Value, scalar, sequence, mapping, Fields, end, field, lookup, key_text, key_is, lookup-put_self,
  is_truthy,
}
use cozy_nm.Bridges.State.{
  BridgeFault, type_error, unreadable, services_not_mapping, Lib, Files, World, Document, Host,
}
use cozy_nm.Bridges.Document.{
  load_document, read_document, doc_of, doc_services, validate_document, validate_services,
  validate_service, claim_port, taken_port, parse, UsedPorts,
}
use cozy_nm.Bridges.Compose.{compose_is_valid, run_compose, issue}
use cozy_nm.Bridges.Ports.{is_parsable}
use cozy_nm.Bridges.View.{
  Runtime, project, checked_document, described_project, refused_project, show_services,
  found_containers, ok_or, answer,
}
use cozy_nm.Bridges.Outcomes.{Kept}

doc_services-fault : (fields : Fields) (o : Option Value) → doc_services fields o ≢ err type_error
unfolding doc_services
doc_services-fault fields none h = ground arith
doc_services-fault fields (some (scalar s)) h = ground arith
doc_services-fault fields (some (sequence s)) h = ground arith
doc_services-fault fields (some (mapping s)) h = ground arith

doc_of-fault : (v : Value) → doc_of v ≢ err type_error
unfolding doc_of
doc_of-fault (scalar s) h = ground arith
doc_of-fault (sequence s) h = ground arith
doc_of-fault (mapping fields) h = doc_services-fault fields (lookup "services" fields) h

read_document-fault : (o : Option Value) → read_document o ≢ err type_error
unfolding read_document
read_document-fault none h = ground arith
read_document-fault (some v) h = doc_of-fault (if is_truthy v then v else mapping end) h

-- a document holds its services under their key
abbrev HoldsServices : Result BridgeFault Document → Type 0
HoldsServices (err e) = Unit
HoldsServices (ok d) = lookup "services" d.fields ≡ some (mapping d.services)

doc_services-HoldsServices :
    (fields : Fields) (o : Option Value)
    → lookup "services" fields ≡ o
    → HoldsServices (doc_services fields o)
unfolding doc_services
doc_services-HoldsServices fields none h = lookup-put_self "services" (mapping end) fields
doc_services-HoldsServices fields (some (scalar s)) h = tt
doc_services-HoldsServices fields (some (sequence s)) h = tt
doc_services-HoldsServices fields (some (mapping s)) h = h

doc_of-HoldsServices : (v : Value) → HoldsServices (doc_of v)
unfolding doc_of
doc_of-HoldsServices (scalar s) = tt
doc_of-HoldsServices (sequence s) = tt
doc_of-HoldsServices (mapping fields) =
    doc_services-HoldsServices fields (lookup "services" fields) refl

read_document-HoldsServices : (o : Option Value) → HoldsServices (read_document o)
unfolding read_document
read_document-HoldsServices none = tt
read_document-HoldsServices (some v) = doc_of-HoldsServices (if is_truthy v then v else mapping end)

module _ {C : Type 0} (lib : Lib C) where
  show_services-ok :
      (runtime : Runtime) (services : Fields)
      → is_parsable lib services ≡ true
      → (l : List _) × (show_services lib runtime services ≡ ok l)
  unfolding show_services is_parsable
  show_services-ok runtime end h = ([], refl)
  show_services-ok runtime (field k v rest) h = elim (Option-cases (parse lib (key_text k) v)) [
    | inl e ↦ ground arith
    | inr (b, e) ↦ let (l, m) = show_services-ok runtime rest (ground arith) in rw (e, m) (_, refl)
  ]

  load_document-fault :
      (world : World C) (contents : Option C) → load_document lib world contents ≢ err type_error
  unfolding load_document
  load_document-fault world none h = ground arith
  load_document-fault world (some c) h = elim (Bool-cases world.readable) [
    | inl r ↦ read_document-fault (lib.safe_load c) (
        subst
          (λ b. (if b then read_document (lib.safe_load c) else err unreadable) ≡ err type_error) r
          h)
    | inr r ↦ ground arith
  ]

  claim_port-fault :
      (port : Option ℕ) (name : String) (used : UsedPorts)
      → claim_port lib port name used ≢ err type_error
  unfolding claim_port
  claim_port-fault none name used h = ground arith
  claim_port-fault (some n) name used h = ground arith

  validate_services-parsable :
      (services : Fields) (used : UsedPorts)
      → validate_services lib services used ≡ err type_error
      → is_parsable lib services ≡ false
  unfolding validate_services is_parsable validate_service
  validate_services-parsable end used h = absurd (cc)
  validate_services-parsable (field k v rest) used h =
      elim (Option-cases (parse lib (key_text k) v)) [
        | inl e ↦ rw e
        | inr (b, e) ↦ elim (Result-cases (claim_port lib (taken_port lib b) b.name used)) [
          | inl (u, c) ↦ ground (arith, validate_services-parsable rest u)
          | inr (x, c) ↦ ground (arith, claim_port-fault (taken_port lib b) b.name used)
        ]
      ]

  validate_document-parsable :
      (fields services : Fields)
      → lookup "services" fields ≡ some (mapping services)
      → validate_document lib fields ≡ err type_error
      → is_parsable lib services ≡ false
  unfolding validate_document
  validate_document-parsable fields services e h = validate_services-parsable services [] (
      subst
        (λ o.
          (elim o [ some (mapping d) ↦ validate_services lib d [] | _ ↦ err services_not_mapping ])
          ≡ err type_error)
        e h)

  load_document-HoldsServices :
      (world : World C) (contents : Option C) → HoldsServices (load_document lib world contents)
  unfolding load_document lookup key_is
  load_document-HoldsServices world none = refl
  load_document-HoldsServices world (some c) = elim (Bool-cases world.readable) [
    | inl r ↦ rw (r, load_document) (read_document-HoldsServices (lib.safe_load c))
    | inr r ↦ rw (r, load_document) tt
  ]

  pub load_document-services :
      (world : World C) (contents : Option C) (d : Document)
      → load_document lib world contents ≡ ok d
      → lookup "services" d.fields ≡ some (mapping d.services)
  load_document-services world contents d h =
      subst HoldsServices h (load_document-HoldsServices world contents)

  checked_document-err :
      (world : World C) (files : Files C)
      → checked_document lib world files ≡ err type_error
      → (d : Document) × (load_document lib world files.compose ≡ ok d)
        × (is_parsable lib d.services ≡ false)
  unfolding checked_document
  checked_document-err world files h = elim (Result-cases (load_document lib world files.compose)) [
    | inr (x, l) ↦ absurd (load_document-fault world files.compose (ground arith))
    | inl (d, l) ↦ elim (Result-cases (validate_document lib d.fields)) [
      | inl (u, v) ↦ ground arith
      | inr (x, v) ↦ (
        d,
        l,
        validate_document-parsable d.fields d.services
            (load_document-services world files.compose d l) (ground arith),
      )
    ]
  ]

  checked_document-ok :
      (world : World C) (files : Files C) (d : Document)
      → checked_document lib world files ≡ ok d
      → load_document lib world files.compose ≡ ok d
  unfolding checked_document
  checked_document-ok world files d h =
      elim (Result-cases (load_document lib world files.compose)) [
        | inr (x, l) ↦ ground arith
        | inl (d', l) ↦ elim (Result-cases (validate_document lib d'.fields)) [
          | inl (u, v) ↦ ground arith
          | inr (x, v) ↦ ground arith
        ]
      ]

module _ {C : Type 0} (lib : Lib C) (host : Host) where
  refused_project-Kept :
      (e : BridgeFault) (files : Files C) → Kept files (refused_project lib host e files).1
  unfolding refused_project
  refused_project-Kept e files = ground arith

  described_project-Kept :
      (world : World C) (d : Document) (files : Files C)
      → Kept files (described_project lib host world d files).1
  unfolding described_project compose_is_valid run_compose issue
  described_project-Kept world d files =
      elim (Result-cases
        (show_services lib (ok_or (found_containers lib host world d) []) d.services)) [
          | inl (l, e) ↦ rw e (refl, refl, refl)
          | inr (x, e) ↦ rw e (refl, refl, refl)
        ]

  pub project-Kept :
      (world : World C) (files : Files C) → Kept files (project lib host world files).1
  unfolding project
  project-Kept world files = elim (Result-cases (checked_document lib world files)) [
    | inl (d, c) ↦ rw c (described_project-Kept world d files)
    | inr (e, c) ↦ rw c (refused_project-Kept e files)
  ]

  refused_project-raises :
      (e x : BridgeFault) (files : Files C)
      → (refused_project lib host e files).0 ≡ err x
      → e ≡ type_error
  unfolding refused_project
  refused_project-raises e x files h = ground arith

  described_project-raises :
      (world : World C) (d : Document) (files : Files C) (x : BridgeFault)
      → (described_project lib host world d files).0 ≡ err x
      → is_parsable lib d.services ≡ false
  unfolding described_project compose_is_valid run_compose issue
  described_project-raises world d files x h =
      let runtime = ok_or (found_containers lib host world d) [] in
      elim (Bool-cases (is_parsable lib d.services)) [
        | inr p ↦ p
        | inl p ↦ let (l, e) = show_services-ok lib runtime d.services p in ground arith
      ]

  -- Where the description of a project raises, a service of the file cannot be parsed.
  pub project-raises :
      (world : World C) (files : Files C) (e : BridgeFault)
      → (project lib host world files).0 ≡ err e
      → (d : Document) × (load_document lib world files.compose ≡ ok d)
        × (is_parsable lib d.services ≡ false)
  unfolding project
  project-raises world files e h = elim (Result-cases (checked_document lib world files)) [
    | inr (x, c) ↦ checked_document-err lib world files (
        c
        ∙ ap err (
            refused_project-raises x e files
              (subst (λ r. (answer lib host world r files).0 ≡ err e) c h)))
    | inl (d, c) ↦ (
      d,
      checked_document-ok lib world files d c,
      described_project-raises world d files e
          (subst (λ r. (answer lib host world r files).0 ≡ err e) c h),
    )
  ]
