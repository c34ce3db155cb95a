-- ===== src/Bridges/Ports.antt =====
-- Which documents _validate_document accepts, in terms of the ports that the managed services take.
use cozy_nm.Base.{
  ℕ, ◌≡◌, refl, ◌∙◌, subst, ap, String, Bool, true, false, not, ◌&&◌, Option, none, some, arith,
  if◌then◌else◌, nat_eq, is_empty, List, [], ◌∷◌, any, Result, ok, err, bind_result, Bool-cases,
  Option-cases, inl, inr, ◌↔◌, ◌||◌, or_else, is_some,
}
use cozy_nm.Bridges.Names.{is_service_name-non_empty}
use cozy_nm.Bridges.Yaml.{Value, scalar, sequence, mapping, Fields, end, field, key_text, lookup}
use cozy_nm.Bridges.Service.{
  BridgeDefinition, ServiceFault, parse_service, parse_mapping, has_odd_key, environment_dict,
  no_faults, validated, field_faults, input_faults, validate_bridge_input, integer, fault_if,
}
use cozy_nm.Base.Dicts.{Dict, get}
use cozy_nm.Bridges.State.{Lib}
use cozy_nm.Bridges.Document.{
  UsedPorts, owner_of, parse, taken_port, claim_port, validate_service, validate_services,
  validate_document,
}

fault_if-nil :
    (b : Bool) (f : ServiceFault) (fs : List ServiceFault)
    → fault_if b f fs ≡ []
    → (b ≡ false) × (fs ≡ [])
fault_if-nil true f fs h = absurd (cc)
fault_if-nil false f fs h = (refl, h)

validated-name :
    (repr : Value → String) (ip_version : String → Option ℕ) (name h : String) (l t : ℕ)
    → validated repr ip_version name (some l) (some h) (some t) [] ≡ []
    → is_empty name ≡ false
unfolding validated input_faults validate_bridge_input
validated-name repr ip_version name h l t e = is_service_name-non_empty name (ground arith)

-- without a fault the name was tested last
validated-nil :
    (repr : Value → String) (ip_version : String → Option ℕ) (name : String) (l : Option ℕ)
    (h : Option String) (t : Option ℕ) (faults : List ServiceFault)
    → (faults ≡ [] → (not (is_some l) || not (is_some t) || is_empty (or_else h "")) ≡ false)
    → validated repr ip_version name l h t faults ≡ []
    → is_empty name ≡ false
unfolding validated
validated-nil repr ip_version name (some l) (some h) (some t) [] f e =
    validated-name repr ip_version name h l t e
validated-nil repr ip_version name (some l) (some h) (some t) (x ∷ xs) f e = absurd (cc)
validated-nil repr ip_version name none h t faults f e = let q : true ≡ false = f e in absurd (cc)
validated-nil repr ip_version name (some l) none t faults f e =
    let q : (not (is_some t) || true) ≡ false = f e in ground arith
validated-nil repr ip_version name (some l) (some h) none faults f e =
    let q : true ≡ false = f e in absurd (cc)

no_faults-nil :
    (repr : Value → String) (ip_version : String → Option ℕ) (fs : List ServiceFault)
    → no_faults repr ip_version fs ≡ true
    → fs ≡ []
no_faults-nil repr ip_version [] h = refl
no_faults-nil repr ip_version (f ∷ fs) h = absurd (cc)

field_faults-nil :
    (repr : Value → String) (ip_version : String → Option ℕ) (name : String) (raw : Fields)
    (env : Dict String)
    → field_faults repr ip_version name raw env ≡ []
    → (not (is_some (integer (get "LISTEN_PORT" env)))
        || not (is_some (integer (get "TARGET_PORT" env)))
        || is_empty (or_else (get "TARGET_HOST" env) ""))
      ≡ false
unfolding field_faults
field_faults-nil repr ip_version name raw env e = ground arith

pub no_faults-name :
    (repr : Value → String) (ip_version : String → Option ℕ) (name : String) (raw : Fields)
    → (parse_mapping repr ip_version name raw).managed ≡ true
    → is_empty name ≡ false
unfolding parse_mapping
no_faults-name repr ip_version name raw m =
    let env = environment_dict repr ip_version (lookup "environment" raw) in
    validated-nil repr ip_version name _ _ _ _ (field_faults-nil repr ip_version name raw env)
      (no_faults-nil repr ip_version _ m)

-- a managed service has a name that is not empty
pub parse_service-name :
    (repr : Value → String) (ip_version : String → Option ℕ) (name : String) (v : Value)
    (b : BridgeDefinition)
    → parse_service repr ip_version name v ≡ some b
    → b.managed ≡ true
    → is_empty b.name ≡ false
unfolding parse_service parse_mapping
parse_service-name repr ip_version name (mapping raw) b e m = elim (Bool-cases (has_odd_key raw)) [
  | inl o ↦ ground arith
  | inr o ↦
      let r : some (parse_mapping repr ip_version name raw) ≡ some b =
        subst (λ x. (if x then none else some (parse_mapping repr ip_version name raw)) ≡ some b) o
          e in
      subst (λ d. d.managed ≡ true → is_empty d.name ≡ false) (ap (λ o. or_else o b) r)
        (no_faults-name repr ip_version name raw) m
]
parse_service-name repr ip_version name (scalar s) b e m = ground arith
parse_service-name repr ip_version name (sequence s) b e m = ground arith

-- The independent description: every service can be parsed, and no two managed ones take a port.
unfoldable pub is_apart : List ℕ → Bool
is_apart [] = true
is_apart (n ∷ ns) = not (any (nat_eq n) ns) && is_apart ns

unfoldable pub add_port : Option ℕ → List ℕ → List ℕ
add_port none ns = ns
add_port (some n) ns = n ∷ ns

abbrev port_of : Option BridgeDefinition → Option ℕ
port_of none = none
port_of (some b) = if b.managed then b.listen_port else none

unfoldable pub managed_ports : {C : Type 0} → Lib C → Fields → List ℕ
managed_ports lib end = []
managed_ports lib (field k v rest) =
    add_port (port_of (parse lib (key_text k) v)) (managed_ports lib rest)

unfoldable pub is_parsable : {C : Type 0} → Lib C → Fields → Bool
is_parsable lib end = true
is_parsable lib (field k v rest) = is_some (parse lib (key_text k) v) && is_parsable lib rest

abbrev pub has_distinct_ports : {C : Type 0} → Lib C → Fields → Bool
has_distinct_ports lib services = is_parsable lib services && is_apart (managed_ports lib services)

unfoldable is_unused : UsedPorts → List ℕ → Bool
is_unused used [] = true
is_unused used (n ∷ ns) = is_empty (owner_of n used) && is_unused used ns

is_unused-cons :
    (n : ℕ) (owner : String) (used : UsedPorts) (ns : List ℕ)
    → is_empty owner ≡ false
    → is_unused ((n, owner) ∷ used) ns ≡ (not (any (nat_eq n) ns) && is_unused used ns)
unfolding is_unused owner_of
is_unused-cons n owner used [] h = refl
is_unused-cons n owner used (m ∷ ns) h = ground (arith, is_unused-cons n owner used ns h)

is_unused-nil : (ns : List ℕ) → is_unused [] ns ≡ true
unfolding is_unused owner_of
is_unused-nil [] = refl
is_unused-nil (n ∷ ns) = is_unused-nil ns

unfoldable is_acceptable : {C : Type 0} → Lib C → Fields → UsedPorts → Bool
is_acceptable lib services used =
    is_parsable lib services
    && is_apart (managed_ports lib services)
    && is_unused used (managed_ports lib services)

abbrev is_ok : {E A : Type 0} → Result E A → Bool
is_ok (ok a) = true
is_ok (err e) = false

and_swap : (p a f u : Bool) → (p && a && (f && u)) ≡ (p && (f && a) && u)
and_swap p a f u = ground arith

-- one step of the loop, with the loop's result for the rest of the services
step_acceptable :
    {C : Type 0} (lib : Lib C) (k : String) (v : Value) (rest : Fields) (used : UsedPorts)
    → ((used' : UsedPorts)
        → is_ok (validate_services lib rest used') ≡ is_acceptable lib rest used')
    → (b : BridgeDefinition) → parse lib k v ≡ some b
    → is_ok (bind_result (validate_service lib k (some b) used) (validate_services lib rest)) ≡ (
        is_parsable lib rest
        && is_apart (add_port (port_of (some b)) (managed_ports lib rest))
        && is_unused used (add_port (port_of (some b)) (managed_ports lib rest)))
unfolding validate_service claim_port taken_port is_acceptable add_port parse is_apart is_unused
step_acceptable lib k v rest used ih b e = elim (Bool-cases b.managed) [
  | inl m ↦ elim (Option-cases b.listen_port) [
    | inl n ↦ rw (m, n) (ih used)
    | inr (n, p) ↦
        rw (m, p)
          (elim (Bool-cases (is_empty (owner_of n used))) [
            | inl u ↦
                rw
                  (
                    u,
                    ih ((n, b.name) ∷ used),
                    is_unused-cons n b.name used (managed_ports lib rest)
                        (parse_service-name lib.repr lib.ip_version k v b e m),
                  )
                  (and_swap (is_parsable lib rest) (is_apart (managed_ports lib rest))
                    (not (any (nat_eq n) (managed_ports lib rest)))
                    (is_unused used (managed_ports lib rest)))
            | inr u ↦ rw u (ground arith)
          ])
  ]
  | inr m ↦ rw m (ih used)
]

validate_services-acceptable :
    {C : Type 0} (lib : Lib C) (services : Fields) (used : UsedPorts)
    → is_ok (validate_services lib services used) ≡ is_acceptable lib services used
unfolding validate_services is_acceptable is_parsable managed_ports validate_service is_apart
    is_unused
validate_services-acceptable lib end used = refl
validate_services-acceptable lib (field k v rest) used =
    elim (Option-cases (parse lib (key_text k) v)) [
      | inl e ↦ rw e refl
      | inr (b, e) ↦ rw e (
          step_acceptable lib (key_text k) v rest used
            (λ u. validate_services-acceptable lib rest u) b e)
    ]

is_ok_iff : {E : Type 0} (r : Result E (Unit {0})) → (r ≡ ok tt) ↔ (is_ok r ≡ true)
is_ok_iff (ok tt) = (λ h. refl, λ h. refl)
is_ok_iff (err e) = (λ h. absurd (cc), λ h. absurd (cc))

-- A document whose services are a mapping is accepted exactly if every service can be parsed and no
-- two of its managed services take the same port.
pub validate_document-ok_iff :
    {C : Type 0} (lib : Lib C) (fields services : Fields)
    → lookup "services" fields ≡ some (mapping services)
    → (validate_document lib fields ≡ ok tt) ↔ (has_distinct_ports lib services ≡ true)
unfolding validate_document is_acceptable
validate_document-ok_iff lib fields services e =
    rw (e, validate_document)
      (subst (λ b. (validate_services lib services [] ≡ ok tt) ↔ (b ≡ true))
        (validate_services-acceptable lib services []
          ∙ ground (arith, is_unused-nil (managed_ports lib services)))
        (is_ok_iff (validate_services lib services [])))
