-- ===== src/Bridges/ServiceLaws.antt =====
-- What parse_service finds in the services that standard_service writes.
use Prim.Native.String.{[], ◌∷◌}
use cozy_nm.Base.{
  ℕ, ◌≡◌, refl, String, eq_refl, Bool, true, false, not, Option, none, some, arith, if◌then◌else◌,
  is_empty, List, subst, ok,
}
use cozy_nm.Bridges.Yaml.{Value, lookup, key_is, key_text, is_truthy}
use cozy_nm.Base.Dicts.{get, assign, contains}
use cozy_nm.Bridges.Decimal.{decimal, read_int-decimal}
use cozy_nm.Bridges.Names.{is_service_name, is_dns_name}
use cozy_nm.Bridges.Service.{
  BridgeDefinitionInput, BridgeDefinition, validate_bridge_input, standard_service, parse_service,
  parse_mapping, integer, in_port_range, host_result, host_fault, has_odd_key, environment_dict,
  environment_fields, validated, field_faults, unknown_keys, has_env_keys, port_faults, publishes,
  has_text, input_faults, shown_name, published_port,
}

if_same : (b : Bool) (s : String) → (if b then s else s) ≡ s
if_same true s = refl
if_same false s = refl

pub integer-decimal : (n : ℕ) → in_port_range n ≡ true → integer (some (decimal n)) ≡ some n
unfolding integer
integer-decimal n h = rw (read_int-decimal n, h)

host_result-non_empty :
    (ip_version : String → Option ℕ) (host : String)
    → ip_version "" ≡ none
    → host_result (host_fault (ip_version host) (is_dns_name host)) ≡ ok tt
    → is_empty host ≡ false
unfolding is_dns_name
host_result-non_empty ip_version [] e h =
    let r : host_result (host_fault none false) ≡ ok tt =
      subst (λ o. host_result (host_fault o false) ≡ ok tt) e h in
    absurd (cc)
host_result-non_empty ip_version (c ∷ s) e h = refl

-- what a valid input fulfils
pub ok-validate :
    (ip_version : String → Option ℕ) (v : BridgeDefinitionInput)
    → ip_version "" ≡ none
    → validate_bridge_input ip_version v ≡ ok tt
    → (is_service_name v.name ≡ true)
      × (in_port_range v.listen_port ≡ true)
      × (in_port_range v.target_port ≡ true)
      × (is_empty v.target_host ≡ false)
unfolding validate_bridge_input
ok-validate ip_version v e h = ground (arith, host_result-non_empty ip_version v.target_host e)

-- the definition of a bridge that the program wrote itself
abbrev pub own_definition : BridgeDefinitionInput → BridgeDefinition
own_definition v = record {
  name = v.name;
  listen_port = some v.listen_port;
  target_host = some v.target_host;
  target_port = some v.target_port;
  managed = true;
  validation_error = List.[];
  container_name = some v.name;
}

-- The service written for a valid input is parsed as a managed one with the same name, ports and
-- host, if the empty text is no address.
pub parse_service-standard_service :
    (repr : Value → String) (ip_version : String → Option ℕ) (v : BridgeDefinitionInput)
    → ip_version "" ≡ none
    → validate_bridge_input ip_version v ≡ ok tt
    → parse_service repr ip_version v.name (standard_service v) ≡ some (own_definition v)
unfolding parse_service standard_service parse_mapping has_odd_key environment_dict
    environment_fields lookup key_is key_text get assign validated field_faults unknown_keys
    has_env_keys port_faults publishes has_text input_faults shown_name is_truthy contains
parse_service-standard_service repr ip_version v e h =
    let (name, listen, target, host) = ok-validate ip_version v e h in
    rw (
      integer-decimal v.listen_port listen,
      integer-decimal v.target_port target,
      host,
      eq_refl v.name,
      eq_refl (published_port v.listen_port),
      h,
      if_same (not (is_empty v.name)) v.name,
    )
