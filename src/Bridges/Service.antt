-- ===== src/Bridges/Service.antt =====
-- One service of the Compose file: validate_bridge_input, _standard_service and _parse_service of
-- services/bridges.py. The parameters are `str` of a collection and the version that ipaddress finds.
-- Port numbers of a request are natural numbers: a negative one is refused as 0 is. A fault of a
-- definition is a value in place of its message.
use Prim.Native.String
use cozy_nm.Base.{
  ℕ, String, ◌==◌, Bool, true, false, not, ◌&&◌, ◌||◌, Option, none, some, if◌then◌else◌, nat_eq,
  leb, is_empty, any_char, take_until, List, [], ◌∷◌, all, any, Result, ok, err, is_some, or_else,
}
use cozy_nm.Base.Dicts.{keys, Dict, get, assign, contains}
use cozy_nm.Bridges.Yaml.{
  null, text, Value, scalar, sequence, mapping, Items, nil, cons, Fields, end, field, key_text,
  lookup, is_truthy,
}
use cozy_nm.Bridges.Decimal.{decimal, read_int}
use cozy_nm.Bridges.Names.{is_service_name, is_dns_name, split_value}

pub record BridgeDefinitionInput : Type 0 where
  pub name : String
  pub listen_port : ℕ
  pub target_host : String
  pub target_port : ℕ

pub data InputFault : Type 0 where
  bad_name : InputFault
  bad_ports : InputFault
  not_ipv4 : InputFault
  bad_host : InputFault

pub data ServiceFault : Type 0 where
  not_a_mapping : ServiceFault
  unsupported_keys : List String → ServiceFault
  wrong_image : ServiceFault
  wrong_build : ServiceFault
  wrong_container_name : ServiceFault
  wrong_restart : ServiceFault
  wrong_environment : ServiceFault
  invalid_ports_or_host : ServiceFault
  unpublished : String → ServiceFault
  invalid_input : InputFault → ServiceFault

pub record BridgeDefinition : Type 0 where
  pub name : String
  pub listen_port : Option ℕ
  pub target_host : Option String
  pub target_port : Option ℕ
  pub managed : Bool
  pub validation_error : List ServiceFault
  pub container_name : Option String

abbrev pub managed_service_keys : List String
managed_service_keys =
    "build" ∷ "image" ∷ "container_name" ∷ "restart" ∷ "ports" ∷ "environment" ∷ []

abbrev pub bridge_env_keys : List String
bridge_env_keys = "LISTEN_PORT" ∷ "TARGET_HOST" ∷ "TARGET_PORT" ∷ []

abbrev pub in_port_range : ℕ → Bool
in_port_range n = leb 1 n && leb n 65535

unfoldable pub integer : Option String → Option ℕ
integer none = none
integer (some s) =
    let parsed = read_int s in if in_port_range (or_else parsed 0) then parsed else none

-- `d[name] == wanted` for a text
abbrev pub is_text : String → Option Value → Bool
is_text wanted (some (scalar (text s))) = s == wanted
is_text wanted _ = false

-- set(raw), as `parse_service` uses it: the texts among the keys that are not supported, and whether
-- such a key is no text
unfoldable pub unknown_keys : Fields → List String
unknown_keys end = []
unknown_keys (field (text s) v rest) =
    let more = unknown_keys rest in if contains s managed_service_keys then more else s ∷ more
unknown_keys (field k v rest) = unknown_keys rest

unfoldable pub has_odd_key : Fields → Bool
has_odd_key end = false
has_odd_key (field (text s) v rest) = has_odd_key rest
has_odd_key (field k v rest) = true

abbrev pub fault_if : Bool → ServiceFault → List ServiceFault → List ServiceFault
fault_if b f faults = if b then f ∷ faults else faults

unfoldable pub has_env_keys : Dict String → Bool
has_env_keys e =
    all (λ k. contains k bridge_env_keys) (keys e) && all (λ k. contains k (keys e)) bridge_env_keys

-- f"{port}:{port}"
abbrev pub published_port : ℕ → String
published_port n = String.◌++◌ (decimal n) (String.◌++◌ ":" (decimal n))

unfoldable pub standard_service : BridgeDefinitionInput → Value
standard_service v =
    let port = decimal v.listen_port in
    mapping (
      field (text "build") (scalar (text ".")) (
        field (text "image") (scalar (text "socat-bridge:latest")) (
          field (text "container_name") (scalar (text v.name)) (
            field (text "restart") (scalar (text "unless-stopped")) (
              field (text "ports")
                (sequence (cons (scalar (text (published_port v.listen_port))) nil))
                (field (text "environment")
                  (mapping (
                    field (text "LISTEN_PORT") (scalar (text port)) (
                      field (text "TARGET_HOST") (scalar (text v.target_host))
                        (field (text "TARGET_PORT") (scalar (text (decimal v.target_port))) end))))
                  end))))))

module _ (repr : Value → String) where
  -- str(value)
  abbrev pub value_text : Value → String
  value_text (scalar s) = key_text s
  value_text v = repr v

  unfoldable pub environment_fields : Fields → Dict String → Dict String
  environment_fields end d = d
  environment_fields (field k (scalar null) rest) d = environment_fields rest d
  environment_fields (field k v rest) d =
      environment_fields rest (assign (key_text k) (value_text v) d)

  unfoldable pub has_text : String → Items → Bool
  has_text s nil = false
  has_text s (cons v rest) = value_text v == s || has_text s rest

unfoldable pub environment_items : Items → Dict String → Dict String
environment_items nil d = d
environment_items (cons (scalar (text s)) rest) d =
    environment_items rest (
      if any_char (nat_eq b'=') s then assign (take_until (nat_eq b'=') s) (split_value s) d else d)
environment_items (cons v rest) d = environment_items rest d

-- the host's fault, by what ipaddress finds
abbrev pub host_fault : Option ℕ → Bool → Option InputFault
host_fault (some v) named = if nat_eq v 4 then none else some not_ipv4
host_fault none named = if named then none else some bad_host

abbrev pub host_result : Option InputFault → Result InputFault (Unit {0})
host_result none = ok tt
host_result (some f) = err f

unfoldable pub validate_bridge_input :
    (String → Option ℕ) → BridgeDefinitionInput → Result InputFault (Unit {0})
validate_bridge_input ip_version v =
    if not (is_service_name v.name)
    then err bad_name
    else if not (in_port_range v.listen_port && in_port_range v.target_port)
    then err bad_ports
    else host_result (host_fault (ip_version v.target_host) (is_dns_name v.target_host))

module _ (repr : Value → String) (ip_version : String → Option ℕ) where
  unfoldable pub environment_dict : Option Value → Dict String
  environment_dict (some (mapping d)) = environment_fields repr d []
  environment_dict (some (sequence l)) = environment_items l []
  environment_dict _ = []

  -- the ports of a service publish `expected`
  unfoldable pub publishes : String → Option Value → Bool
  publishes expected (some (sequence l)) = has_text repr expected l
  publishes expected _ = false

  unfoldable pub port_faults : Option ℕ → Option Value → List ServiceFault
  port_faults none ports = []
  port_faults (some n) ports =
      let expected = published_port n in
      if publishes expected ports then [] else unpublished expected ∷ []

  unfoldable pub input_faults : Result InputFault (Unit {0}) → List ServiceFault
  input_faults (ok u) = []
  input_faults (err f) = invalid_input f ∷ []

  -- the last test, for a service without a fault so far
  unfoldable pub validated :
      String → Option ℕ → Option String → Option ℕ → List ServiceFault → List ServiceFault
  validated name (some l) (some h) (some t) [] = input_faults (
      validate_bridge_input ip_version
        (record { name = name; listen_port = l; target_host = h; target_port = t }))
  validated name l h t faults = faults

  -- str(raw.get("container_name") or name)
  unfoldable pub shown_name : String → Option Value → String
  shown_name name (some v) = if is_truthy v then value_text repr v else name
  shown_name name none = name

  -- the faults of the fields, in the order of the source
  unfoldable pub field_faults : String → Fields → Dict String → List ServiceFault
  field_faults name raw env =
      let listen = integer (get "LISTEN_PORT" env) in
      let target = integer (get "TARGET_PORT" env) in
      let host = or_else (get "TARGET_HOST" env) "" in
      let unknown = unknown_keys raw in
      fault_if (any (λ k. true) unknown) (unsupported_keys unknown) (
        fault_if (not (is_text "socat-bridge:latest" (lookup "image" raw))) wrong_image (
          fault_if (not (is_text "." (lookup "build" raw))) wrong_build (
            fault_if (not (is_text name (lookup "container_name" raw))) wrong_container_name (
              fault_if (not (is_text "unless-stopped" (lookup "restart" raw))) wrong_restart (
                fault_if (not (has_env_keys env)) wrong_environment (
                  fault_if (not (is_some listen) || not (is_some target) || is_empty host)
                    invalid_ports_or_host (port_faults listen (lookup "ports" raw))))))))

  abbrev pub no_faults : List ServiceFault → Bool
  no_faults [] = true
  no_faults (f ∷ fs) = false

  unfoldable pub parse_mapping : String → Fields → BridgeDefinition
  parse_mapping name raw =
      let env = environment_dict (lookup "environment" raw) in
      let listen = integer (get "LISTEN_PORT" env) in
      let host = get "TARGET_HOST" env in
      let target = integer (get "TARGET_PORT" env) in
      let faults = validated name listen host target (field_faults name raw env) in
      record {
        name = name;
        listen_port = listen;
        target_host = host;
        target_port = target;
        managed = no_faults faults;
        validation_error = faults;
        container_name = some (shown_name name (lookup "container_name" raw));
      }

  -- none where `join` meets a key that is no text and raises TypeError
  unfoldable pub parse_service : String → Value → Option BridgeDefinition
  parse_service name (mapping raw) = if has_odd_key raw then none else some (parse_mapping name raw)
  parse_service name _ = some (record {
    name = name;
    listen_port = none;
    target_host = none;
    target_port = none;
    managed = false;
    validation_error = not_a_mapping ∷ [];
    container_name = none;
  })
