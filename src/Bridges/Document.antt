-- ===== src/Bridges/Document.antt =====
-- services/bridges.py: _load_document and _validate_document.
use cozy_nm.Base.{
  ℕ, String, Option, none, some, if◌then◌else◌, nat_eq, is_empty, List, [], ◌∷◌, Result, ok, err,
  bind_result,
}
use cozy_nm.Bridges.Yaml.{
  Value, mapping, Fields, end, field, text, key_text, lookup, put, is_truthy,
}
use cozy_nm.Bridges.Service.{BridgeDefinition, parse_service}
use cozy_nm.Bridges.State.{
  BridgeFault, unreadable, document_not_mapping, services_not_mapping, port_used, type_error, Lib,
  World, Document,
}

-- used_ports, the last entry first; a port is entered once
abbrev pub UsedPorts : Type 0
UsedPorts = List (ℕ × String)

unfoldable pub owner_of : ℕ → UsedPorts → String
owner_of n [] = ""
owner_of n ((m, owner) ∷ used) = if nat_eq m n then owner else owner_of n used

unfoldable pub doc_services : Fields → Option Value → Result BridgeFault Document
doc_services fields none =
    ok (record { fields = put "services" (mapping end) fields; services = end })
doc_services fields (some (mapping services)) = ok (record { fields = fields; services = services })
doc_services fields (some _) = err services_not_mapping

unfoldable pub doc_of : Value → Result BridgeFault Document
doc_of (mapping fields) = doc_services fields (lookup "services" fields)
doc_of _ = err document_not_mapping

-- `yaml.safe_load(...) or {}`
unfoldable pub read_document : Option Value → Result BridgeFault Document
read_document none = err unreadable
read_document (some v) = doc_of (if is_truthy v then v else mapping end)

module _ {C : Type 0} (lib : Lib C) where
  unfoldable pub load_document : World C → Option C → Result BridgeFault Document
  load_document world none =
      ok (record { fields = field (text "services") (mapping end) end; services = end })
  load_document world (some contents) =
      if world.readable then read_document (lib.safe_load contents) else err unreadable

  unfoldable pub parse : String → Value → Option BridgeDefinition
  parse = parse_service lib.repr lib.ip_version

  -- the port that a managed service takes
  unfoldable pub taken_port : BridgeDefinition → Option ℕ
  taken_port b = if b.managed then b.listen_port else none

  unfoldable pub claim_port : Option ℕ → String → UsedPorts → Result BridgeFault UsedPorts
  claim_port none name used = ok used
  claim_port (some n) name used =
      if is_empty (owner_of n used)
      then ok ((n, name) ∷ used)
      else err (port_used n (owner_of n used))

  unfoldable pub validate_service :
      String → Option BridgeDefinition → UsedPorts → Result BridgeFault UsedPorts
  validate_service name none used = err type_error
  validate_service name (some b) used = claim_port (taken_port b) b.name used

  unfoldable pub validate_services : Fields → UsedPorts → Result BridgeFault (Unit {0})
  validate_services end used = ok tt
  validate_services (field k v rest) used =
      bind_result (validate_service (key_text k) (parse (key_text k) v) used)
        (validate_services rest)

  unfoldable pub validate_document : Fields → Result BridgeFault (Unit {0})
  validate_document fields = elim (lookup "services" fields) [
    | some (mapping services) ↦ validate_services services []
    | _ ↦ err services_not_mapping
  ]
