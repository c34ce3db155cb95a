-- ===== src/Head/Owners.antt =====
-- Whom an address belongs to: `build_dns_ip_map` in one look.
use cozy_nm.Base.{
  ◌≡◌, refl, sym, subst, String, ◌==◌, eq_iff, not, ◌&&◌, Option, none, some, if◌then◌else◌,
  is_empty, List, [], ◌∷◌, Bool-cases, Option-cases, inl, inr,
}
use cozy_nm.Base.Dicts.{Dict, get, assign, get-assign}
use cozy_nm.Devices.Inventory.{DeviceStatus, Node}
use cozy_nm.Head.Dns.{
  device_endpoint_ip, note_nodes, note_public, note_publics, note_endpoint, note_devices,
  build_dns_ip_map,
}
use cozy_nm.Mounts.Exports.{set_default}

-- the first of two that is there
abbrev pub first_of : Option String → Option String → Option String
first_of none b = b
first_of (some a) b = some a

-- a name if the address is the one that is asked for, and not empty
abbrev pub if_at : Option String → (ip name : String) → Option String
if_at none ip name = none
if_at (some a) ip name = if not (is_empty a) && a == ip then some name else none

module _ (ip : String) where
  -- the last node with the address in the VPN
  unfoldable pub vpn_owner : List Node → Option String
  vpn_owner [] = none
  vpn_owner (n ∷ ns) =
      first_of (vpn_owner ns) (if n.expected_vpn_ip == ip then some n.name else none)

  -- the last node with the public address
  unfoldable pub public_owner : (Node → Option String) → List Node → Option String
  public_owner public [] = none
  public_owner public (n ∷ ns) = first_of (public_owner public ns) (if_at (public n) ip n.name)

  -- the last device with the address
  unfoldable pub device_owner : List DeviceStatus → Option String
  device_owner [] = none
  device_owner (d ∷ ds) = first_of (device_owner ds) (if d.ip == ip then some d.name else none)

  -- the first device with the global address as its endpoint
  unfoldable pub endpoint_owner : (String → Option String) → List DeviceStatus → Option String
  endpoint_owner global_ip [] = none
  endpoint_owner global_ip (d ∷ ds) =
      first_of (if_at (device_endpoint_ip global_ip d.endpoint) ip d.name)
        (endpoint_owner global_ip ds)

  first_of_assoc : (a b c : Option String) → first_of (first_of a b) c ≡ first_of a (first_of b c)
  first_of_assoc none b c = refl
  first_of_assoc (some x) b c = refl

  first_of-none : (a : Option String) → first_of a none ≡ a
  first_of-none none = refl
  first_of-none (some x) = refl

  get_after :
      (k name : String) (m : Dict String)
      → get ip (assign k name m) ≡ first_of (if k == ip then some name else none) (get ip m)
  get_after k name m = elim (Bool-cases (k == ip)) [
    | inl e ↦ rw (get-assign k ip name m, e)
    | inr e ↦ rw (get-assign k ip name m, e)
  ]

  module _ (global_ip : String → Option String) where
    get-note_nodes :
        (ns : List Node) (m : Dict String)
        → get ip (note_nodes global_ip ns m) ≡ first_of (vpn_owner ns) (get ip m)
    unfolding note_nodes vpn_owner
    get-note_nodes [] m = refl
    get-note_nodes (n ∷ ns) m = rw (
      get-note_nodes ns (assign n.expected_vpn_ip n.name m),
      get_after n.expected_vpn_ip n.name m,
      first_of_assoc (vpn_owner ns) (if n.expected_vpn_ip == ip then some n.name else none)
          (get ip m),
    )

    get-note_public :
        (n : Node) (o : Option String) (m : Dict String)
        → get ip (note_public global_ip n o m) ≡ first_of (if_at o ip n.name) (get ip m)
    get-note_public n none m = refl
    get-note_public n (some a) m = elim (Bool-cases (is_empty a)) [
      | inl e ↦ rw e
      | inr e ↦ rw e (get_after a n.name m)
    ]

    get-note_publics :
        (public : Node → Option String) (ns : List Node) (m : Dict String)
        → get ip (note_publics global_ip public ns m) ≡ first_of (public_owner public ns) (get ip m)
    unfolding note_publics public_owner
    get-note_publics public [] m = refl
    get-note_publics public (n ∷ ns) m = rw (
      get-note_publics public ns (note_public global_ip n (public n) m),
      get-note_public n (public n) m,
      first_of_assoc (public_owner public ns) (if_at (public n) ip n.name) (get ip m),
    )

    get-set_default :
        (k name : String) (m : Dict String)
        → get ip (set_default k name m) ≡ first_of (get ip m) (if k == ip then some name else none)
    unfolding set_default
    get-set_default k name m = elim (Option-cases (get k m)) [
      | inl g ↦ elim (Bool-cases (k == ip)) [
        | inl e ↦
            let here : get ip m ≡ none = subst (λ x. get x m ≡ none) ((eq_iff k ip).0 e) g in
            rw (g, get_after k name m, here, e)
        | inr e ↦ rw (g, get_after k name m, e) (sym (first_of-none (get ip m)))
      ]
      | inr (w, g) ↦ elim (Bool-cases (k == ip)) [
        | inl e ↦
            let here : get ip m ≡ some w = subst (λ x. get x m ≡ some w) ((eq_iff k ip).0 e) g in
            rw (g, here)
        | inr e ↦ rw (g, e) (sym (first_of-none (get ip m)))
      ]
    ]

    get-note_endpoint :
        (d : DeviceStatus) (o : Option String) (m : Dict String)
        → get ip (note_endpoint global_ip d o m) ≡ first_of (get ip m) (if_at o ip d.name)
    get-note_endpoint d none m = sym (first_of-none (get ip m))
    get-note_endpoint d (some a) m = elim (Bool-cases (is_empty a)) [
      | inl e ↦ rw e (sym (first_of-none (get ip m)))
      | inr e ↦ rw e (get-set_default a d.name m)
    ]

    get-note_devices :
        (ds : List DeviceStatus) (m : Dict String)
        → get ip (note_devices global_ip ds m)
          ≡ first_of (device_owner ds) (first_of (get ip m) (endpoint_owner global_ip ds))
    unfolding note_devices device_owner endpoint_owner
    get-note_devices [] m = sym (first_of-none (get ip m))
    get-note_devices (d ∷ ds) m =
        let e = device_endpoint_ip global_ip d.endpoint in
        let own = if d.ip == ip then some d.name else none in
        rw (
          get-note_devices ds (note_endpoint global_ip d e (assign d.ip d.name m)),
          get-note_endpoint d e (assign d.ip d.name m),
          get_after d.ip d.name m,
          first_of_assoc (first_of own (get ip m)) (if_at e ip d.name)
              (endpoint_owner global_ip ds),
          first_of_assoc own (get ip m)
              (first_of (if_at e ip d.name) (endpoint_owner global_ip ds)),
          first_of_assoc (device_owner ds) own
              (first_of (get ip m) (first_of (if_at e ip d.name) (endpoint_owner global_ip ds))),
        )

    -- An address belongs to the last device that has it; or else to the last node that has it as its
    -- public address, or else to the last one with it in the VPN; or else to the first device that
    -- has it as its endpoint.
    pub build_dns_ip_map-get :
        (public : Node → Option String) (nodes : List Node) (devices : List DeviceStatus)
        → get ip (build_dns_ip_map global_ip public nodes devices)
          ≡ first_of (device_owner devices) (
              first_of
                (first_of (public_owner public nodes) (vpn_owner nodes))
                (endpoint_owner global_ip devices))
    unfolding build_dns_ip_map get
    build_dns_ip_map-get public nodes devices = rw (
      get-note_devices devices
          (note_publics global_ip public nodes (note_nodes global_ip nodes [])),
      get-note_publics public nodes (note_nodes global_ip nodes []),
      get-note_nodes nodes [],
      first_of-none (vpn_owner nodes),
    )
