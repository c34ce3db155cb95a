-- ===== src/Devices/Stored.antt =====
-- What ensure_device_nodes leaves in the table of nodes.
use cozy_nm.Base.{
  ◌≡◌, refl, sym, subst, ap, ◌∙◌, String, ◌==◌, eq_refl, Bool, true, false, not, ◌&&◌, ◌||◌, arith,
  if◌then◌else◌, List, [], ◌∷◌, ◌++◌, map, length, all, Bool-cases, inl, inr,
}
use cozy_nm.Base.Dicts.{contains}
use cozy_nm.Devices.Inventory.{
  DeviceStatus, Node, fresh_name, new_nodes, node_ips, node_names, ensure_device_nodes,
}
use cozy_nm.Devices.Naming.{contains-search}

-- the name given to a node is taken by no other
fresh_name-free :
    (name ip : String) (names : List String) → contains (fresh_name name ip names) names ≡ false
unfolding fresh_name
fresh_name-free name ip names =
    elim (Bool-cases (contains (if contains name names then ip else name) names)) [
      | inr e ↦ rw e e
      | inl e ↦ rw e (
          contains-search (length names) (if contains name names then ip else name) 2 names
            (omega arith))
    ]

-- the members of `xs` are not in `seen` and differ from each other
unfoldable pub is_new : List String → List String → Bool
is_new seen [] = true
is_new seen (x ∷ xs) = not (contains x seen) && is_new (x ∷ seen) xs

new_nodes-names :
    (ds : List DeviceStatus) (ips names : List String)
    → is_new names (node_names (new_nodes ds ips names)) ≡ true
unfolding new_nodes is_new
new_nodes-names [] ips names = refl
new_nodes-names (d ∷ ds) ips names = elim (Bool-cases (contains d.ip ips)) [
  | inl k ↦ rw k (new_nodes-names ds ips names)
  | inr k ↦
      rw (k, fresh_name-free d.name d.ip names)
        (new_nodes-names ds (d.ip ∷ ips) (fresh_name d.name d.ip names ∷ names))
]

or_swap : (a b c : Bool) → ((a || b) || c) ≡ (b || (a || c))
or_swap a b c = ground arith

or_false : (b : Bool) → b ≡ (b || false)
or_false b = ground arith

and_assoc : (a b c : Bool) → (a && (b && c)) ≡ ((a && b) && c)
and_assoc a b c = ground arith

is_new_same :
    (seen seen' xs : List String)
    → ((z : String) → contains z seen ≡ contains z seen')
    → is_new seen xs ≡ is_new seen' xs
unfolding is_new contains
is_new_same seen seen' [] h = refl
is_new_same seen seen' (x ∷ xs) h =
    rw (h x, is_new_same (x ∷ seen) (x ∷ seen') xs (λ z. ap (λ b. x == z || b) (h z)))

is_new-append :
    (seen seen' xs ys : List String)
    → ((z : String) → contains z seen' ≡ (contains z xs || contains z seen))
    → is_new seen (xs ++ ys) ≡ (is_new seen xs && is_new seen' ys)
unfolding is_new contains
is_new-append seen seen' [] ys h = is_new_same seen seen' ys (λ z. sym (h z))
is_new-append seen seen' (x ∷ xs) ys h =
    let ih =
      is_new-append (x ∷ seen) seen' xs ys
        (λ z. h z ∙ or_swap (x == z) (contains z xs) (contains z seen)) in
    rw ih (and_assoc (not (contains x seen)) (is_new (x ∷ seen) xs) (is_new seen' ys))

pub map-append :
    {A B : Type 0} (f : A → B) (xs ys : List A) → map f (xs ++ ys) ≡ map f xs ++ map f ys
map-append f [] ys = refl
map-append f (x ∷ xs) ys = ap (λ l. f x ∷ l) (map-append f xs ys)

-- Where the names of the nodes differ from each other, they still do after nodes were added.
pub ensure_device_nodes-distinct :
    (devices : List DeviceStatus) (nodes : List Node)
    → is_new [] (node_names nodes) ≡ true
    → is_new [] (node_names (ensure_device_nodes devices nodes)) ≡ true
unfolding ensure_device_nodes contains
ensure_device_nodes-distinct devices nodes h =
    let names = node_names nodes in
    let added = new_nodes devices (node_ips nodes) names in
    rw (
      map-append (λ n. n.name) nodes added,
      is_new-append [] names names (node_names added) (λ z. or_false (contains z names)),
      h,
      new_nodes-names devices (node_ips nodes) names,
    )

all_same : {A : Type 0} (f g : A → Bool) (xs : List A) → ((x : A) → f x ≡ g x) → all f xs ≡ all g xs
all_same f g [] h = refl
all_same f g (x ∷ xs) h = rw (h x, all_same f g xs h)

pub contains-append :
    (x : String) (xs ys : List String) → contains x (xs ++ ys) ≡ (contains x xs || contains x ys)
unfolding contains
contains-append x [] ys = refl
contains-append x (y ∷ xs) ys = ground (arith, contains-append x xs ys)

new_nodes_known :
    (d : DeviceStatus) (ds : List DeviceStatus) (ips names : List String)
    → contains d.ip ips ≡ true
    → new_nodes (d ∷ ds) ips names ≡ new_nodes ds ips names
unfolding new_nodes
new_nodes_known d ds ips names k = rw k refl

new_nodes_added :
    (d : DeviceStatus) (ds : List DeviceStatus) (ips names : List String)
    → contains d.ip ips ≡ false
    → new_nodes (d ∷ ds) ips names
      ≡ record { name = fresh_name d.name d.ip names; expected_vpn_ip = d.ip }
        ∷ new_nodes ds (d.ip ∷ ips) (fresh_name d.name d.ip names ∷ names)
unfolding new_nodes
new_nodes_added d ds ips names k = rw k refl

covered :
    (ds : List DeviceStatus) (ips names : List String)
    → all (λ e. contains e.ip ips || contains e.ip (node_ips (new_nodes ds ips names))) ds ≡ true
unfolding contains
covered [] ips names = refl
covered (d ∷ ds) ips names = elim (Bool-cases (contains d.ip ips)) [
  | inl k ↦
      subst (λ l. all (λ e. contains e.ip ips || contains e.ip (node_ips l)) (d ∷ ds) ≡ true)
        (sym (new_nodes_known d ds ips names k)) (rw k (covered ds ips names))
  | inr k ↦
      let names' = fresh_name d.name d.ip names ∷ names in
      let later = node_ips (new_nodes ds (d.ip ∷ ips) names') in
      subst (λ l. all (λ e. contains e.ip ips || contains e.ip (node_ips l)) (d ∷ ds) ≡ true)
        (sym (new_nodes_added d ds ips names k))
        (rw (k, eq_refl d.ip)
          (sym (
              all_same (λ e. (d.ip == e.ip || contains e.ip ips) || contains e.ip later)
                (λ e. contains e.ip ips || (d.ip == e.ip || contains e.ip later)) ds
                (λ e. or_swap (d.ip == e.ip) (contains e.ip ips) (contains e.ip later)))
            ∙ covered ds (d.ip ∷ ips) names'))
]

-- Every device has a node with its address afterwards.
pub ensure_device_nodes-covers :
    (devices : List DeviceStatus) (nodes : List Node)
    → all (λ d. contains d.ip (node_ips (ensure_device_nodes devices nodes))) devices ≡ true
unfolding ensure_device_nodes
ensure_device_nodes-covers devices nodes =
    let added = new_nodes devices (node_ips nodes) (node_names nodes) in
    rw (map-append (λ n. n.expected_vpn_ip) nodes added) (
      all_same (λ d. contains d.ip (node_ips nodes ++ node_ips added))
        (λ d. contains d.ip (node_ips nodes) || contains d.ip (node_ips added)) devices
        (λ d. contains-append d.ip (node_ips nodes) (node_ips added))
      ∙ covered devices (node_ips nodes) (node_names nodes))
