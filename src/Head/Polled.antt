-- ===== src/Head/Polled.antt =====
-- Every minion that is polled has a node, and then a round of polling gets through.
use cozy_nm.Base.{
  ◌++◌, ◌≡◌, refl, sym, subst, String, ◌==◌, eq_iff, eq_refl, Bool, true, false, not, ◌&&◌, ◌||◌,
  is_some, is_empty, List, [], ◌∷◌, map, All, Result, ok, err, Bool-cases, Option-cases, inl, inr,
}
use cozy_nm.Base.Dicts.{Dict, get, assign, contains, get-assign}
use cozy_nm.Config.Targets.{
  AppConfig, KnownNode, topology_nodes, node_identifier, minion_targets, named_targets,
  nodes_by_name, deployed_targets, no_minions,
}
use cozy_nm.Head.Dns.{DbError}
use cozy_nm.Head.Polling.{
  NodeRow, Database, event, Columns, fits_columns, takes_snapshot, poll_error_text, node_row,
  write_nodes, sync_configured_nodes, get_or_create_node, store_snapshot, store_answer, poll_minion,
  poll_minions, collect_local, adds_node_twice, snapshot_url, store_poll_error,
}

-- the node is in the table
abbrev pub HasNode : Dict NodeRow → String → Type 0
HasNode nodes name = is_some (get name nodes) ≡ true

abbrev pub AllPolled : Dict NodeRow → List (String × String) → Type 0
AllPolled nodes targets = All (λ t. HasNode nodes t.0) targets

HasNode-assign :
    (k name : String) (row : NodeRow) (nodes : Dict NodeRow)
    → HasNode nodes name
    → HasNode (assign k row nodes) name
HasNode-assign k name row nodes h = elim (Bool-cases (k == name)) [
  | inl e ↦ rw (get-assign k name row nodes, e) refl
  | inr e ↦ rw (get-assign k name row nodes, e) h
]

HasNode-assigned :
    (name : String) (row : NodeRow) (nodes : Dict NodeRow) → HasNode (assign name row nodes) name
HasNode-assigned name row nodes = rw (get-assign name name row nodes, eq_refl name) refl

module _ (config : AppConfig) where
  write_nodes-kept :
      (ks : List KnownNode) (nodes : Dict NodeRow) (name : String)
      → HasNode nodes name
      → HasNode (write_nodes config ks nodes) name
  unfolding write_nodes
  write_nodes-kept [] nodes name h = h
  write_nodes-kept (k ∷ ks) nodes name h =
      write_nodes-kept ks _ name (HasNode-assign k.name name (node_row config k) nodes h)

  -- a name of a written node has one
  write_nodes-HasNode :
      (ks : List KnownNode) (nodes : Dict NodeRow) (name : String)
      → contains name (map (λ k. k.name) ks) ≡ true
      → HasNode (write_nodes config ks nodes) name
  unfolding write_nodes contains
  write_nodes-HasNode [] nodes name h = absurd (cc)
  write_nodes-HasNode (k ∷ ks) nodes name h = elim (Bool-cases (k.name == name)) [
    | inl e ↦ write_nodes-kept ks _ name (
        subst (λ n. HasNode (assign k.name (node_row config k) nodes) n) ((eq_iff k.name name).0 e)
          (HasNode-assigned k.name (node_row config k) nodes))
    | inr e ↦ write_nodes-HasNode ks _ name (rw e at h)
  ]

module _ {S : Type 0} (messages : S → List (String × String)) (columns : Columns S) where
  -- what the database is given for the answer of a minion fits its columns
  abbrev pub can_store : (name url : String) → Result String S → Bool
  can_store name url (ok snapshot) = takes_snapshot messages columns name snapshot
  can_store name url (err reason) = fits_columns columns (record {
    node_name = name;
    source = "poller";
    message = poll_error_text messages columns url reason;
  })

  store_answer-ok :
      (name url : String) (answer : Result String S) (db : Database S)
      → can_store name url answer ≡ true
      → (after : Database S) × (store_answer messages columns name url answer db ≡ ok after)
        × (after.nodes ≡ db.nodes)
  unfolding store_snapshot store_poll_error
  store_answer-ok name url (ok snapshot) db h =
      let after : Database S = record db {
        snapshots = db.snapshots ++ (name, snapshot) ∷ [];
        warnings = db.warnings ++ map (event name) (messages snapshot);
      } in
      (after, rw h refl, refl)
  store_answer-ok name url (err reason) db h =
      let after : Database S = record db {
        warnings =
            db.warnings ++ event name ("poller", poll_error_text messages columns url reason) ∷ [];
      } in
      (after, rw h refl, refl)

  get_or_create_node-kept :
      (node name ip : String) (db : Database S)
      → HasNode db.nodes name
      → HasNode (get_or_create_node messages node ip db).nodes name
  unfolding get_or_create_node
  get_or_create_node-kept node name ip db h = elim (Bool-cases (is_some (get node db.nodes))) [
    | inl e ↦ rw e h
    | inr e ↦ rw e (HasNode-assign node name _ db.nodes h)
  ]

  AllPolled-created :
      (node ip : String) (targets : List (String × String)) (db : Database S)
      → AllPolled db.nodes targets
      → AllPolled (get_or_create_node messages node ip db).nodes targets
  AllPolled-created node ip [] db h = tt
  AllPolled-created node ip ((name, url) ∷ targets) db (p, h) =
      (get_or_create_node-kept node name ip db p, AllPolled-created node ip targets db h)

  collect_local-ok :
      (config : AppConfig) (snapshot : S) (targets : List (String × String)) (db : Database S)
      → takes_snapshot messages columns (node_identifier config) snapshot ≡ true
      → AllPolled db.nodes targets
      → (after : Database S) × (collect_local messages columns config snapshot db ≡ ok after)
        × AllPolled after.nodes targets
  unfolding collect_local store_snapshot
  collect_local-ok config snapshot targets db h a =
      let node = node_identifier config in
      let created = get_or_create_node messages node "local" db in
      let after : Database S = record created {
        snapshots = created.snapshots ++ (node, snapshot) ∷ [];
        warnings = created.warnings ++ map (event node) (messages snapshot);
      } in
      (after, rw h refl, AllPolled-created (node_identifier config) "local" targets db a)

  module _ (fetch : String → Result String S) where
    -- the answers of the minions fit
    abbrev pub AllStored : List (String × String) → Type 0
    AllStored targets =
        All (λ t. can_store t.0 t.1 (fetch (snapshot_url messages columns t.1)) ≡ true) targets

    poll_minions-ok :
        (targets : List (String × String)) (db : Database S)
        → AllStored targets
        → AllPolled db.nodes targets
        → (after : Database S) × (poll_minions messages columns fetch targets db ≡ ok after)
    unfolding poll_minions poll_minion
    poll_minions-ok [] db s h = (db, refl)
    poll_minions-ok ((name, url) ∷ targets) db (f, s) (p, h) =
        let answer = fetch (snapshot_url messages columns url) in
        let (polled, e, same) = store_answer-ok name url answer db f in
        let (after, e') =
          poll_minions-ok targets polled s (subst (λ n. AllPolled n targets) (sym same) h) in
        (after, rw (p, e, e') refl)

abbrev Named : List String → List (String × String) → Type 0
Named names targets = All (λ t. contains t.0 names ≡ true) targets

deployed_targets-Named :
    (config : AppConfig) (include_self : Bool) (current : String) (ips names : List String)
    → All (λ ip. contains ip names ≡ true) ips
    → Named names (deployed_targets config include_self current ips)
unfolding deployed_targets
deployed_targets-Named config include_self current [] names h = tt
deployed_targets-Named config include_self current (ip ∷ ips) names (p, h) =
    elim (Bool-cases (not include_self && not (is_empty current) && ip == current)) [
      | inl e ↦ rw e (deployed_targets-Named config include_self current ips names h)
      | inr e ↦ rw e (p, deployed_targets-Named config include_self current ips names h)
    ]

-- a node that is found under a name has it, or was there before
nodes_by_name-named :
    (ks : List KnownNode) (d : Dict KnownNode) (name : String)
    → is_some (get name (nodes_by_name ks d)) ≡ true
    → (contains name (map (λ k. k.name) ks) || is_some (get name d)) ≡ true
unfolding nodes_by_name contains
nodes_by_name-named [] d name h = h
nodes_by_name-named (k ∷ ks) d name h = elim (Bool-cases (k.name == name)) [
  | inl e ↦ rw e refl
  | inr e ↦
      let later = nodes_by_name-named ks (assign k.name k d) name h in
      rw e (rw (get-assign k.name name k d, e) at later)
]

named_targets-Named :
    (config : AppConfig) (include_self : Bool) (nodes : Dict KnownNode)
    (minions names : List String)
    → ((name : String) → is_some (get name nodes) ≡ true → contains name names ≡ true)
    → Named names (named_targets config include_self nodes minions)
unfolding named_targets
named_targets-Named config include_self nodes [] names h = tt
named_targets-Named config include_self nodes (m ∷ ms) names h =
    let rest = named_targets-Named config include_self nodes ms names h in
    elim (Bool-cases (not include_self && m == node_identifier config)) [
      | inl e ↦ rw e rest
      | inr e ↦ elim (Option-cases (get m nodes)) [
        | inl g ↦ rw (e, g) rest
        | inr (n, g) ↦ rw (e, g) (h m (rw g refl), rest)
      ]
    ]

or_false : (b : Bool) → (b || false) ≡ true → b ≡ true
or_false true h = refl
or_false false h = h

module _ (config : AppConfig)
    (deployed : All
      (λ ip. contains ip (map (λ k. k.name) (topology_nodes config)) ≡ true)
      config.deployment.minions) where
  minion_targets-Named :
      Named (map (λ k. k.name) (topology_nodes config)) (minion_targets config false)
  unfolding minion_targets get
  minion_targets-Named = elim (Bool-cases (no_minions config.deployment.minions)) [
    | inr e ↦ rw e (deployed_targets-Named config false _ config.deployment.minions _ deployed)
    | inl e ↦ rw e (
        named_targets-Named config false _ config.minions _
          (λ name h. or_false _ (nodes_by_name-named (topology_nodes config) [] name h)))
  ]

  sync_configured_nodes-AllPolled :
      (nodes synced : Dict NodeRow)
      → sync_configured_nodes config nodes ≡ ok synced
      → (targets : List (String × String))
      → Named (map (λ k. k.name) (topology_nodes config)) targets
      → AllPolled synced targets
  unfolding sync_configured_nodes
  sync_configured_nodes-AllPolled nodes synced h [] n = tt
  sync_configured_nodes-AllPolled nodes synced h ((name, url) ∷ targets) (p, n) =
      (one, sync_configured_nodes-AllPolled nodes synced h targets n)
    where
      one : HasNode synced name
      one = elim (Bool-cases (adds_node_twice (map (λ k. k.name) (topology_nodes config)) nodes)) [
        | inl e ↦ let bad : err DbError.integrity_error ≡ ok synced = rw e at h in absurd (cc (bad))
        | inr e ↦
            let same : ok (write_nodes config (topology_nodes config) nodes) ≡ ok synced =
              rw e at h in
            let q : write_nodes config (topology_nodes config) nodes ≡ synced = cc (same) in
            subst (λ x. HasNode x name) q
              (write_nodes-HasNode config (topology_nodes config) nodes name p)
      ]

  AllPolled-kept :
      (synced later : Dict NodeRow)
      → ((name : String) → HasNode synced name → HasNode later name)
      → (targets : List (String × String)) → AllPolled synced targets
      → AllPolled later targets
  AllPolled-kept synced later kept [] h = tt
  AllPolled-kept synced later kept ((name, url) ∷ targets) (p, h) =
      (kept name p, AllPolled-kept synced later kept targets h)

  -- Where each address of the deployment's minions is the name of a node of the topology, the nodes
  -- that the synchronisation at the start left are still in the table, and the database takes the local
  -- snapshot and what is stored for each minion's answer, the local snapshot and the round over
  -- the minions get through to their end.
  pub poll_minions-synced :
      {S : Type 0} (messages : S → List (String × String)) (columns : Columns S)
      (fetch : String → Result String S) (nodes synced : Dict NodeRow) (db : Database S)
      (snapshot : S)
      → sync_configured_nodes config nodes ≡ ok synced
      → ((name : String) → HasNode synced name → HasNode db.nodes name)
      → takes_snapshot messages columns (node_identifier config) snapshot ≡ true
      → AllStored messages columns fetch (minion_targets config false)
      → (collected after : Database S) × (collect_local messages columns config snapshot db
          ≡ ok collected)
        × (poll_minions messages columns fetch (minion_targets config false) collected ≡ ok after)
  poll_minions-synced messages columns fetch nodes synced db snapshot h kept l s =
      let targets = minion_targets config false in
      let (collected, e, polled) = collect_local-ok messages columns config snapshot targets db l (
        AllPolled-kept synced db.nodes kept targets
          (sync_configured_nodes-AllPolled nodes synced h targets minion_targets-Named)) in
      let (after, e') = poll_minions-ok messages columns fetch targets collected s polled in
      (collected, after, e, e')
