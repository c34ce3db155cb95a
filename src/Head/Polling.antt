-- ===== src/Head/Polling.antt =====
-- db/init_db.py: sync_configured_nodes; services/nodes.py: how nodes, snapshots and warnings are stored;
-- services/poller.py: one round of polling. The tables are in one state: nodes by name with their
-- address and minion URL, snapshots and warnings in the order of their ids. A session does not flush
-- before a query. Snapshots are of a type that is a parameter, with the warnings and errors in them.
use Prim.Native.String
use Prim.Native.String.{count}
use cozy_nm.Base.{
  leb, all, String, Bool, true, false, not, ◌&&◌, ◌||◌, Option, none, some, is_some, if◌then◌else◌,
  nat_eq, rstrip, List, [], ◌∷◌, ◌++◌, map, Result, ok, err, bind_result,
}
use cozy_nm.Base.Dicts.{Dict, get, assign, contains}
use cozy_nm.Bridges.Decimal.{decimal}
use cozy_nm.Config.Checks.{dns_names}
use cozy_nm.Config.Targets.{AppConfig, KnownNode, topology_nodes, node_identifier, minion_targets}
use cozy_nm.Head.Dns.{DnsMapping, DbError, refresh_dns_records}

pub record NodeRow : Type 0 where
  pub expected_vpn_ip : String
  pub minion_api_url : Option String

pub record WarningEvent : Type 0 where
  pub node_name : String
  pub source : String
  pub message : String

pub record Database (S : Type 0) : Type 0 where
  pub nodes : Dict NodeRow
  pub snapshots : List (String × S)
  pub warnings : List WarningEvent
  pub records : List DnsMapping

unfoldable pub node_row : AppConfig → KnownNode → NodeRow
node_row config known = record {
  expected_vpn_ip = known.expected_vpn_ip;
  minion_api_url =
      if contains known.name config.minions
        || contains known.expected_vpn_ip config.deployment.minions
      then some (
          String.◌++◌ "http://"
            (String.◌++◌ known.expected_vpn_ip (String.◌++◌ ":" (decimal config.minion_port))))
      else none;
}

unfoldable pub write_nodes : AppConfig → List KnownNode → Dict NodeRow → Dict NodeRow
write_nodes config [] nodes = nodes
write_nodes config (known ∷ more) nodes =
    write_nodes config more (assign known.name (node_row config known) nodes)

-- a name without a row that comes twice is added twice, which the unique names refuse
unfoldable pub adds_node_twice : List String → Dict NodeRow → Bool
adds_node_twice [] nodes = false
adds_node_twice (name ∷ names) nodes =
    contains name names && not (is_some (get name nodes)) || adds_node_twice names nodes

unfoldable pub sync_configured_nodes : AppConfig → Dict NodeRow → Result DbError (Dict NodeRow)
sync_configured_nodes config nodes =
    if adds_node_twice (map (λ k. k.name) (topology_nodes config)) nodes
    then err DbError.integrity_error
    else ok (write_nodes config (topology_nodes config) nodes)

-- what ends the task of the poller; `not_stored` is a commit that the database refuses
pub data PollFault : Type 0 where
  not_stored : PollFault
  no_result_found : String → PollFault
  dns_not_stored : PollFault

abbrev pub event : (name : String) → String × String → WarningEvent
event name (source, message) = record { node_name = name; source = source; message = message }

-- what the columns of the database take besides the lengths: a text, and a snapshot as JSON
pub record Columns (S : Type 0) : Type 0 where
  pub takes_text : String → Bool
  pub takes_json : S → Bool

-- two of the columns are String(120)
unfoldable pub fits_columns : {S : Type 0} → Columns S → WarningEvent → Bool
fits_columns columns event =
    leb (count event.node_name) 120
    && leb (count event.source) 120
    && columns.takes_text event.node_name
    && columns.takes_text event.source
    && columns.takes_text event.message

module _ {S : Type 0} (messages : S → List (String × String)) where
  unfoldable pub get_or_create_node : (name expected_vpn_ip : String) → Database S → Database S
  get_or_create_node name expected_vpn_ip db =
      if is_some (get name db.nodes) then db else record db {
        nodes =
            assign name (record { expected_vpn_ip = expected_vpn_ip; minion_api_url = none })
              db.nodes;
      }

  module _ (columns : Columns S) where
    -- one commit takes the snapshot and its warnings, or nothing
    unfoldable pub takes_snapshot : (name : String) → S → Bool
    takes_snapshot name snapshot =
        columns.takes_json snapshot
        && all (fits_columns columns) (map (event name) (messages snapshot))

    unfoldable pub store_snapshot : (name : String) → S → Database S → Result PollFault (Database S)
    store_snapshot name snapshot db =
        if takes_snapshot name snapshot
        then ok (record db {
          snapshots = db.snapshots ++ (name, snapshot) ∷ [];
          warnings = db.warnings ++ map (event name) (messages snapshot);
        })
        else err not_stored

    unfoldable pub store_poll_error :
        (name source message : String) → Database S → Result PollFault (Database S)
    store_poll_error name source message db =
        if fits_columns columns (event name (source, message))
        then ok (record db { warnings = db.warnings ++ event name (source, message) ∷ [] })
        else err not_stored

    unfoldable pub snapshot_url : (url : String) → String
    snapshot_url url = String.◌++◌ (rstrip (nat_eq b'/') url) "/api/v1/snapshot"

    abbrev pub poll_error_text : (url reason : String) → String
    poll_error_text url reason =
        String.◌++◌ "cannot poll " (String.◌++◌ (snapshot_url url) (String.◌++◌ ": " reason))

    -- the snapshot, or the text of the exception
    abbrev pub store_answer :
        (name url : String) → Result String S → Database S → Result PollFault (Database S)
    store_answer name url (ok snapshot) db = store_snapshot name snapshot db
    store_answer name url (err reason) db =
        store_poll_error name "poller" (poll_error_text url reason) db

    unfoldable pub collect_local : AppConfig → S → Database S → Result PollFault (Database S)
    collect_local config snapshot db =
        store_snapshot (node_identifier config) snapshot
          (get_or_create_node (node_identifier config) "local" db)

    abbrev refreshed :
        Database S
        → Result DbError (List DnsMapping) × List DnsMapping
        → Result PollFault (Database S)
    refreshed db (err e, rows) = err dns_not_stored
    refreshed db (ok mappings, rows) = ok (record db { records = rows })

    abbrev pub no_names : List String → List String → Bool
    no_names [] [] = true
    no_names _ _ = false

    -- `mappings` are what the names of the configuration are resolved to
    unfoldable pub refresh_dns :
        (domains hostnames : List String)
        → List DnsMapping
        → Database S
        → Result PollFault (Database S)
    refresh_dns domains hostnames mappings db =
        if no_names (dns_names domains) (dns_names hostnames)
        then ok db
        else refreshed db (refresh_dns_records mappings db.records)

    module _ (fetch : (url : String) → Result String S) where
      -- the node is looked up before the `try` statement, and the snapshot is stored behind it
      unfoldable pub poll_minion : (name url : String) → Database S → Result PollFault (Database S)
      poll_minion name url db =
          if is_some (get name db.nodes)
          then store_answer name url (fetch (snapshot_url url)) db
          else err (no_result_found name)

      unfoldable pub poll_minions :
          List (String × String) → Database S → Result PollFault (Database S)
      poll_minions [] db = ok db
      poll_minions ((name, url) ∷ targets) db =
          bind_result (poll_minion name url db) (poll_minions targets)

      unfoldable pub poll_once :
          AppConfig
          → (domains hostnames : List String) → S
          → List DnsMapping
          → Database S
          → Result PollFault (Database S)
      poll_once config domains hostnames snapshot mappings db =
          bind_result (collect_local config snapshot db) λ collected.
            bind_result (poll_minions (minion_targets config false) collected)
              λ polled. refresh_dns domains hostnames mappings polled
