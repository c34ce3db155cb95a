-- ===== src/Lib.antt =====
-- cozy-nm: a head that inventories a WireGuard network, and minions that report on their hosts and
-- manage socat bridges there.
--
-- The program's parts. On the head, HeadAuthMiddleware (middleware/head_auth.py) stands before
-- every request: it asks the HeadAuthStore (services/head_auth.py) for the session and tests the
-- origin of unsafe requests. The pages below /auth (api/auth.py) call the same store to set, change
-- and remove the password and to sign in and out, and the LoginThrottle to slow down guesses. On a
-- minion, the BridgeManager (services/bridges.py) edits a Docker Compose file that holds one
-- service for each bridge, and runs docker compose on it; the API of the minion calls it, and the
-- head calls that API (services/bridge_client.py) for the forms of its pages (api/head.py). The
-- collectors of a minion report on its host: the WireGuard peers, the interfaces that nginx and
-- Transmission offer (collectors/public_interfaces.py), and the mounts and exports
-- (collectors/mounts.py). The head polls the minions (services/poller.py) and stores what they
-- report (services/nodes.py), and looks up the DNS names of the configuration (services/dns.py).
-- The head also keeps an inventory of the WireGuard clients (services/devices.py): a scan makes a
-- status for every client and topology node, and storing it adds a node for every new address.
--
-- The files, with the code below cozy_network_manager/app that they model:
--
--   HeadAuth.State        services/head_auth.py, lines 21 to 85: constants, errors, stored models
--   HeadAuth.Store        HeadAuthStore: setup, login, change_password, disable, logout,
--                         session_valid, over `AuthFile`, the file at the store's path
--   HeadAuth.Throttle     LoginThrottle: failed, succeeded, over the table of failures
--   HeadAuth.Origin       safe_next_url, same_origin
--   HeadAuth.Middleware   middleware/head_auth.py: `call` is HeadAuthMiddleware.__call__
--   HeadAuth.Routes       api/auth.py: one function for each handler
--   Bridges.Yaml          the values that yaml.safe_load builds, and Python's dictionaries of them
--   Bridges.Decimal       str and int for natural numbers
--   Bridges.Names         SERVICE_NAME_RE, DNS_NAME_RE, splitting of NAME=value entries
--   Bridges.Service       services/bridges.py: validate_bridge_input, _standard_service,
--                         _parse_service, and the bridge models of schemas.py
--   Bridges.State         errors, files, commands, and what the surroundings answer
--   Bridges.Document      _load_document, _validate_document
--   Bridges.Compose       _ensure_paths, _locked, _run_compose, _write_document, the noted hash
--   Bridges.View          project, _runtime_containers
--   Bridges.Manager       create, update, delete, service_action, apply_project, restart_project
--   Minion.Api            api/minion.py: the token guard and the handlers of the bridge API
--   Devices.Inventory     services/devices.py: store_device_statuses, ensure_device_nodes
--   Devices.Scan          services/devices.py: parse_wg_peer_states, scan_wireguard_clients
--   Collectors.Wireguard  collectors/wireguard.py: parse_wg_dump, collect_wireguard
--   Config.Targets        config.py: bridge_host, node_identifier, topology_nodes, minion_targets
--   Config.Checks         config.py: the DNS lists, positive_int, unique_hosts
--   Hosts.Paths           texts of virtual paths, and pathlib's rules on their parts
--   Hosts.Files           the files of a host, as the readers of nginx and sshd files see them:
--                         _safe_virtual_path, _actual_path, _follow_symlink, for both readers
--   Nginx.Tokens, Nginx.Directives
--                         collectors/public_interfaces.py: _tokenize and the parser of directives
--   Nginx.Reader          _NginxConfigReader: includes, links, files
--   Nginx.Sites           the servers of a configuration, their listeners and host names
--   Nginx.Sockets         the sockets that are open
--   Nginx.Interfaces      _collect_nginx and the status of a URL
--   Nginx.Transmission    _collect_transmission and collect_public_interfaces
--   Mounts.Table          collectors/mounts.py: mountinfo and the SSHFS mounts
--   Mounts.Windows        the directories of Windows guests
--   Mounts.SshConfig      _SshConfigReader
--   Mounts.Exports        the SFTP exports and collect_mount_topology
--   Mounts.Correlated     services/mounts.py: names of nodes, target directories and exports
--   Mounts.Rows           services/mounts.py: correlate_sshfs_mounts, a row for each mount
--   Head.BridgeClient     services/bridge_client.py
--   Head.Forwards         api/head.py: the form routes of the bridges
--   Head.Dns              services/dns.py
--   Head.Polling          db/init_db.py: sync_configured_nodes; services/nodes.py: how reports are
--                         stored; services/poller.py: poll_once and what it calls
--
-- The other files hold lemmas and theorems on these and the tests: HeadAuth.Tests,
-- HeadAuth.PageTests, Bridges.Tests, Minion.Tests, Devices.Tests, Collectors.Tests, Config.Tests,
-- Nginx.Tests, Mounts.Tests and Head.Tests run the model at concrete inputs. Base holds what the
-- parts share: tests on numbers, lists, texts walked by character, results, operations on a state
-- that may raise (what was written before a raise stays written), and dictionaries with text keys.
--
-- How state is modelled. An operation is a function from the state to its result and the next
-- state. A lock is taken for the whole of an operation in the program, so operations follow one
-- another, and a history is a list of calls. What the operating system, the clock, the source of
-- randomness, the docker command and the container list answer is an argument of the call: a draw
-- for the store, a `World` for the manager, in which the operating system may also fail at any step
-- of a write, with a second one for the view of the project at the end of a call. A file of a host
-- is a text, OSError, or UnicodeDecodeError, and a ping may take too long.
--
-- Parameters. hashlib, base64, secrets and pydantic's parser for the store; urlencode and the check
-- of a network location in urlsplit for the pages; PyYAML, sha256, ipaddress and `str` of a
-- collection for the bridges; ping, the health check of a minion and membership in the subnets for
-- the scan. The contents of the Compose file are of a type that is a parameter too. For the
-- collectors of a host: its links, texts and the matches of a pattern, which do not change while it
-- is read, json.loads, ipaddress and shlex.split. For the head: httpx, urllib's quote, the resolver
-- and the names of the probes that are drawn, the type of the snapshots with the warnings in them,
-- and which texts and snapshots PostgreSQL takes. Theorems that need more of a parameter name it: a
-- digest that tells two texts apart, a parser that reads back what was dumped, YAML that reads back
-- what it wrote, an ipaddress that refuses the empty text.
--
-- Bounds and fuel. A reader of nginx or sshd files has fuel for its includes; one more than the
-- number of files that can be read is enough, since a file on the stack is not read again. A link
-- is followed at most 20 times, as in the code. The parser of directives has one round more than
-- there are tokens, which is enough; Python's limit on recursion, which blocks nested very deeply
-- meet, is not modelled. Space, digits and letter case are those of ASCII. All numbers are natural;
-- a port or an expiry below 0 is refused by the program as 0 is. `decimal n` has n + 1 rounds, at
-- least as many as n has digits. Texts that `int` reads are ASCII and shorter than its limit of
-- 4300 digits. The power of two of the throttle is computed exactly, and its conversion to a float
-- fails from 2 ** 1024 on. The search for a free node name has as many rounds as there are names,
-- which is enough because its candidates differ from each other.
--
-- Not modelled: the collectors of Docker, of socat, of the host and of whole snapshots;
-- node_summary and the loops of the poller's tasks; the client configurations of the device
-- inventory; most of the validators of the configuration and the reading of its file and of the
-- environment; the tables of the head's pages and their templates; HTTP and ASGI plumbing, the
-- engine of the database and its migrations; the deployment script. Of the nodes, their tags, notes
-- and systems. Of the bridges, the text of .dockerignore, the wording of the messages, and faults
-- of file calls other than those at the Compose file's directory, its reading and its writing. Of
-- the collectors, faults of `exists` and of the listing of a directory. Of the database, the
-- refusals of a commit other than for unique names, snapshots and warnings.
mod Base
pub mod HeadAuth
pub mod Bridges
pub mod Devices
pub mod Minion
pub mod Collectors
pub mod Config
pub mod Hosts
pub mod Nginx
pub mod Mounts
pub mod Head
