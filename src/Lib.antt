-- ===== src/Lib.antt =====
-- rust4eska: a master keeps a replicated store, lets agents and VPN clients join a WireGuard network,
-- checks access to its API by roles, and answers DNS queries for the cluster. It also serves a
-- registry of container images and keeps secrets in a vault. This library models the store, the
-- handlers of the master, the registry, and the checks on what goes into WireGuard's files.
--
-- How the parts interact: a handler of binaries/r4a-server/src/main.rs authenticates its caller
-- (Server.Auth, behind the middleware of Server.Gate), asks `Store::can`, and changes the store and
-- the fields of `AppState`; every change of a replicated tree goes out to the
-- addresses that the master keeps as those of masters, its own among them.
--
-- - Prelude: the names that all modules share, with the texts (lists of bytes), results, decimals and
--   association lists that the code uses.
-- - Models: the types of crates/r4a-core/src/models/mod.rs and crates/r4a-core/src/lib.rs.
-- - Backend: sled and serde_json, and the test of the library for HTTP on the value of a header, as an
--   interface with the behaviour that the theorems rely on;
--   Backend.Memory meets it with a list of entries.
-- - Store: crates/r4a-store/src/lib.rs. `Store` with put, get, delete and broadcast_sync; Entities has
--   the methods for each kind of entry, Entries and Writes what they read and leave; Rbac is
--   `Store::can`, with its description in Spec; Sync is sync_handler: Refusals which requests it turns
--   away, Replication what put and delete send and what a replica makes of it.
-- - Store.Vault: the configurations, keys and secrets of the vault; Keys is its start, init_vault.
--   Store.Migration: migrate_rbac_v1_to_v2.
-- - Crypto: crates/r4a-core/src/crypto.rs, over the libraries for AES, Argon2, SHA-256 and base64 as an
--   interface; Crypto.Toy meets it. Files: what is used of the file system, as an interface with the
--   paths that lead to a place; Files.Memory meets it.
-- - Actions: actions that may fail, whose steps stay shut. Keeping has the rules for what an action
--   keeps however it ends, Yielding those for what holds when it has succeeded.
-- - Images: crates/r4a-git-registry/src/registry.rs, the registry of container images. Auth, Blobs
--   (uploads), Manifests (with tags) and Requests (routes and handlers) are the code; Addressed and
--   Integrity are about the digests of blobs, Escape about where uploads are written, Pulls about
--   manifests that are fetched.
-- - Telemetry: crates/r4a-telemetry/src/store.rs, the history of metrics; Pruning is about what is
--   removed. Ingress: crates/r4a-ingress/src/lib.rs, where a request to an application goes. Worker:
--   crates/r4a-worker/src/lib.rs, which containers a node starts and removes; Orphans is about the latter, Listed about
--   what is taken from Docker's list.
-- - Vpn: crates/r4a-vpn/src/wireguard.rs, the validators and the two configuration files; Injection
--   shows what lines those files have.
-- - Server: `AppState`. Auth and Gate: the extractors and require_vpn_for_api. Peers: load_peers and
--   save_peers. Join: join_handler and the task it spawns (Pool: addresses and peers, Rights: what the
--   token may do). Update: the handlers of an update of the agents. Reply: handlers that fail with a
--   status. Connections, Tokens, Manifests: the handlers for VPN clients, access tokens and manifests;
--   Connections.Once is about the pool of addresses that clients and agents share.
--   Vault and Users: the handlers for the vault, and for the users, who sign in to the image registry.
--   Registry: the keys and routes of the image registry; Tags has the handlers that list and delete,
--   Untagging and Deleting what a deletion leaves.
-- - Dns: handle_dns_query, dns_parse_qname and dns_resolve, over byte lists.
-- - Tests: runs on concrete inputs, and the theorems at inputs where their hypotheses hold.
--
-- Parameters: the time, random tokens, ids, salts, keys and nonces, the public endpoint, environment variables, checksums
-- of binaries, the reply of the upstream DNS server, `to_str` of the library
-- for HTTP, which reads a header, and `trim` and `to_lowercase` of the standard
-- library, which follow the Unicode tables. A value of type f32 is an abstract `Float`.
--
-- State: a handler takes the state and gives back the new one; a failure leaves what was changed
-- before it. A task that `tokio::spawn` starts is a value (`JoinTask`) or a message of the outbox.
-- A `HashMap` is an association list with one entry for each key that is inserted.
--
-- Bounds: machine integers are numbers of ℕ where no operation of theirs can overflow: the counter of
-- the pool is at most 255, and lengths are those of byte buffers. Where they can, the model does what
-- the code does: the counter of LogStore wraps at 2 ^ 32, the sum of the sizes of layers at 2 ^ 64, and
-- the additions around it saturate. The only loop that is not structural is that of dns_parse_qname;
-- its fuel is the length of the buffer and one, and a round moves on by a byte at least.
-- trim_start_matches cuts at most once for each byte of its text.
--
-- Not modelled: the container, log and metrics handlers of the server, its start and its TLS proxy;
-- git over HTTP, which starts git; the collector of metrics, which reads /proc; the calls of Docker that
-- start one container; the agent, the clients and the user interfaces, which are loops and commands
-- around calls of the API. Calls of wg, Docker, systemd and the network are input and output.
pub mod Prelude
pub mod Models
pub mod Backend
pub mod Actions
pub mod Files
pub mod Crypto
pub mod Store
pub mod Vpn
pub mod Server
pub mod Dns
pub mod Images
pub mod Telemetry
pub mod Ingress
pub mod Worker
pub mod Tests
