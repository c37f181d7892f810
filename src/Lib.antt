-- ===== src/Lib.antt =====
-- Verification of convergence, a version control system whose server collects snapshots into candidates and
-- lets them through a graph of gates.
--
-- The parts and how they interact. A person publishes snapshots to an entry gate; the server merges the open
-- window of a (repo, scope, gate) partition into a candidate; candidates are approved, promoted along the
-- gate graph, and released under a version; retention decides what may be deleted. Every request first gets a
-- context from `authorize`, then runs a method of the engine over the metadata store, and writes that must
-- happen together go through one atomic batch with guards.
--
-- Prelude        shared: Boolean tests on native numbers, lists, dictionaries in key order, texts.
-- Gates          crates/converge-model/src/gates.rs. `GateNode` and `GateGraph` are those of wire.rs.
--                Gates.Reachable and Gates.Cycle hold the two graph walks, Gates.Validate the checks in the order of
--                `validate`, Gates.Impact what a change of the graph disturbs. A BTreeMap is a list of pairs
--                in key order, a BTreeSet a list that is asked for membership.
-- Overwrite      crates/converge-model/src/overwrite.rs: the plan before a working tree is replaced.
-- Records        the structs of wire.rs, snap.rs and crates/converge-server/src/storage.rs.
-- Retention      crates/converge-server/src/retention.rs.
-- Releases       crates/converge-model/src/releases.rs over the crate semver, which is the record `Semver`;
--                its laws (`Order`, `Prints`) are hypotheses of the theorems that need them.
-- Meta           the tables of crates/converge-server/src/meta_sqlite/schema.rs as lists of rows in order of
--                insertion, and the statements of meta_sqlite.rs and meta_sqlite/ops.rs. Meta.Batch is `apply_batch`,
--                Meta.Accounts the users, grants, tokens, keys and secrets, Meta.Events the event log, Meta.Objects
--                the pins and the associations of objects with repos.
-- Objects        crates/converge-model/src/manifest.rs and snap.rs: manifests and recipes. The object store is a
--                record that answers with the decoded object, that there is none, or that it does not decode.
-- Authz          crates/converge-server/src/authz.rs, `scope_pattern_matches` of storage.rs, `has_grant`.
-- Engine         crates/converge-server/src/engine.rs and engine/gates.rs: `approve`, Engine.Promote for `promote`,
--                Engine.Release for `release` and `yank`. A method takes the context, the arguments, the
--                time that `now()` returned, and the tables; it gives an `Answer` and the tables. A message
--                of `bail!` is a constructor of `Refusal`. `promote_over` takes the tables that the request
--                read and the tables that its batch commits to, since other requests may write between.
--                Engine.Lanes holds the lane rules of engine/flow.rs and engine/publish.rs, Engine.Pins `unpin_tree`,
--                Engine.Publish `publish`: Build is `build_candidate`, Handler the guards and the loop of
--                attempts, each with what other requests commit between its reads and its batch. The BLAKE3
--                digest, the object store, the outcome of the merge and the texts of errors are the record
--                `World`; the clock stands still within an attempt.
-- Gc             crates/converge-server/src/gc.rs: `mark_manifest` and `mark_recipe`, Gc.Sweep the sweep, Gc.Roots what is marked
--                from, Gc.Handler `gc`. The object store is the one of Objects with what `list` answers; the tables
--                it reads and deletes from are in Meta.Collected. Gc.Roots.Complete says which trees are live, Gc.Handler.Spared
--                which candidates must stay. The two cutoff times are arguments.
-- Http           crates/converge-server/src/http.rs: `caller`, `authorize_scoped`, and the handlers of http/secrets.rs,
--                http/auth.rs (tokens) and http/members.rs, from the bearer token on. The hash of a token, the
--                minted text and the formatted expiry are parameters. A status of `ApiError` is a constructor of
--                `Refusal`. `fetch_secret`, `secret_summaries`, `drop_secret`, `repo_tokens` and `revoke` are the
--                handlers `get_secret`, `list_secrets`, `delete_secret`, `list_tokens` and `revoke_token`, whose names
--                the statements of the store have here.
--
-- Bounds and fuel. Numbers are unbounded: sequence numbers and counts of the source are u64 or u32 that grow
-- by one; the versions of a secret, one of which a request names, wrap at 2^64. `find_cycle` and `reachable_from_entries` run on fuel made from the number of gates; the theorems on them
-- state the exact result, which a run out of fuel would not have. `is_ancestor` runs on fuel made from the
-- number of parents that are named, with `none` for a run out of it, and `unpin_tree` on fuel made from the
-- number of directories that the store's manifests name, with a refusal of its own. The mark phase
-- runs on fuel made from the number of stored manifests, the walk over a lineage on that of `is_ancestor`. `publish` makes its 32
-- attempts. All other recursion is structural.
--
-- Not modelled: the merge of a window, the moves of lane heads, the inbox, `verify`, the
-- Postgres store, the object stores, the exchange of identity tokens, routing and JSON, the client, the command line and the terminal interface. Failures
-- of the database itself (input and output, JSON that does not parse) are no outcome of the model.
pub mod Prelude
pub mod Gates
pub mod Overwrite
pub mod Objects
pub mod Records
pub mod Retention
pub mod Meta
pub mod Authz
pub mod Releases
pub mod Engine
pub mod Http
pub mod Gc
