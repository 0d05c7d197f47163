-- ===== src/Lib.antt =====
-- Clix lets one person's machines run each other's granted tools. Each machine runs a sidecar,
-- which keeps its state in memory and in state.json, lets paired machines run what the owner has
-- granted, and shares a signed history of what ran. This library models the sidecar's core: what
-- may run, that it runs at most once, and what is saved when.
--
-- The parts, and the files that model them:
--   Types           src/types.rs: grants, jobs, requests, peers, schedules.
--   Error           src/error.rs, and the result of a fallible operation with its `>>=`.
--   Limits          src/limits.rs: admission constants, slots, the validators of ids and argument
--                   vectors; Limits.Line is `limited_line`.
--   Ids             src/job.rs, `new_id`.
--   Grant           src/grant.rs: `build`, `commit`, `remove`, `check_at`, `check_args`;
--                   Grant.Resolve finds executables.
--   Request         src/request.rs: `upsert`, `receive`, `decide`; Request.Deliver is `deliver`.
--   State, Store    src/store.rs: the record `Store`; `update`, `save`, `recover_jobs`, `put_job`.
--   Storage         src/storage.rs: `encode` and the payloads that can be pruned; Storage.Prune is
--                   `prune` and `prepare`, Storage.Charge is `completion_charge`.
--   Job             src/job.rs: states and replies; Job.Remote is `append_retry`,
--                   `apply_peer_result` and one delivery, `dispatch_one`; Job.Dispatch is a round
--                   of `dispatch_pending`.
--   Exec            src/exec.rs, `submit` and `submit_certified`; Exec.Finish is the run of a
--                   process and the record of its outcome; Exec.Trace is the sequence of events
--                   that reach a sidecar.
--   History         src/history.rs: its records; History.Keys (hashes, keys, certificates),
--                   History.Facts (`validate_fact`, `validate_record`), History.Refresh
--                   (`refresh_owned`), History.Ingest (`ingest`, `bind_admission`),
--                   History.Normalize, History.Reply (`accept_runner_reply`, `export_entry`) and
--                   History.Pages (`page`).
--   Pin             src/pin.rs: path rules and records; Pin.Plan (`plan`), Pin.Hex (`unhex`), Pin.Tree
--                   (`Tree::read`), Pin.Scan (`Tree::scan`), Pin.Recovery (receipts and limits),
--                   Pin.Recovery.Check (`check_recovery_except`), Pin.Recovery.Write
--                   (`write_receipt`), Pin.Rename, Pin.Guards and Pin.Apply (`Tree::apply`), and
--                   Pin.Serve (`rpc_list`, `rpc_get`, `rpc_put`, `rpc_commit`, `record`).
--   Pair            src/pair.rs: names, identities, `update_peer`, `validate_store`;
--                   Pair.Handshake is `handshake_listen`, `handshake_join` and the report of a
--                   pairing that did not finish, Pair.Discover is `pair_join_any`.
--   Mesh            src/mesh.rs: frames and replies, `write_frame`, `read_frame`, `call`;
--                   Mesh.Dispatch is `dispatch`, which calls the other parts.
--   Cli             src/cli.rs: the parsers of days, dates, times and durations.
--   Local           src/local.rs: `rpc_schedule`, and the schedule's part of `rpc_from_cmd`.
--   Prelude         shared tests, lists, maps and numerals. Tests holds concrete instances.
--
-- How they interact: a submission validates the command (Limits), looks its id up in the state,
-- and edits the state inside `Store.update`: it binds the certificate (History), asks for the grant
-- (Grant) or files a request (Request), takes a slot, reserves a single-use grant and stores the
-- job. The update then publishes this machine's facts, normalises and prunes outputs, checks the
-- bounds, encodes and saves, and only then replaces the state in memory. The task that waits for
-- the process ends in a second update.
--
-- A synchronisation compares two manifests with the last one agreed (Pin.Plan) and applies each
-- change on its side (Pin.Apply), by which the displaced version moves to the recovery directory; a
-- commit scans the tree and records the manifest through `Store.update`. Pairing saves a peer by an
-- update too. A
-- schedule that the command line has parsed (Cli) reaches the socket as a request (Local).
--
-- Correspondence: a function that changes `&mut Store` takes the state and returns it, in a
-- `Result` where it may fail; `update` clones the state, so an edit that fails leaves nothing. A
-- lock is held during each operation, so operations are sequential. Text, paths and byte vectors
-- are lists of bytes; a SystemTime is a signed number of nanoseconds from the epoch; a BTreeMap is an association list sorted by key; counters that the source
-- checks for overflow keep the check. Loops are structural recursion on lists; only `trim` and
-- `decimal` count down a length, which is never less than the rounds that they need.
--
-- Outside the code: State.Host is the cryptography and the JSON serialiser, State.Host's functions
-- are arbitrary; Store.Sys is the outcome of each system call of a save; Exec.Finish.Child is what
-- the operating system makes of a process; Grant.Resolve.Env is the file system's view of tools;
-- random bytes and the local time are arguments. Pin.Rename.Outside is the tree as other programs
-- leave it at each look, with the outcomes of the system calls of one application; a path is looked
-- up as it is spelt. The recovery directory is taken to be written under its lock only.
-- Pin.Recovery.Codec is the JSON form of receipts. Pair.Handshake.Exchange is the outcome of each
-- message of a handshake; one that runs out of time ends in an error.
--
-- Not modelled: opening and locking the state file, the history's views and its synchronisation
-- with a peer, the loop that drives a synchronisation and the owner's
-- review of retained versions, the key exchange and the frames of a pairing, connections and
-- their encryption, the owner's socket but for schedules, the command
-- line but for its parsers of days, dates, times and durations, the desktop and the installation.
pub mod Prelude
pub mod Types
pub mod Error
pub mod Limits
pub mod History
pub mod State
pub mod Ids
pub mod Job
pub mod Storage
pub mod Store
pub mod Grant
pub mod Request
pub mod Exec
pub mod Pin
pub mod Pair
pub mod Mesh
pub mod Cli
pub mod Local
mod Tests
