-- ===== src/Lib.antt =====
-- The engine of rsbtd, a BitTorrent daemon on libtorrent: the part between the API and the session
-- (rsbtd/src/engine), and the typed settings of the API (rsbtd/src/api/settings) with the settings pack
-- below them (rbtorrent/src/settings). A registry of the torrents, a pump that turns libtorrent's alerts into events
-- and into writes of resume data, a persister task that does these writes, requests that wait for
-- their answer on the event bus, the engine's operations on top of them, and the manager of
-- torrent-creation jobs.
--
-- Each file says which code it is about; names are the source's in snake case.
--   Base          names of the libraries, passed on; tests on numbers, lists, hash maps and sets
--   Registry      rsbtd/src/engine/registry.rs: `TorrentEntry`, `Registry` and all its operations
--   Events        rsbtd/src/engine/events.rs: `Event`, `EventKind`, `TrackerInfo`
--   Types         rbtorrent/src/types.rs: digests, info-hash pairs, piece bitfields and socket addresses, with
--                 their forms in the C shim
--   Alerts        what the engine reads of rbtorrent: alerts, handles, the session's answers
--   Inflight      `Inflight::inc`, `dec` and `fatal` of rsbtd/src/engine/mod.rs
--   Persist       rsbtd/src/engine/persist.rs: `write_atomic` by its system calls, `run_persister`
--   Pump          rsbtd/src/engine/pump.rs: `handle_alert` with all its arms, batches, the retry tick
--   Jobs          rsbtd/src/engine/jobs.rs: the manager, and `run_job` against a cancel (Jobs/Worker)
--   Errors        `EngineError` of rsbtd/src/engine/mod.rs
--   Correlate     rsbtd/src/engine/correlate.rs: `request`, `request_serialized`, `drain`
--   Engine        rsbtd/src/engine/mod.rs: the queries (Engine/Queries), the saves, the checkpoint and
--                 the sweep (Engine/Saving), settings and IP filter (Engine/Settings), `add_torrent`
--                 (Engine/Adding), `remove_torrent` (Engine/Removing), `restore` (Engine/Restoring)
--   Settings      rbtorrent/src/settings: the pack (Settings/Pack), the setter and the getter of every
--                 setting (Settings/Bandwidth, Connections, Dht, Net, Storage, Tracker, each with its
--                 keys), the enums, the tokens, the table (Settings/Table), the groups that are written
--                 as one (Net/Proxy, Net/I2p, Connections/Interfaces, Connections/Ports, Dht/Nodes), with
--                 Rust's texts, decimals and IPv6 addresses below them (Settings/Texts, Settings/Ipv6)
--   Api           rsbtd/src/api/settings: the structured settings of structured.rs (Api/Agent, Proxy, I2p,
--                 Encryption, Transports, Modes, Lists), the scalar settings of catalog.rs (Api/Scalar for
--                 the macros, Api/Catalog for the fields), `read`, `write` and the tables of mod.rs
--                 (Api/Whole). Api/RoundTrip, Api/Refusals and Api/Groups hold the proofs
--
-- The parts meet where they do in the program: the pump registers and removes entries of the registry,
-- sends operations of the persister and publishes events; a request of the engine is answered by such
-- an event; the pump, the persister and the engine share the in-flight count and the dirty set. A task
-- is a function on the state that it can reach. What rbtorrent, libtorrent, the operating system and the
-- clock answer are arguments, and every theorem holds for all of them but where it names a condition.
-- What other tasks do between two steps is an argument too (`add_torrent`), an explicit order of events
-- (a job and its cancel), or what a receiver yields (`Correlate`). A crash is no step: an atomic write
-- keeps each moment of the disk, with the files that are not synced then, and a crash may leave of a file
-- what it held at any moment so far, or anything where it was not synced.
--
-- A settings pack is three partial maps, for texts, integers and flags, from keys to values; a delta is
-- such a pack, and `merge` applies it. Texts of settings are lists of code points. A group of settings
-- (Api/Groups) is an interface with the laws that a write touches the keys of the group only, that a read
-- looks at them only, and that a value is read back; the laws of a sequence of groups follow from these.
-- The scalar fields are such a sequence too, along the list of the catalogue, so that a proof about all
-- of them is one about a field. The versions in the user agent and libtorrent's defaults are arguments.
--
-- Numbers stand for what the engine passes on and does not look into: uuids, tokens, paths, texts of
-- errors, statuses. Ids do not wrap. A hash map is an association list with one entry for each
-- key, a hash set a list without repetition. Channels are unbounded but where the pump asks for their
-- capacity (`try_reserve` on a retry tick); a `fatal` error is the value `aborted`. The print of a
-- port alone uses fuel, the number itself, which is more than its digits; each other loop runs over a
-- list, of alerts, queued operations, events, entries, characters or fields.
--
-- Not modelled: logging; the wait of `Inflight::wait_zero` and other deadlines, but as an event at any
-- place; the start and shutdown of the engine, the ticker of status updates and the timers; the map of
-- weak locks; the encoding of the client data in resume files; the GraphQL API but for its settings, the
-- daemon's configuration and platform code; rbtorrent but for its settings and
-- the types named above, and the C shim below it, which takes a key of the wrong kind for nothing: no
-- setter has one.
pub mod Base
pub mod Registry
pub mod Events
pub mod Alerts
pub mod Inflight
pub mod Persist
pub mod Pump
pub mod Jobs
pub mod Errors
pub mod Correlate
pub mod Engine
pub mod Settings
pub mod Api
pub mod Types
