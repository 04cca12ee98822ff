-- ===== src/Lib.antt =====
-- Falcon Cache: a verification library for the cache node of this repository.
--
-- The program is an in-memory cache with a memory budget and per-entry expiry. The storage engine
-- (crates/falcon-storage) keeps the entries in shards; the core (crates/falcon-core) builds named
-- keyspaces on engines and holds the configuration; two front ends, a binary protocol over TCP
-- (crates/falcon-wire) and REST (crates/falcon-api), serve them; crates/falcon-cli starts a node.
--
-- - Base: words of 64 bits, byte strings and their equality, lists and their laws. Base/Text: texts
--   as lists of code points, with the trimming, lower case and decimal numbers of the standard
--   library.
-- - Storage/Table: the hash map as an association list, in the order that its iterator gives.
--   A key's place is kept by a write; Storage/Shard/Interleaved lets the order change at any time.
-- - Storage/Shard (crates/falcon-storage/src/cache.rs): the records `Entry`, `ShardInner`,
--   `ShardCounters` and `Shard`. A section that runs under the shard's lock is a function on
--   `Shard`: Writes has the write of `insert` and `remove`, Lookup the two sections of `lookup`,
--   Evict `evict_shard`, Reap `reap_shard`, Insert the whole of `insert` on a shard. The other
--   files below it prove: Accounting, that the byte count and the count of expiring entries stay
--   exact; Window, Round, Eviction, EvictLoop and Budget, that eviction refines the relation
--   `Evicts`; Newest and Stored, that an insert does not evict itself; Reads and Reaping, what
--   reads and sweeps do; Stamps and Sound, that operations keep a shard sound; Kept, what an
--   operation leaves of what a shard holds; Interleaved, that threads whose sections run in any
--   order keep it consistent; Latest, what such threads can read.
-- - Storage/Sizing: `shard_count` and its powers of two. Storage/Random: `next_rand`.
-- - Storage/Engine: `CacheEngine` and its operations; a key's shard is found with the parameter
--   `hash`, which stands for the standard library's hasher. Running states when an engine is
--   ready; Operations, Budget and Counts prove that it stays so and what it answers. Ledger and
--   History compare it with a map of the last writes that forgets nothing, and History/Budget
--   bounds what the engine holds.
-- - Storage/Pacer: `SweepPacer` and one turn of the maintenance task. Storage/Engine/Sweeping and
--   Cycle: what a slice of the sweep visits, and many turns of the task.
-- - Core/Keyspace (crates/falcon-core/src/keyspace.rs): a keyspace on an engine, with the expiry
--   that a write gets. Core/Auth (crates/falcon-core/src/auth.rs): `constant_time_eq` and
--   `percent_decode`; Digits and Laws prove what they decide and decode.
--   Core/Resources and Core/Node (resources.rs and node.rs beside it): the capacity that the
--   machine's memory gives, the keyspaces that are built from the configuration, finding one by its
--   name, and what the shutdown signal is. Core/Tls (tls.rs): loading the certificates and the key;
--   its Mode says what a listener speaks then.
-- - Core/Config and Core/Profile (config.rs and profile.rs beside them): the configuration, and the
--   profile with `set`, `get`, `entries` and `to_config`; Setting and Editing prove what setting
--   and getting have to do with each other. Core/Profile/File: `load`, `load_or_default` and `save`
--   on a disk that is the profile's file and the mode of its directory; the TOML library's parser
--   and printer are the parameters `from_str` and `to_string_pretty`. Path: where the file is.
-- - Wire/Protocol (crates/falcon-wire/src/protocol.rs): codes, requests, responses, and the frames
--   written for them. Wire/Codec (crates/falcon-wire/src/codec.rs): `decode_one` in its four
--   stages; RoundTrip and Progress prove what it returns on frames and on any bytes.
--   Wire/Conn (crates/falcon-wire/src/conn.rs): the drain of the read buffer and the serving of a
--   batch; Gate and Pipeline prove what it refuses and in which order it drains, and Stranger what
--   a client gets that does not know the token. Loop has the whole of `handle_conn` over the reads
--   of a connection. Memo and Fast compare the fast path with `dispatch`; Codec/Prefix, Arrival,
--   Batches, Served and Resplit prove that reads and batches leave no trace in what a connection
--   serves. Wire/Start and Wire/Listener (lib.rs beside it): how the listener starts, and the
--   accept loops with their permits as relations between their states.
-- - Cli/Serve (crates/falcon-cli/src/serve.rs): the flags on top of the profile or of a file.
--   Cli/Process: `serve` with its tasks and the shutdown channel, as steps of a process; Starting
--   and Stopping prove what holds on the way and how it ends.
--   Cli/Settings (config_cmd.rs beside it): `falcon config` and `falcon status` with their lines.
--   Cli/Client (client.rs): the address that is dialed, the requests, and how a command ends.
--   Cli/Session: the commands of a client against a node that answers them, with what the
--   libraries between them are documented to do in Cli/Delivery. Cli/Main (main.rs): which command
--   does what, on the profile's file and the node.
-- - Api/Base64 and Api/Rest (crates/falcon-api/src/rest): the encoder with a
--   decoder to judge it by, and the handlers on the node's keyspaces; Roundtrip and Shared prove
--   that a write can be read, whichever protocol it came by.
--   Api/Router (crates/falcon-api/src/server.rs): the routes and the check of the token; Credentials
--   says how a request carries one, and Guard proves whom it lets through. Server: how the HTTP
--   listener starts, and the accept loop of `serve_tls`. The http and axum libraries' part is in
--   parameters.
--
-- Numbers are the native ℕ. Words of 64 bits wrap as in a release build (`add64`, `sub64`,
-- `mul64`, `wrapped`), so theorems on counts ask that the counts fit; the room asked for is that
-- of the address space (`Fits`, `SmallSample`), and that the access clock, which counts reads and
-- writes of one shard, has not run through 64 bits. The loop of `evict_shard` runs on the code's
-- own bound, the number of entries plus the sample size, and the proof shows that it ends within
-- the budget before the bound does. `handle_conn` runs on fuel, and more turns than there are bytes
-- and reads are enough. An index out of bounds, a panic in the code, is `none`.
--
-- Every reading of the clock is an argument. The atomics are read and written in the order of the
-- sections; weak memory orderings are not modelled, nor are poisoned locks, writes to a socket
-- that fail, timers, the parsing of TOML, JSON, queries and arguments, and the handshakes and
-- records of TLS. Binding a socket, parsing an address and reading certificates are parameters.
pub mod Base
pub mod Storage
pub mod Wire
pub mod Core
pub mod Cli
pub mod Api
