-- ===== src/Lib.antt =====
-- A model of sni_router, a TCP router that reads the server name of a TLS ClientHello and hands the
-- connection, undecrypted, to the backend of that name.
--
-- The parts, each with the files that model it. A function keeps the name that it has in the source.
-- * Common holds the shared names, tests and lemmas on numbers, lists, options and results.
-- * Lookup models crates/sni_router/src/lookup. Text has the string methods that the program calls, Ip
--   the parser of IP addresses of Rust's standard library, Names the check on DNS names, Hostname,
--   RouteKey and Backend the types of types.rs with their parsers, Routes the candidates and hits of
--   mod.rs, and Memory the table of memory.rs, whose hash map is an association list.
-- * Routing models crates/sni_router/src/routing/mod.rs. The lookup call is a function from the
--   candidates to how the call ends: with hits, with an error, or by the timeout.
-- * Protocol models crates/sni_router/src/protocol. Reader and Hello read the body of a ClientHello,
--   Names its server name list, Seen holds the extension types seen, Payloads the ranges of record
--   payloads, Header the handshake header split across records, and Record the walk over the records.
--   Their child modules hold the proofs, over records and bodies written the way a client writes them.
-- * Metrics models crates/sni_router/src/metrics.rs: the events, and the labels of their values.
-- * Delivery models crates/sni_router/src/delivery. In HelloReader the stream is the list of bytes that the
--   client sends, and a schedule says how many of them each read yields. Gate has the critical sections of
--   gate.rs as the steps of a run. Resolver has the cache of resolved addresses and, in Resolver/Flights, the
--   runs of calls and lookups at once; Lasting and Stale are on what stays in that cache; what the system
--   resolves is an input. Connection has the stages of connection.rs, over what the world does to a
--   connection: what each await yields, and how its race with a deadline and with shutdown ends. Upstream has
--   the connection to the backend; the network is a parameter. Proxy has the end of the proxy stage, the
--   choice of the copy and the idle clock of proxy.rs, Metered the counters and the stamp of metered.rs, and
--   Splice the copy through pipes of splice.rs, over a schedule of what each system call answers, with the
--   pipes in Pipes and their budget in Admission. Server has the accept loop and the phases of a shutdown of
--   server.rs, whose moves interleave in a run.
-- * Cache models crates/sni_router/src/cache.rs: Map its hash maps as association lists, State the
--   configuration and the state under the mutex, Entries the entries with their index and their order of
--   eviction, Loads the lookups and the loads. Runs has the steps of a run, each a critical section; Index,
--   Thinned, Inserted, Moves and Invalidation say what each operation changes, and Admission, Order, Capacity
--   and Freshness what holds in every run. The jitter of a duration is a parameter.
-- * Config models the validation in crates/sni_router_app/src/config: Routes builds the table of the
--   routes of routes.rs, Server validates the server section of mod.rs, App the admin section and the whole
--   file, and Reload has the table that the reload of reload.rs swaps; Table, Bounds and Reloads have the
--   proofs.
-- * Admin models what crates/sni_router_app/src/admin.rs answers.
-- * Tests has runs on small inputs, and Witnesses applies the theorems.
--
-- A byte is a number. A string is the list of its UTF-8 bytes. Offsets and lengths are natural numbers:
-- they are bounded by the length of a buffer that is in memory. The loops over readers and records run on
-- fuel: as many rounds as there are bytes, and one more for the records, since each round takes a byte or
-- more. The read loop is recursive on the schedule of reads, and the copy on that of system calls. The
-- counters of bytes wrap around at 2 ^ 64. Instants, durations and the numbers of slots are unbounded: what
-- `later` does with an instant that cannot be represented, and a slot number past 64 bits, are not met. The
-- task of a connection that is dropped before it first runs records nothing, and is not modelled.
--
-- The parts meet where the program's do: a connection reads its ClientHello by HelloReader, which parses it
-- by Protocol, resolves the name by Routing over a store of Lookup or Cache, enters Gate, and is a task of
-- Server.
--
-- Not modelled: the calls of the asynchronous runtime and of the system themselves, the probe for splice,
-- the copy in user space, the TOML parser, the HTTP server of the administration and the metrics exporter,
-- the handler of signals, logs and error texts.
pub mod Common
pub mod Lookup
pub mod Metrics
pub mod Routing
pub mod Protocol
pub mod Cache
pub mod Delivery
pub mod Config
pub mod Admin
pub mod Tests
pub mod Witnesses
