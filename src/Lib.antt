-- ===== src/Lib.antt =====
-- Flywheel is a content-addressed artifact cache. Nodes keep artifact bodies as files and their
-- records in RocksDB and serve them over HTTP; package proxies fill the cache from upstreams; an
-- agent beside the clients routes each object to the node that owns it; and a client of the go
-- command keeps its build cache there.
--
-- The parts, and how they meet:
-- - Ring (src/agent/ring.rs) maps a routing key to a shard: a consistent-hash continuum of 160
--   virtual nodes per member. Sort is the stable sort and dedup that it uses.
-- - Discovery (src/agent/discovery.rs) keeps the members and their health, ejects a member that
--   fails, and rebuilds the Ring of the others. Each locked section is a function of the state.
-- - Agent (src/agent/mod.rs, and the observation of prefetches in src/telemetry.rs) classifies a
--   request, sends it to the owner that Discovery's ring names, and answers for it where none does.
-- - Space (src/cache/space.rs) is the ledger that admits disk reservations against an observation
--   of the free space. It implements the trait Reserver (src/storage/local/mod.rs).
-- - LocalFiles (src/storage/local/artifact_files.rs) stages a streamed body under a reservation,
--   publishes it at its digest's path, and settles the reservation on every way out. It knows the
--   ledger through LocalFiles.Reserver, an interface with laws that Space fills.
-- - Storage: the records (src/storage/records.rs), and the metadata store
--   (src/storage/metadata/rocksdb.rs), whose eviction queue mirrors the artifact records.
-- - Channels (src/channel/service.rs) authorizes requests, and deletes a channel so that a deletion
--   that stops can be resumed.
-- - RecentUse (src/cache/recent_use.rs) is the pair of Bloom filters behind the recency of reads.
-- - Cache (src/cache/service.rs) commits a staged body under the channel's gate, and reclaims space
--   along the eviction queue, body before record.
-- - Identity (src/artifact/identity.rs, src/channel/identity.rs, src/reference.rs) parses and
--   prints digests, channels and references.
-- - Http (src/transport/http/mod.rs, src/transport/mod.rs): the handlers of the routes for artifacts,
--   references, build caches and channels, over an interface of the services (Http.Server.Services),
--   byte ranges, and the foreground permits.
-- - Proxy (src/proxy/mod.rs): the choice of a representation, the allowed origins, the upstream
--   requests, the fetch through the cache (an interface, Proxy.Store), the coalescing of requests,
--   and the rewriting of links.
-- - Cacheprog (src/cacheprog/mod.rs, src/cacheprog/session.rs, src/manifest.rs): the protocol with
--   the go command, the object directory, and the manifest of a session.
-- - Prelude, Bytes and Text hold the shared names, the machine words, byte strings and the methods
--   of `str` that the program uses; Examples applies the theorems to concrete inputs.
--
-- How the code is modelled. A mutable object is a record that its operations take and return; an
-- operation with `?` returns the state that it leaves beside its result, so that what an error
-- leaves behind is stated too. Where an operation awaits and others may run, it takes the store
-- before and after the wait, or the interleavings are a step relation (Proxy.Flights, the runs of
-- Cacheprog.Protocol and Agent.Prefetch). The outcomes of file-system calls, the items of a body's
-- stream, what upstreams and shards answer, the free-space observation and the clock are
-- arguments. A file that is dropped without a flush, as the build client does, may miss the last
-- bytes of what was reported as written. SHA-256, hex, base64, the Bloom hasher, postcard,
-- serde_json, the ULID text, the header texts, the `f32` parser, the url crate and RocksDB are
-- parameters; the codecs, the ULID text, hex and the database come with their documented laws as
-- record fields (Codec, UlidText, Hex, Database), which Examples fills.
--
-- Numbers are natural numbers. Saturating operations and the capacity checks of the source are
-- written out, with u64 bounds as hypotheses where they matter, and the retry deadline of the
-- discovery wraps around as in a release build. The growth of a reservation in LocalFiles.Stage is
-- on fuel: the length to cover, and an extent is at least one byte, so it suffices; running out is
-- a result of its own. The redirects and attempts of Proxy.Upstream are bounded as in the source,
-- by six and three. The decimal digits of Text.decimal are on a fuel of twenty, enough for 64
-- bits.
--
-- Not modelled: the package routes and handlers (src/transport/http/packages.rs), the other
-- routes, spans, health and metrics pages of the servers, the rewriting of HTML, DNS and the
-- refresh loop, configuration, the command line and the exporters; the pruning of the build
-- client's directory, and the directory walks of artifact_files.rs, whose findings are the input
-- of the startup reconciliation; the opening of the database and its health probe. A failed
-- blocking task has no value of its own in the store's errors.
pub mod Prelude
pub mod Space
pub mod RecentUse
pub mod Bytes
pub mod Sort
pub mod Text
pub mod Identity
pub mod Http
pub mod Proxy
pub mod Agent
pub mod Cacheprog
pub mod Ring
pub mod Discovery
pub mod Storage
pub mod LocalFiles
pub mod Channels
pub mod Cache
pub mod Examples
