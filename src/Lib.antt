-- ===== src/Lib.antt =====
-- The caching proxy: a request is looked up in an in-memory storage by a key of its query arguments
-- and headers; a miss is fetched from a cluster of rate-limited backends and stored.
--
-- The parts, the files that model them, and their code:
-- + Ring: the doubly linked list of pkg/list/doubly_linked.go, as addresses with next and prev;
--   new_ring is New, nth is Next, the other operations have the names of the code. Ring/Seg,
--   Ring/Members, Ring/Insert, Ring/Delete, Ring/PushBack, Ring/Refine relate it to the list of its
--   addresses; Ring/Sort is Sort, the merge sort of the same file.
-- + Shard, Shard/Counters, Shard/Totals: pkg/storage/map/shard.go and the shard choice and sums of
--   pkg/storage/map/map.go; Shard/Walk: the goroutines of WalkShards.
-- + Lfu, Lfu/Admission: pkg/storage/lfu, the count-min sketch, the doorkeeper and TinyLFU.
-- + Storage, Storage/Hits, Storage/Stored, Storage/Remove, Storage/Rejected, Storage/Cleared,
--   Storage/Victim: Get, Set, Remove and Clear of pkg/storage/lru/storage.go with Push, Update, Remove and FindVictim of
--   pkg/storage/lru/balancer.go, over Shard, Ring and Lfu. Storage/Valid is the invariant that ties
--   the map to the LRU lists, with Storage/Valid/Moves, Storage/Valid/New, Storage/Valid/Gone and
--   Storage/Valid/Kept; Storage/Change is what the operations may change; Storage/Recency is the
--   order of the entries in the LRU lists, with what Get, Set and the evictor do to it.
-- + Storage/Evictor: pkg/storage/lru/evictor.go, with the balance list of
--   pkg/storage/lru/balancer.go and the start of pkg/storage/lru/storage.go; its child modules hold
--   the sums, the steps and passes of a run, its end, any run that ends, one that has none, and the
--   log of the runs.
-- + Storage/Refresher, Model/Refresh: pkg/storage/lru/refresher.go and pkg/model/refresh.go: the random
--   choice of an entry, when it is due, and its refresh; Storage/Refresher/Steps interleaves these
--   with requests, and Storage/Refresher/Log is the log of its counters.
-- + Dump, Dump/Frames, Dump/RoundTrip, Dump/Corrupt: the frames of a dump file, written and loaded, of
--   pkg/storage/lru/dumper.go. Dump/Files: the names of the files and which are loaded; Dump/Versions:
--   the directories of the versions; Dump/Restored: the files loaded into the storage.
-- + Model/Entry, Model/Equal, Model/Keys, Model/Query, Model/Payload, Model/ToBytes, Model/Compare:
--   pkg/model and pkg/bytes/cmp.go: the entry, its key and fingerprint, the query parser, the packed payload, the
--   dump format, and the comparison of payloads. Model/Binary is encoding/binary as they use it.
-- + Sort, Sort/Order, Sort/Sorted: pkg/sort/key_value.go.
-- + Upstream/Slot, Upstream/Slot/Throttle, Upstream/Slot/Move: a backend's slot, pkg/upstream/slot.go
--   and pkg/upstream/metrics.go; Upstream/Monitor: pkg/upstream/monitor.go; Upstream/Cluster: the
--   requests of pkg/upstream/cluster.go, Upstream/Start its start from the configuration;
--   Upstream/Backend: the client of one backend, pkg/upstream/backend.go; Upstream/Lifecycle: the
--   monitor, the requests and the providers as steps of one slot.
-- + Api/Proxy: internal/cache/api/cache.go and pkg/http/responder/resp.go, over Storage and
--   Model/Payload; Api/Metrics: the writer of the metrics of internal/cache/api/cache.go; Api/Errors:
--   its logger of errors; Api/Clear, Api/Clear/Calls: internal/cache/api/clear.go; Api/Switch:
--   internal/cache/api/on_off.go over Api/Proxy.
-- + System: the handler, the switch, the refresher, the evictor and the loads as steps on one
--   storage, with the answers of the upstream as a log: System/Sound is its invariant, System/Asked and
--   System/Stored keep it, System/Reached and System/Served are what follows, System/Restarted a
--   second run.
-- + Probe: pkg/k8s/probe/liveness/prober.go.
-- + Config, Config/Rules, Config/Cloned: LoadConfig and Clone of pkg/config/config.go, for the rules of
--   Model/Entry and the backends of Upstream/Backend. Utils: pkg/utils/formater.go.
-- + Prelude: Boolean tests, lists over native numbers, 32-bit and 64-bit words, integers. Tests: the
--   theorems at concrete inputs.
--
-- How state and effects are modelled. A mutable object is a record that is passed on; entries, list
-- elements and shards are functions of an address or an index. A part that holds a lock is one
-- step. The monitor's goroutines are cut where they release the lock, so other steps come in
-- between; the handler is cut at its fetch; the `go renewRateProvider` calls wait in a list and run
-- in any order, and so do the refreshes. A provider's goroutine whose context is done runs on until
-- a step of its own, since its `select` may choose to send first; sending changes nothing in the
-- slot and is no step. A run of the evictor, one refresh and the load of one file
-- are each one step. A run-time panic is `none` or a constructor.
--
-- Bounds. Memory and length counters of shards and lists are 64-bit patterns, with `add64` and
-- `sub64`; the sketch's cells are 32-bit. The counters of probes, requests, refreshes and metrics
-- grow by one or by a sum and are plain numbers. The list theorems ask for fewer than 2 ^ 63
-- elements, and the running cache for fewer than 2 ^ 63 requests. Lengths in the payload and dump
-- formats ask for 32 bits, as the formats do. Most loops are structural. Three take fuel: the
-- evictor's rounds, for which 348 times the number of items and 349 more is enough where it ends;
-- the loop over the frames of a file, for which more than the number of frames is enough; and the
-- merges of the list's sort, for which the length is. Each of these is proved. Only a run of the
-- evictor as a step of the running cache is taken where it ends.
--
-- Parameters. The hashes xxh3 and crc32 are functions, and so is what the request's headers give
-- (Header.Peek); the response header of fasthttp is a type with its methods, of which the theorems
-- take as hypotheses that Add appends and that Reset clears; float64 is a record of operations
-- without laws; the printing and the scanning of a number by fmt, and the order that sort.Slice
-- leaves, are arguments; the answers of the backends, the random seeds and numbers, the walk over a
-- Go map, the clock and the random token are arguments. The capacity of a payload is taken as its
-- length. The element pool hands out fresh elements, since nothing frees one.
--
-- Not modelled: the opening, compression and writing of files, tickers and rate limiters, the
-- texts of the logs, YAML, the user interface, the metrics registry, shutdown,
-- locale tables, encodings, and test mocks: input and output, wiring, or parts that stand apart from
-- the above.
pub mod Prelude
pub mod Upstream
pub mod Utils
pub mod Probe
pub mod Model
pub mod Sort
pub mod Ring
pub mod Lfu
pub mod Shard
pub mod Storage
pub mod System
pub mod Dump
pub mod Api
pub mod Config
pub mod Tests
