-- ===== src/Lib.antt =====
-- strfry is a nostr relay: it takes events over websockets, stores them in LMDB, answers
-- subscriptions and synchronises with other relays. This library models the parts that decide
-- which events are accepted, stored, replaced, deleted and matched, and proves what they do.
--
-- The parts and their files:
--   - PackedEvent: the binary summary of an event, its builders and its view (src/PackedEvent.h).
--     A buffer is a list of bytes; every accessor reads the bytes that the source reads.
--   - Filters: src/filters.h. SetBytes is FilterSetBytes with its 16-bit offsets, 8-bit sizes and
--     binary search; SetUint is FilterSetUint; Filter is NostrFilter; Group is NostrFilterGroup.
--   - Events: src/events_parse.cpp, EventKind of src/events.h, parseUint64 of src/misc.cpp,
--     src/jsonParseUtils.h and src/Bytes32.h. Parse is nostrJsonToPackedEvent; Verify is nostrHash,
--     verifySig, verifyNostrEvent, verifyNostrEventJsonSize, verifyEventTimestamp and
--     parseAndVerifyEvent.
--   - Store: src/events_db.cpp (Lookup), src/events_write.cpp and deleteEvents of src/events.h
--     (Write). Write/Step is the abstract table: what one event does to the rows.
--   - Subscriptions: src/Subscription.h (SubId, Subscription), src/EphemeralSubTracker.h and what
--     src/ActiveMonitors.h does to the tracker (Tracker).
--   - Monitors: src/ActiveMonitors.h. Items and Trees are the sets and the sorted maps, Conns the map
--     from connections to monitors, Index the five indices, Keys the keys under which a filter
--     stands, Operations the methods. A pointer to a monitor is its connection and name.
--   - HashMap: the hash maps of these, as lists of pairs, with their laws.
--   - Negentropy: src/NegentropyFilterCache.h, which tells the trees of the filters that match what the
--     writer stores and deletes. What is done to a tree is recorded.
--   - Cron: src/apps/relay/RelayCron.cpp, one round of the deletion of expired events, with the clock,
--     the settings and the entries of the generated index as arguments.
--   - ThreadPool: src/ThreadPool.h, which inbox a message goes to. An inbox is what was put in.
--   - ConnMap: the maps from connections to their subscriptions that Monitors and QueryScheduler keep.
--   - QueryScheduler: src/QueryScheduler.h over a heap of queries. One slice of a query is an operation
--     of the interface Scanning.
--   - DbQuery: src/DBQuery.h. Candidate is CandidateEvent, Cursor is ScanCursor, Scan is DBScan and
--     Query is DBQuery, a Scanning for the scheduler; Laws says what the indices do. What the clock
--     says is a function of the work that a scan has done.
--   - Relay/ReqMonitor: src/apps/relay/RelayReqMonitor.cpp, one round of its loop over Monitors and the
--     Event table. What it sends is the list of its calls of RelaySender; Inbox reads off what one
--     subscription receives.
--   - Tests: runs at concrete inputs, and instances of all parameters.
--
-- How they interact: parseAndVerifyEvent makes the packed buffer that the writer stores; the writer
-- reads it through the view; filters match on the view. Each relies on PackedEvent.RoundTrip, which
-- says that the view reads what the builder wrote.
--
-- Code outside the repository is a parameter with its documented laws: taocpp json, hex coding,
-- OpenSSL and libsecp256k1 (External), lmdb++ integers (PackedEvent.Lmdb), and the tables that golpe
-- generates from golpe.yaml over LMDB (Store.Env). An exception is an `err`, a container with
-- sorting is a list with insertion sort, std::sort's order of equal elements being of no
-- consequence where the elements are values. uint64_t is a number with its wrap-around written out.
-- Log messages, timings and the log level are left out.
--
-- Fuel: the loop over tags gets the length of the buffer (each round takes at least two bytes), and
-- the binary search the number of items (each round at least halves it). Both are proved enough.
-- A cursor of DbQuery gets a round for every entry that is left, which is proved enough; a scan gets one
-- for every cursor and for every entry, which is not proved.
--
-- Not modelled: the relay's other threads (src/apps/relay: the websocket server, the
-- ingester, the writer, the request worker and the negentropy thread), the mesh
-- commands (src/apps/mesh), the tools on the database (src/apps/dbutils), plugins, metrics and
-- compression.
pub mod Prelude
pub mod PackedEvent
pub mod Filters
pub mod External
pub mod Events
pub mod Store
pub mod Subscriptions
pub mod Negentropy
pub mod Cron
pub mod ThreadPool
pub mod HashMap
pub mod ConnMap
pub mod Monitors
pub mod QueryScheduler
pub mod DbQuery
pub mod Relay
pub mod Tests
