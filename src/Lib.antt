-- ===== src/Lib.antt =====
-- pg_redis: a Redis-like key-value store inside PostgreSQL. This library models the parts of its C
-- code that carry the data: the SQL commands, the session store with expiry, its load and its flush
-- at commit, the encoding of values, the hash table in shared memory, the shared ring of queued
-- changes, and the drain that writes it to the durable tables.
--
-- Parts, and how they interact. The first command of a session loads the tables into its keyspace
-- (src/persistence.c). In sync mode a command (src/pg_redis.c) changes the session's keyspace,
-- whose hashes and lists mark what has changed (src/hash_value.c, src/list.c), and links the entry
-- in the dirty chain (src/kv_store.c); before the commit run_flush collects the marks into one
-- vector for each statement and runs the statements (src/persistence.c). In async mode a command
-- encodes one event for each changed row (src/dirty_ring.c, the encoders) with the value bytes of
-- src/binval.c, and publishes it in the ring (src/dirty_ring.c). A consumer, the background worker
-- or a producer that found the ring full, collects a batch, dispatches its events into one vector
-- for each statement, runs the six statements in a fixed order, and releases the batch, or returns
-- it on an error (src/persistence.c). A spilled payload lives in a chunk of the shared segment
-- (src/shmem.c) that the slot of the ring owns.
--
-- Files.
--   Base: shared vocabulary. Tests (Boolean tests, the do block of optional results), Lists,
--     Byte, Int (signed integers and their 64-bit form).
--   Types: src/types.h. Value is the type and the union of a PgRedisEntry.
--   Binval: src/binval.c. encode_value, decode_header, decode_string and decode_int are the
--     functions of these names; a varlena is its header size and its body.
--   Shmem: the allocator wrappers of src/shmem.c. Dsa holds the live chunks, and the frees in
--     order.
--   Event: src/dirty_ring.h and the encoders and decoders of src/dirty_ring.c, under their names
--     without the prefix.
--   Ring: the ring of src/dirty_ring.c; Ring.Producer has publish and publish_blocking,
--     Ring.Consumer has collect, release_batch, abort_batch, reclaim_stuck and drop_all_pending.
--     Ring.Valid has the invariant and the queue that a ring stands for; the other files of Ring
--     have the properties of the operation they are named for.
--   Durable: the tables of pg_redis--1.2.sql and the statements of src/persistence.c on them;
--     Durable.Batch the vectors and the plans that run them, Durable.Drain the drain.
--   Session: the session-mode store of src/kv_store.c and the expiry of src/ttl.c, under their
--     names without the prefix; Session.WellFormed and Session.Expiry have the properties.
--   Modes: the checks and modes of src/utils.c.
--   HashValue and ListValue: the hash of src/hash_value.c and the list of src/list.c of one key
--     in a backend, under the names without the prefix. HashValue.Accounts and ListValue.Queue
--     have what each operation does; ListValue.Push and ListValue.Pop the invariant.
--   Flush: run_flush of src/persistence.c over a Session of such hashes and lists. collect is its
--     two loops, flags_cleared and tracking_cleared what it clears. Flush.Tracking and
--     Flush.Lists show that the operations mark what a flush has to write, Flush.Insertable that
--     the tables accept it, Flush.Commit and Flush.Whole that it is written. Flush.Callback is
--     the transaction callback pg_redis_xact_cb_persistence.
--   Load: load_strings_and_ints, load_hashes and load_lists of src/persistence.c, one row each
--     being load_value, load_field and load_item, on the rows that their SELECTs return.
--     Load.Ready has the keyspace after the load of the hashes, Load.Values a row that a flush
--     has written.
--   Effect and Command: the SQL commands of src/pg_redis.c on one key with session storage.
--     Effect has what each does with the value of the key, Command the lookup or upsert before it
--     and the mark after it; pg_redis_set, del and expire are redis_set, redis_del and
--     redis_expire, incrdecr is incr_value, list_push push_value and list_pop pop_value.
--     Command.Contents is what a client should see, a map of strings, integers, maps of fields
--     and queues; Command.Calls compares the two, Command.Sequences composes the commands of a
--     transaction with its flush, Command.Stale has HSET on an expired hash
--     and its flush, Command.Revived the load after that.
--   SharedHash: the hash table of src/shared_hash.c under its names; pg_redis_shared_hash_set,
--     get, exists, del and count are hash_set, hash_get, hash_exists, hash_del and hash_count.
--     SharedHash.Map has the map that a table stands for and the invariant; Find, Placed, Write
--     and Growth the search, the writes and the rehash; Set, Del, Read and History the
--     operations.
--
-- State and concurrency. State is passed explicitly. Each consumer function runs under
-- ring_consumer_lock and is one step. A producer takes no lock: publish is the sequence reserve,
-- fill, commit, and publish_stale is a publish whose round has read the heads before other
-- processes changed the ring. Positions are 64-bit and wrap as written; the properties of the ring
-- are for positions below 2 ^ 64.
--
-- Bounds and fuel. The reservation loop of publish runs on fuel, since it spins while another
-- process holds the slot; one round is enough where the slot is free or the ring is full, and no
-- number is where it is held. publish_blocking runs on a number of rounds. The probes of a shared
-- hash are bounded by the bucket count in the source too. All other loops are structural. Sizes in
-- memory accounts wrap at 2 ^ 64, and the properties are for accounts that stay below; ordinals of
-- list items are unbounded integers.
--
-- Parameters. The shared allocator, the hash function of PostgreSQL, the comparison of timestamps,
-- the drain that a blocked producer calls, whether SPI connects and whether a plan fails by itself,
-- strtoll and the print format of an int64 are arguments. A refused statement is a failed plan; the
-- roll-back of a failed drain leaves the tables as they were.
--
-- Not modelled. PostgreSQL itself (SPI, locks, latches, memory contexts), KEYS, FLUSHALL, the
-- reports and the branches for shared storage of src/pg_redis.c, the shared store and its lists
-- (src/shared_store.c, src/shared_list.c), the snapshot and the shared load flag of
-- src/persistence.c, src/jobs.c and src/bgworker.c; the SQL scripts but for the tables; tests,
-- benchmarks and scripts.
pub mod Base
pub mod Types
pub mod Shmem
pub mod Event
pub mod Ring
pub mod Binval
pub mod Durable
pub mod Session
pub mod Modes
pub mod Flush
pub mod Load
pub mod Effect
pub mod Command
pub mod HashValue
pub mod ListValue
pub mod SharedHash
