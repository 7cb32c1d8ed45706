-- ===== src/Lib.antt =====
-- A verification library for WaveSpan, a multi-cluster key-value store with replicated collections.
--
-- Every write carries a version: a hybrid logical clock reading, the writer's cluster and member, and
-- the member's sequence number (internal/version). When replicas of different clusters meet two
-- versions of a key, the namespace's conflict policy merges them into one result, and all clusters must
-- come to the same one (internal/conflict). The collections service applies committed Raft commands to
-- a replicated state machine (internal/collections): every replica must reach the same state, a client
-- may send a command again, and an entry that cannot be applied is skipped. It keeps sets, hashes and
-- sorted sets with a cardinality each, and budgets, which lease parts of a capacity to holders.
--
-- The files, with the code that they model (paths from the repository's root):
--   * Base and the files below it: Booleans, lists, association lists, byte strings, integers, and the
--     wrap-around arithmetic of int64.
--   * Version: internal/version/version.go (Version.Compare, Equal, MutationID, Sequencer) and
--     Timestamp of internal/version/hlc.go. Version/Clock: Clock.Now, Clock.Update and normalize of
--     hlc.go, a call of the wall clock being an argument. Version/Order, Monotone, Trace and Identity
--     hold the proofs.
--   * Records: StoredRecord and ValueBody of proto/wavespan/v1/common.proto.
--   * Conflict: HLCLastWriteWins.Resolve (internal/conflict/hlc_lww.go), KeepSiblings.Resolve
--     (keep_siblings.go), and the registry (resolver.go, deferred.go). Go ranges over a map in an
--     unspecified order: the order is a parameter with the laws `IsRange`. Conflict/Highest, Sort,
--     Writers, Siblings and Policies hold the proofs.
--   * Budget: the records and rows of internal/collections/budget.go. Budget/Grant: applyBudInit and
--     applyBudGrant. Budget/Settle: applyBudReport, applyBudReturn, applyBudExpire, applyBudTombGC and
--     applyBudReconcile. Budget/Machine: the budget branch of applyOne in
--     internal/collections/statemachine.go, with its type guard. Budget/Wire and Budget/Codec: the byte
--     layouts. Budget/Pool, Invariant, Conserve, Cap and Ledger hold the proofs on the pool and its
--     leases; Reconcile, Rows, Settled, Retry, Pacing and RoundTrip the other proofs.
--     Budget/Check: lookupBudStat and lookupBudCheck.
--   * RecordStore: the local store of internal/recordstore/store.go, where every replicated write ends.
--     RecordStore/Keys: the keys of encode.go and of the ttl index. RecordStore/Apply: NextVersion,
--     BuildRecord and Apply. RecordStore/Siblings: ApplySiblings. RecordStore/Forget: Forget.
--     RecordStore/Namespace: NamespaceOfKey of selection.go. RecordStore/Read: Get, GetRecord and
--     ExpiresAt. A read does not see a row whose expiry is past; the engine's time is a field of the
--     store. Timeless, Cache and Live hold the proofs. A Go namespace is shorter than 2^63 bytes; the version
--     cache joins namespace and key by a zero byte, so its theorems ask for namespaces without one
--     (`IsName`).
--   * Shard: the data shard of internal/collections, shardSM, one entry of the Raft log at a time.
--     Shard/Exec: the state and failure of an apply function. Shard/Keys: the keys of base_sm.go,
--     statemachine.go, ttl.go, dedup.go and freeze.go. Shard/Codec: the bytes of command.go. Shard/Scores:
--     the sortable scores. Shard/Context: the overlays of updateCtx, ttl.go and dedup.go. Shard/Apply:
--     applyCommand. Shard/Counter: hincr.go. Shard/Leases and Shard/Budgets: the budget's rows
--     and its apply functions on them, with the guards and the movements of money of Budget. Shard/One:
--     applyOne. Shard/Migrate: migrate.go and freeze.go.
--     Shard/Update: applyEntry, applyEntrySafe (sm_fatal.go), flush and Update. The proofs: ScoreOrder
--     (order of scores); RoundTrip (codecs); BudgetSteps, Commands, Entries, Growth and Skip (an
--     entry that fails);
--     Disjoint, Outside, Count, Families, Counted, Members, Expiring, LeaseRows, Foreign, Own, Guarded, Cards,
--     Flush and Cardinality (cardinalities); Once (repeats); Frozen; Refresh (expiry).
--   * Idempotency: internal/replication/local/idempotency.go.
--
-- Numbers. An int64 is an integer whose additions, subtractions and products wrap at 64 bits
-- (Base/Int64); uint64 and uint32 are numbers with `% 2 ^ 64` and `% 2 ^ 32` written out. The
-- loop of `normalize` runs on fuel: it takes
-- 65536 off the counter in each round, so as many rounds as the counter itself are enough.
--
-- In the shard, a scan is the filter of the rows by a prefix, and a count on the wire bounds the loop
-- that reads so many items. Its store is an association list of rows.
--
-- Parameters: in the shard, strconv and the addition of float64.
--
-- Not modelled: the storage engine and its faults (an apply function that meets one stops the replica),
-- the record store's scans, the shard's read queries but for the card check, snapshots, membership,
-- replication transports, the graph, vector and Cypher engines, backup, the operator and the generated
-- code.
pub mod Base
pub mod Budget
pub mod Conflict
pub mod Idempotency
pub mod RecordStore
pub mod Records
pub mod Shard
pub mod Version
