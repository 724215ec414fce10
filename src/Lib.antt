-- ===== src/Lib.antt =====
-- Verification of StarAvail, a proxy that keeps StarRocks available: it takes queries and writes,
-- buffers the writes whose tablets are down, and retries them when the tablets recover.
--
-- Clients speak the MySQL protocol to the proxy. A write that cannot be executed goes into the
-- write buffer, keyed by its tablet; the retry manager watches the health of the tablets, takes
-- writes from the buffer, and hands them to an executor. The health checker tells from the states of
-- tablets and partitions which queries and writes can be executed. Messages from a broker are put
-- together into batches before they are written. The parts that are modelled, with the
-- code that they model:
--
-- Protocol: internal/interfaces/mysql/protocol/protocol.go.
--   Protocol/Base: results of Go calls (a value, an error, a panic, or no fuel left) and the
--     little-endian numbers.
--   Protocol/LenEnc: readLengthEncodedInteger, writeLengthEncodedInteger, ReadUint16, ReadUint32.
--   Protocol/Packet: MySQLProtocol with readPacket, writePacket, ReadCommandPacket. The connection
--     is the list of bytes that the peer still sends, the list of bytes sent, and the answer to each
--     write. The loops run on fuel: one unit more than the bytes to read or to write, and each round
--     reads or writes at least one.
--   Protocol/Replies: WriteOK, WriteError, WriteEOF, WriteResultSetHeader, WritePrepareOK.
--   Protocol/Rows: WriteColumnDefinition, WriteTextRow; the texts that Go's fmt and time packages
--     make of a value are a parameter.
--   Protocol/Handshake: ReadHandshakeResponse. Its loop over the attributes runs on one unit of fuel
--     more than the packet has bytes, and each round passes over at least two.
--
-- Write: internal/domain/write.
--   Write/Types, Write/Entries: the types of buffer.go; the nested map of writes is the list of its
--     entries, in an order of which nothing is assumed.
--   Write/Sort: Go's sort.Slice, an interface that the operations take: any function that permutes a
--     list into order. Write/Sort/Insertion fills it.
--   Write/Evict: evictWritesLocked.
--   Write/Buffer: BufferWrite, FlushBuffer, GetBufferedWrites, RemoveBufferedWrite,
--     UpdateBufferedWriteStatus, CleanExpiredWrites, GetBufferStats. Every call holds the mutex, so it
--     is one step. A listing takes the sort and the order of the entries of one call: Go goes
--     through its maps in another order each time.
--   Write/Retry: retry.go: ScheduleRetry, CancelRetry, GetRetryStatus, updateRetryStatus; in
--     Write/Retry/Execute executeRetry with its backoff and its readings of the clock, split where
--     other calls can run in between; in Write/Retry/Interleaved its steps on a clock among the other
--     calls, which can cancel the retry or change the buffer at any time; in Write/Retry/Batches RetryAll, RetryForTable, RetryForPartition, handleHealthEvent, whose loop
--     over the batches has as much fuel as there are writes; in Write/Retry/Backoff
--     calculateBackoff on 64-bit words.
--
-- Tablet: internal/domain/tablet/entity.go: NewTablet, the Mark methods, AddReplica, RemoveReplica,
--   UpdateReplica, PromoteReplica. The replica type, which the repository does not declare, is the
--   interface ReplicaModel. Tablet/Collection: TabletCollection, over references to tablets and what
--   they point to.
--
-- Batch: internal/batch. Messages from a broker are collected into batches, which a caller takes.
--   Batch/Aggregator: aggregator.go: DefaultBatchAggregator. Every call holds the mutex, so each is
--     one step, and so are the event of the batch timer and the check for expired batches.
--   Batch/Partitions: TablePartitionAggregator, over the aggregators of its keys.
--   Batch/Strategy: strategy.go: TimeIntervalStrategy, BatchSizeStrategy, BatchCountStrategy,
--     HybridStrategy and AdaptiveStrategy with ShouldCreateBatch; in Batch/Strategy/Factory
--     BatchStrategyFactory, in Batch/Strategy/Evaluator StrategyEvaluator, in Batch/Strategy/Manager
--     BatchStrategyManager. Floats are the interface Floats, of which nothing is assumed.
--
-- Health: internal/domain/health/checker.go, HealthCheckerImpl.
--   Health/Analysis, Health/Tables, Health/Backends: analyzeTabletHealth, analyzePartitionHealth,
--     analyzeTableHealth as the sequence of its checks, analyzeBackendHealth and compileHealthReport.
--   Health/Executability: analyzeQueryExecutability, analyzeWriteExecutability.
--   Health/Checks, Health/Report: the checks with their caches, and GenerateHealthReport. The tablet
--     manager and the monitor are interfaces, whose answers stay the same during one check.
--
-- Common holds the shared names, Boolean tests, lists over native numbers, and texts.
--
-- For the buffer and the retries the health checker is a parameter, and so are the write executor,
-- strings.EqualFold, the random generator and the texts of errors. Sizes, counters and times are
-- natural numbers, without the wrap-around of int64, except where a file says otherwise. Where
-- float64 decides, an interface of the module holds the operations that the code uses.
--
-- Not modelled: logs, metrics and the texts of issues; the persistence of the buffer, the
-- statistics of the retries, the greeting of the server, the binary rows and the parameters of
-- prepared statements, the command dispatch, MultiBatchAggregator; and the other packages: query
-- planning, the tablet manager, the health monitor, the batch controller, Avro and schemas, the
-- proxy and router, the HTTP interface, Pulsar, configuration. They are input and output for the
-- most part, or were left for later.
pub mod Batch
pub mod Common
pub mod Health
pub mod Protocol
pub mod Tablet
pub mod Write
