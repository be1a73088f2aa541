-- ===== src/Lib.antt =====
-- influx-sync copies the points of one InfluxDB 1.x into another across a one-way gateway, over TCP,
-- in order and at least once. The sender's poller and fast path encode batches of line protocol as
-- frames (internal/protocol) and append them to a write-ahead log (internal/wal); the sender sends
-- the oldest unconfirmed frames (internal/sender, internal/transport) and commits each at its ACK
-- byte; the receiver (internal/receiver) decodes a frame, drops what last_seq has already passed,
-- writes the rest to InfluxDB and answers 0xff once the frame is stored or isolated.
--
-- Base holds the shared notation, list and set lemmas; Bytes and Crc what the code uses of
-- encoding/binary and hash/crc32.
-- Protocol (internal/protocol): `put_header`, `parse_header`, `encode`, `decode` and `decompress` are
-- putHeader, ParseHeader, Encode, Decode and Decompress; an error is a value of `Error`. gzip and
-- zstd are the record `Compression`, an argument of the definitions that call them.
-- SeqTracker and Receiver (internal/receiver): `done`, `close_gap` and `handle_frame` are done,
-- closeGap and HandleFrame on explicit state; InfluxDB, the dead-letter directory, the relay log and
-- the last_seq file stand in the state as lists of what was written, and `Env` holds what the outside
-- answers during one call, the clock among it.
-- Wal (internal/wal): the segment files are a list of numbered contents, and `append_batch`,
-- `peek_batch`, `commit`, `move_to_dlq` and `apply_backfill_policy` are AppendBatch, PeekBatch,
-- Commit, MoveToDLQ and ApplyBackfillPolicy on them, in Wal and its Reading, Commit and Burying.
-- `Wal.Queue.Represents` says that the index and the files stand for a queue of numbered frames.
-- The file system's calls succeed, but for a read past an end.
-- Wal.Recovery: `open_wal`, `scan_segments`, `index_segment`, `resync_record` and `close_wal` are Open,
-- scanSegments, indexSegment, resyncRecord and Close on such files.
-- Transport.Client and Sender (internal/transport/tcp_client.go, internal/sender/sender.go): one pass
-- of the loop of Run is `run_step`, one of runPipeline is `window_round`; what the network answers is a
-- `Link`.
-- Sender.Dedup and Sender.FastPath (internal/sender/fastpath.go): `add`, `contains`, `evict`, `filter`
-- and `serve` are Add, Contains, evictLocked, Filter and ServeHTTP; a request is one step of the state.
-- Sender.Framing and Sender.Poller (internal/sender/poller.go): `append_points` is appendBatch, and
-- `poll_once` is pollOnce, with the clock and the answers of the source in an `Env`.
-- Sender.Queries (internal/sender/poller.go): `query_parallel` is queryParallel, over the results of
-- its queries in the order of their parts, and `points_equal` is PointsEqual of internal/model/point.go.
-- Transport.Pipeline (internal/transport/tcp_server.go): connPipeline and the loops of handleConn, as
-- steps of a connection in any order. A frame is read before its handler may start, and a refused
-- header is answered by the loop that reads.
-- Influx (internal/influx/client.go): `query_range` is QueryRange and `probe_oldest_data` is
-- ProbeOldestData, over what single queries answer; pointSet is the `BoundarySet` of Sender.Queries.
-- `series_to_points` is seriesToPoints on decoded rows, and `ensure_schema` is ensureSchema where the
-- calls for a measurement do not overlap.
-- EndToEnd: the sender's loop on its log, with the receiver behind the connection.
-- Model (internal/model): `parse_line`, `line_protocol`, `point_key` and `series_key` are ParseLine,
-- LineProtocol, Key and SeriesKey over strings as lists of bytes.
--
-- Bounds. A number is a native ℕ; a uint64 sum is written modulo 2 ^ 64, an int64 is compared by its
-- bit pattern, and a sequence number is taken below 2 ^ 62 where last_seq must stay a positive int64.
-- Fuel: the loop of `done` runs `length pending + 1` rounds, and the one of `commit` that removes
-- segments one for each segment number up to the current one and one more, and the scan of a segment
-- one for each byte and one more; all are proved enough.
-- `append_points` runs one round more than its batch has points, since a split halves the batch. The
-- loop of runPipeline has no bound of its own: it runs as many rounds as it is given a `Link` for.
--
-- Not modelled: metrics and logging, sleeps, timeouts and contexts, the files' names, the texts of
-- errors, the deflate and zstd formats, goroutine scheduling inside one call of HandleFrame;
-- the timers of the poller, the requests and the decoding of the InfluxDB client, and the
-- configuration and the monitor, which only read, write and count.
pub mod Base
pub mod Bytes
pub mod Crc
pub mod Protocol
pub mod SeqTracker
pub mod Receiver
pub mod Wal
pub mod Transport
pub mod Sender
pub mod EndToEnd
pub mod Model
pub mod Influx
