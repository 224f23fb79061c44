-- ===== src/Lib.antt =====
-- A verification library of prometheus-scrape-rs, an agent that scrapes Prometheus targets and
-- forwards the samples by remote write.
--
-- `scrape_loop` of src/scrape.rs wakes up for each scrape of a target. `scrape_once` fetches a body
-- and gives it to `parse` of src/parser.rs or of src/protobuf.rs, by its content type. Each series is
-- merged with the labels of its target, relabelled by `process` (src/relabel.rs), given the external
-- labels and sorted (`finalize_series_labels`). `SeriesTracker` adds a stale marker for each series
-- that vanished. The loop of `Endpoint::run` (src/remote_write.rs) cuts what it receives into batches,
-- and a batch is encoded by `WriteRequest::encode_into` (src/model.rs). The files are:
--
-- Model, Model/Sort, Model/SortLaws: the types of src/model.rs and `sort_labels`, which is an unstable
--   sort in the source and an insertion from the back here: the same for distinct names.
-- Wire: the encoder of src/model.rs, one function per function. Wire/Varint, Wire/Zigzag: the
--   integers. Wire/Message: the same messages as lists of fields, and a printer that prints a
--   nested message before it counts it. Wire/Encode, Wire/Length, Wire/Histograms, Wire/Request:
--   the encoder against that printer. Wire/Read, Wire/Fields, Wire/Packed,
--   Wire/Received, Wire/RoundTrip: a receiver.
-- Labels: the label list functions of src/scrape.rs, which `LabelSet` of src/relabel.rs shares.
-- Relabel: src/relabel.rs without deserialization. Relabel/Matching: the classified patterns against
--   the regex engine. Relabel/Replace: the fast paths of `replace`. Relabel/Validate: `validate`.
--   Relabel/Rules, Relabel/Drops, Relabel/Effect: what the rules do.
-- Scrape, Scrape/Merge, Scrape/Finalize: `finalize_series_labels` and `merge_target_labels` of
--   src/scrape.rs. Scrape/Content: `BodyFormat::from_content_type`, `read_body` and `fetch`, from the
--   response on, which is a record of what the client gives. Scrape/Once: `Target`, `parse_body` and
--   `scrape_once`, whose clock, duration and fetched body are arguments.
-- Staleness: `SeriesTracker` of src/scrape.rs with the metrics it moves. Staleness/Hashes: its sorted
--   hashes. Staleness/Spec: what a retained body stands for, round by round, and the markers that come of
--   it. Staleness/Spec/Naive: a tracker that keeps the series of the last scrape. Staleness/Gauge: the
--   gauge. Staleness/Loop: `scrape_loop` over the sequence of what wakes it up. Staleness/Loop/Removal:
--   its end.
-- Protobuf: the messages, settings and errors of src/protobuf.rs. Protobuf/Spans: `validate_side`,
--   `merge_buckets` and `reduce_resolution`; Protobuf/Spans/Merge and Protobuf/Spans/Total: what the
--   merging gives, and that it does. Protobuf/Native: `native_histogram`. Protobuf/Series:
--   `SeriesBuilder` and `format_float`. Protobuf/Families: `base_labels`, `convert_family` and `parse`.
-- Hash: src/hash.rs.
-- Parser: the names, label values and the duplicate index of src/parser.rs. Parser/Labels:
--   `parse_labels`. Parser/Lines: `parse_line` and `parse`.
-- Remote, Remote/Delivery: the loop of `Endpoint::run` of src/remote_write.rs over the events that it
--   wakes up for, up to the calls of `flush`. Remote/Flush: `RemoteWriteHandle::send`, and of `flush`
--   the relabelling and the loop that retries.
-- Base: numbers, integers, lists and texts. Tests: runs of the definitions and instances.
--
-- Bytes are numbers below 256, a text is the list of its bytes, and a float is its bit pattern. Sums
-- on `usize` are not reduced: where it matters a theorem asks that the size fits in 64 bits. Stored
-- integers have their ranges as predicates (`IsU64`, `IsI64`, `IsI32`). A position in a line is what
-- is left of the line. The loop of `parse_labels` has fuel, one more than the bytes behind the
-- brace: each round takes a byte at least. The loop that
-- flushes full batches has one more than the pending series: each flush takes one at least. The loop
-- over the families of a protobuf body has the length of the body: a family takes a byte at least. The
-- loop that halves the resolution of a histogram has 14 rounds: the schema goes from 8 to -4. A
-- `binary_search` in a sorted vector is a test of membership. The arithmetic of src/protobuf.rs on
-- `i64` wraps around, and an amount of a shift is taken modulo 64, as in a build without overflow
-- checks.
--
-- Parameters: the regex engine, MD5 and the case mappings (`Engine`, with `IsEngine` for what the
-- documentation of the regex crate says of `(.*)`, of sequences of plain characters and `.*`, and of
-- templates without a dollar sign), `f64` parsing and arithmetic (`FloatOps`) and `f64` addition and
-- printing (`FloatText`), `decode_length_delimited` of prost, `str::from_utf8`, `try_send` of tokio, and the compression of snappy (`Snappy`).
--
-- Not modelled: `build_targets` of src/scrape.rs and the request that a scrape sends; the 2.0
-- encoder of src/remote_write.rs and what of `flush` leads to it; src/config.rs; service discovery, the web server,
-- telemetry, authentication and the entry point, which are mostly input and output.
pub mod Base
pub mod Model
pub mod Wire
pub mod Labels
pub mod Relabel
pub mod Scrape
pub mod Hash
pub mod Parser
pub mod Remote
pub mod Tests
pub mod Protobuf
pub mod Staleness
