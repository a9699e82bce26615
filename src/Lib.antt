-- ===== src/Lib.antt =====
-- Offset Explorer Oxide ("Salty"), a desktop browser for Kafka: the rules of its Rust backend.
--
-- The desktop commands (src-tauri/src/commands) hold one registry of connections and one set of fetch
-- cancellations for the app. A fetch plans what it reads from each partition, polls the broker until
-- its flag is set, and streams its messages to the window in batches. A publish passes the gates of
-- the command, is encoded as a whole, and is sent record by record; what came of it is recorded in the
-- registry, which the next publish asks first.
--
--   * Common: lists and tests over native numbers, signed integers with wrap-around, dictionaries
--     (`Dict` for `HashMap` and `HashSet`, `Ordered` for `BTreeMap`), equality of keys, UTF-8 text.
--   * Core.Registry: backend/core/src/registry.rs, a function for each method of
--     `ConnectionRegistry`; `Session` is the view of one connection, `Breaker` answers from histories.
--   * Core.Cancellation: backend/core/src/fetch_cancellation.rs. A flag (`Arc<AtomicBool>`) is an
--     address in a store of cells.
--   * Core.Stream: backend/core/src/message_stream.rs, `forward_in_batches` as a recursion on what the
--     loop waits for.
--   * Core.Errors, Core.Auth, Kafka.Auth: backend/core/src/error.rs and auth.rs and
--     backend/kafka/src/auth.rs, the kinds of error and what speaks of rejected credentials.
--   * Core.DataMigration: backend/core/src/data_migration.rs over a disk that may stop at any operation;
--     `Interrupted` and `Recovery` say what one launch leaves, `Attempts` what several do.
--   * Core.Connection, Core.ConnectionExport: backend/core/src/connection.rs and connection_export.rs.
--   * Core.Publish: backend/core/src/publish.rs; `Messages` and `Encoding` say which batches encode,
--     and to what.
--   * Kafka.Budget: backend/kafka/src/messages.rs, a function for each function.
--   * Kafka.Assignment: backend/kafka/src/assignment.rs; `RoundTrip` writes the format that it decodes.
--   * Kafka.Producer: backend/kafka/src/producer.rs, the sequential publish over a cluster that answers
--     each send; `Outcome` is about the report, `Reasons` about the kind of a failure.
--   * Kafka.Plan: what `fetch_messages` works out before its poll loop, from filter and watermarks;
--     `Newest` is about a fetch of the newest messages, `Maps` has its lemmas on collected maps.
--   * Kafka.Shards: how `fetch_messages` deals the partitions to consumers in between; `Dealt`
--     describes what each consumer gets.
--   * Kafka.Fetch: the poll loop of `fetch_messages` in backend/kafka/src/client.rs, over a list of what
--     the polls return. `Taken`, `Collected` and `Delivered` say which messages it takes, `Unfinished`,
--     `Counted` and `Ended` how the ends of the partitions stop it, `Idle` how silence does.
--   * Kafka.Pool: the pooled clients in backend/kafka/src/client.rs, a client being the number of its
--     allocation; `Built`, `Versions` and `Reuse` say when one is handed out again.
--   * Kafka.Config: backend/kafka/src/config.rs; `Settings` has the properties of every client as a
--     table, `Limits` those of a fetch and of a publish.
--   * Protobuf.Json, Protobuf.Wire: backend/protobuf/src/wire.rs. `Varint` writes the varints that
--     `Wire` reads; `Fields` reads a message without a schema, `Advance` says how far, `Fuel` and
--     `Depth` that it ends and how deep; `Message` writes messages, `RoundTrip` and `Repeated` read
--     them again, `Gather` is about fields that are written several times.
--   * Db.Table, Db.Connections: backend/db/src/connections.rs over a table in the order of insertion;
--     `Promise` is what it promises, a map from ids to connections, `Stored`, `Holds` and `Refines`
--     show that it is kept, `Listed` is about the list.
--   * Commands.Publish: src-tauri/src/commands/publish.rs and `connection_for_request` of
--     connections.rs; `Gates` says what reaches the cluster, `Feedback` how a failure shuts the gates.
--   * Commands.Transfer: the export and import commands of src-tauri/src/commands/connections.rs;
--     `RoundTrip` imports what was exported.
--
-- Each operation of the registry and of the cancellations takes one lock at a time, so a history is a
-- list of calls in the order in which they get the lock. Partition ids and offsets are integers; a
-- subtraction of offsets wraps around at 64 bits, as in a release build. Loops are structural
-- recursions on the list or the count that they run over. Fuel is used by UTF-8 decoding, one unit
-- for each byte, where each character takes a byte at least; by the digits of a number, twenty for 64
-- bits; and by the reading of fields without a schema: a turn for each byte, where a field takes two at
-- least, and 34 levels, where messages at depth 33 are refused.
--
-- Not under the repository, and parameters: serde_json's parser and the base64 decoder (`Codecs`),
-- rdkafka's producer (`Client`), the saved connections and the
-- database of the commands, the certificates of the operating system, the texts of floating-point
-- numbers (`FloatTexts`), fresh ids and times, serde_json for export files (`Json`), the table of Unicode lower case. The sentences
-- that errors carry are data (`Reason`, `PublishRefusal`, `CommandError`).
--
-- Not modelled: the other broker calls and their I/O, the tabs and topic schemas of the database, `zigzag_decode`, the HTTP client of the schema
-- registry, serialisation to JSON, logging and the user interface.
pub mod Common
pub mod Core
pub mod Db
pub mod Kafka
pub mod Commands
pub mod Protobuf
