-- ===== src/Commands/Publish.antt =====
-- src-tauri/src/commands/publish.rs: the gates that a publish passes, in their order, and what its
-- outcome is recorded against. The saved connections (a database) and rdkafka's producer are
-- parameters; log lines are left out. A `CommandError` is its cause, where the source formats a
-- sentence.
mod Gates
mod Feedback
mod Examples
use offset_explorer_oxide.Common.{
  ℕ, String, Bool, Option, none, some, List, [], ◌∷◌, ◌⊎◌, inl, inr, if◌then◌else◌,
}
use offset_explorer_oxide.Common.Int.{ℤ}
use offset_explorer_oxide.Core.Connection.{Connection}
use offset_explorer_oxide.Core.Errors.{AppError}
use offset_explorer_oxide.Core.Registry.{
  ConnectionRegistry, is_connected, auth_block_reason, write_denied_reason, record_auth_success,
  record_auth_failure, record_write_denied,
}
use offset_explorer_oxide.Core.Publish.{
  NewPublishMessage, EncodedRecord, for_max_message_size, Reason, Result, ok, err, Codecs,
  encode_messages, PublishFailureKind, authorization_failure, authentication_failure,
  validation_failure, transient, PublishFailure, DeliveredRecord, PublishOutcome, PublishRefusal,
  publish_refusal,
}
use offset_explorer_oxide.Kafka.Pool.{Pool, release}
use offset_explorer_oxide.Kafka.Producer.{Client, publish_messages}

pub record AppState (C : Type 0) : Type 0 where
  pub connections : ConnectionRegistry
  pub pool : Pool
  pub cluster : C

pub data CommandError : Type 0 where
  auth_blocked : String → CommandError
  not_loaded : AppError → CommandError
  refused : PublishRefusal → CommandError
  invalid : Reason → CommandError
  no_producer : String → CommandError

pub data Outcome : Type 0 where
  done : PublishOutcome → Outcome
  error : CommandError → Outcome

-- What the command is built on, and its arguments.
pub record Setting : Type 1 where
  pub codecs : Codecs
  pub to_lowercase : String → String
  pub client : Client
  pub saved : String → AppError ⊎ Connection
  pub id : String
  pub topic : String
  pub partition : ℤ
  pub max_message_size_bytes : ℕ

-- A delivered message is proof that the credentials work.
abbrev pub settle_delivered :
    List DeliveredRecord → ConnectionRegistry → String → ConnectionRegistry
settle_delivered [] r id = r
settle_delivered (d ∷ ds) r id = record_auth_success r id

module _ {C : Type 0} (id topic : String) where
  abbrev pub settle_kind : AppState C → String → PublishFailureKind → AppState C
  settle_kind s why authorization_failure = record s {
    connections = record_write_denied s.connections id topic why;
  }
  settle_kind s why authentication_failure = record s {
    connections = record_auth_failure s.connections id why;
    pool = release s.pool id;
  }
  settle_kind s why validation_failure = s
  settle_kind s why transient = s

  abbrev pub settle_failure : AppState C → Option PublishFailure → AppState C
  settle_failure s none = s
  settle_failure s (some f) = settle_kind s f.reason f.kind

  -- The registry and the pool after an outcome.
  unfoldable pub record_outcome : AppState C → PublishOutcome → AppState C
  record_outcome s out =
      settle_failure (record s { connections = settle_delivered out.delivered s.connections id })
        out.failure

module _ (setting : Setting) where
  open setting use {
    codecs, to_lowercase, client, saved, id, topic, partition, max_message_size_bytes,
  }

  abbrev pub State : Type 0
  State = AppState client.Cluster

  abbrev pub answered : State → client.Cluster × (String ⊎ PublishOutcome) → State × Outcome
  answered s (c, inl why) = (record s { cluster = c }, error (no_producer why))
  answered s (c, inr out) = (record_outcome id topic (record s { cluster = c }) out, done out)

  abbrev pub with_records : State → Result (List EncodedRecord) → State × Outcome
  with_records s (err e) = (s, error (invalid e))
  with_records s (ok records) =
      answered s (publish_messages client to_lowercase topic partition records s.cluster)

  abbrev pub unless_refused :
      State → List NewPublishMessage → Option PublishRefusal → State × Outcome
  unless_refused s messages (some refusal) = (s, error (refused refusal))
  unless_refused s messages none =
      with_records s (encode_messages codecs messages (for_max_message_size max_message_size_bytes))

  abbrev pub with_connection :
      State → List NewPublishMessage → AppError ⊎ Connection → State × Outcome
  with_connection s messages (inl e) = (s, error (not_loaded e))
  with_connection s messages (inr connection) = unless_refused s messages (
      publish_refusal (is_connected s.connections id) connection.allow_publishing
        (write_denied_reason s.connections id topic))

  -- `connection_for_request`, with what follows it.
  abbrev pub unless_blocked : State → List NewPublishMessage → Option String → State × Outcome
  unless_blocked s messages (some why) = (s, error (auth_blocked why))
  unless_blocked s messages none = with_connection s messages (saved id)

  unfoldable pub connection_publish_messages : State → List NewPublishMessage → State × Outcome
  connection_publish_messages s messages =
      unless_blocked s messages (auth_block_reason s.connections id)
