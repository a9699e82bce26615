-- ===== src/Kafka/Producer.antt =====
-- backend/kafka/src/producer.rs: records sent one at a time, each awaited before the next, and a
-- stop at the first failure. rdkafka's producer is a parameter: how one send changes the cluster,
-- the reasons that it reports through the error callback meanwhile, and its answer. Its
-- configuration (`publish_config`) is part of the parameter.
mod Outcome
mod Reasons
mod Examples
use offset_explorer_oxide.Common.{
  ℕ, suc, ◌+◌, ◌-◌, String, Bool, true, false, ◌||◌, Option, none, some, List, [], ◌∷◌, ◌++◌, ◌⊎◌,
  inl, inr, if◌then◌else◌, length,
}
use offset_explorer_oxide.Common.Int.{ℤ}
use offset_explorer_oxide.Common.Utf8.{Text, Bytes}
use offset_explorer_oxide.Core.Auth.{is_auth_failure_reason}
use offset_explorer_oxide.Core.Errors.{AppError, kafka, validation, authentication, authorization}
use offset_explorer_oxide.Core.Publish.{
  EncodedRecord, from_error, DeliveredRecord, PublishFailure, PublishOutcome, default,
}
use offset_explorer_oxide.Kafka.Auth.{RdKafkaErrorCode, KafkaError, is_auth_failure}
use Prim.Native.String.{◌++◌ as ◌+s+◌}

pub record ProducerErrorContext : Type 0 where
  pub last_error : Option String
  pub auth_error : Option String

abbrev pub no_errors : ProducerErrorContext
no_errors = record { last_error = none; auth_error = none }

abbrev pub or_else : Option String → Option String → Option String
or_else none other = other
or_else (some x) other = some x

pub record FutureRecord : Type 0 where
  pub topic : String
  pub partition : ℤ
  pub key : Option Bytes
  pub payload : Option Bytes
  pub headers : Option (List (Text × Option Bytes))

unfoldable pub build_headers : List (Text × Option Bytes) → Option (List (Text × Option Bytes))
build_headers [] = none
build_headers (h ∷ hs) = some (h ∷ hs)

unfoldable pub future_record : String → ℤ → EncodedRecord → FutureRecord
unfolding build_headers
future_record topic partition r = record {
  topic = topic;
  partition = partition;
  key = r.key;
  payload = r.value;
  headers = build_headers r.headers;
}

pub data Answer : Type 0 where
  delivered_at : ℤ → ℤ → Answer
  rejected_with : KafkaError → Answer

-- A cluster with a producer for it: `create` may fail, with the text of its error.
pub record Client : Type 1 where
  pub Cluster : Type 0
  pub create : Cluster → Option String
  pub send : Cluster → FutureRecord → Cluster × List String × Answer
  pub flush : Cluster → Cluster

abbrev pub failure_reason : ProducerErrorContext → Option String
failure_reason errors = or_else errors.auth_error errors.last_error

abbrev pub kind_of_code : Option RdKafkaErrorCode → AppError
kind_of_code none = kafka
kind_of_code (some RdKafkaErrorCode.topic_authorization_failed) = authorization
kind_of_code (some RdKafkaErrorCode.cluster_authorization_failed) = authorization
kind_of_code (some RdKafkaErrorCode.group_authorization_failed) = authorization
kind_of_code (some RdKafkaErrorCode.transactional_id_authorization_failed) = authorization
kind_of_code (some RdKafkaErrorCode.message_size_too_large) = validation
kind_of_code (some RdKafkaErrorCode.unknown_topic_or_partition) = validation
kind_of_code (some RdKafkaErrorCode.unknown_topic) = validation
kind_of_code (some RdKafkaErrorCode.unknown_partition) = validation
kind_of_code (some RdKafkaErrorCode.invalid_partitions) = validation
kind_of_code (some RdKafkaErrorCode.message_batch_too_large) = validation
kind_of_code (some RdKafkaErrorCode.invalid_record) = validation
kind_of_code (some RdKafkaErrorCode.invalid_message) = validation
kind_of_code (some RdKafkaErrorCode.invalid_message_size) = validation
kind_of_code (some _) = kafka

module _ (to_lowercase : String → String) where
  abbrev pub error : ProducerErrorContext → String → ProducerErrorContext
  error errors why = record {
    last_error = some why;
    auth_error =
        if is_auth_failure_reason to_lowercase why
        then or_else errors.auth_error (some why)
        else errors.auth_error;
  }

  abbrev pub error_each : ProducerErrorContext → List String → ProducerErrorContext
  error_each errors [] = errors
  error_each errors (why ∷ later) = error_each (error errors why) later

  unfoldable pub classify_produce_error : KafkaError → Option String → AppError
  classify_produce_error e why =
      if is_auth_failure to_lowercase (some e) why
        || is_auth_failure to_lowercase (some e) (some e.to_string)
      then authentication
      else kind_of_code e.rdkafka_error_code

abbrev pub describe_produce_error : KafkaError → AppError → String → String
describe_produce_error e authorization topic =
    "you do not have write access to \""
    +s+ (topic
        +s+ ("\" — the broker refused the message ("
            +s+ (e.to_string +s+ "). Nothing was published.")))
describe_produce_error e authentication topic =
    "the broker rejected this connection's credentials (" +s+ (e.to_string +s+ ")")
describe_produce_error e _ topic = e.to_string

module _ (client : Client) (to_lowercase : String → String) (topic : String) (partition : ℤ) where
  open client use {Cluster, create, send, flush}

  abbrev pub Loop : Type 0
  Loop = Cluster → ProducerErrorContext → PublishOutcome → Cluster × PublishOutcome

  abbrev pub failure_of : ℕ → KafkaError → ProducerErrorContext → PublishFailure
  failure_of index e errors =
      let kind = classify_produce_error to_lowercase e (failure_reason errors) in
      record { index = index; kind = from_error kind; reason = describe_produce_error e kind topic }

  -- The arms of the loop's `match`: go on with the next record, or `break`.
  abbrev pub settle :
      ℕ
      → ℕ
      → Loop
      → Cluster
      → ProducerErrorContext
      → PublishOutcome
      → Answer
      → Cluster × PublishOutcome
  settle count index next c errors out (delivered_at p o) =
      let d : DeliveredRecord = record { index = index; partition = p; offset = o } in
      next c errors (record out { delivered = out.delivered ++ d ∷ [] })
  settle count index next c errors out (rejected_with e) = (
    c,
    record out { failure = some (failure_of index e errors); not_attempted = count - index - 1 },
  )

  unfoldable pub send_each : ℕ → ℕ → List EncodedRecord → Loop
  send_each count index [] c errors out = (c, out)
  send_each count index (r ∷ rs) c errors out =
      let sent = send c (future_record topic partition r) in
      settle count index (send_each count (index + 1) rs) sent.0
        (error_each to_lowercase errors sent.1) out sent.2

  abbrev pub flushed : Cluster × PublishOutcome → Cluster × PublishOutcome
  flushed (c, out) = (flush c, out)

  abbrev pub published :
      Option String → List EncodedRecord → Cluster → Cluster × (String ⊎ PublishOutcome)
  published (some why) records c = (c, inl why)
  published none records c =
      let end = flushed (send_each (length records) 0 records c no_errors default) in
      (end.0, inr end.1)

  -- On the left the text of a producer that could not be created (an `AppError.kafka`).
  unfoldable pub publish_messages :
      List EncodedRecord → Cluster → Cluster × (String ⊎ PublishOutcome)
  unfolding send_each
  publish_messages records c = published (create c) records c
