-- ===== src/Kafka/Producer/Examples.antt =====
-- The producer's theorems at a cluster that accepts two records and then rejects.
use offset_explorer_oxide.Common.{
  ℕ, suc, String, ◌≡◌, refl, inr, none, some, [], ◌∷◌, leb, if◌then◌else◌,
}
use offset_explorer_oxide.Common.Int.{pos}
use offset_explorer_oxide.Core.Auth.{is_auth_failure_reason, any_in}
use offset_explorer_oxide.Core.Errors.{authentication}
use offset_explorer_oxide.Core.Publish.{EncodedRecord, PublishOutcome}
use offset_explorer_oxide.Kafka.Auth.{other_code, KafkaError}
use offset_explorer_oxide.Kafka.Producer.{
  delivered_at, rejected_with, Client, failure_reason, error_each, no_errors,
  classify_produce_error, publish_messages,
}
use offset_explorer_oxide.Kafka.Producer.Outcome.{Reported, publish_messages-Reported}
use offset_explorer_oxide.Kafka.Producer.Reasons.{classify_produce_error-error_each}

abbrev timed_out : KafkaError
timed_out = record {
  rdkafka_error_code = some (other_code "MessageTimedOut");
  to_string = "Message timed out";
}

-- The cluster is the number of records that it has taken.
abbrev small : Client
small = record {
  Cluster = ℕ;
  create = λ n. none;
  send = λ n r.
      if leb 2 n
      then (n, "1/1 brokers are down" ∷ [], rejected_with timed_out)
      else (suc n, [], delivered_at (pos 0) (pos n));
  flush = λ n. n;
}

abbrev keep_case : String → String
keep_case s = s

abbrev empty_record : EncodedRecord
empty_record = record { key = none; value = none; headers = [] }

publish_messages-Reported_example :
    (c' : ℕ) × (out : PublishOutcome) × (publish_messages small keep_case "orders"
        (pos 0)
        (empty_record ∷ empty_record ∷ empty_record ∷ empty_record ∷ [])
        0
      ≡ (c', inr out))
    × Reported small keep_case "orders"
        (pos 0)
        (empty_record ∷ empty_record ∷ empty_record ∷ empty_record ∷ [])
        0
        c'
        out
publish_messages-Reported_example =
    publish_messages-Reported small keep_case "orders" (pos 0)
      (empty_record ∷ empty_record ∷ empty_record ∷ empty_record ∷ []) 0 refl

-- The password is rejected, and then the brokers are down: the cause is what counts.
classify_produce_error-error_each_example :
    classify_produce_error keep_case timed_out (
      failure_reason (
        error_each keep_case no_errors ("sasl authentication error" ∷ "1/1 brokers are down" ∷ [])))
    ≡ authentication
unfolding is_auth_failure_reason any_in
classify_produce_error-error_each_example =
    classify_produce_error-error_each keep_case timed_out
      ("sasl authentication error" ∷ "1/1 brokers are down" ∷ [])
