-- ===== src/Kafka/Auth.antt =====
-- backend/kafka/src/auth.rs: whether a librdkafka failure means that credentials were rejected. An
-- error of rdkafka is what the source reads of it, its code and its text.
use offset_explorer_oxide.Common.{String, Bool, true, false, ◌||◌, Option, none, some}
use offset_explorer_oxide.Core.Auth.{is_auth_failure_reason}

-- The codes that the source names, and all the others.
pub data RdKafkaErrorCode : Type 0 where
  authentication sasl_authentication_failed : RdKafkaErrorCode
  topic_authorization_failed cluster_authorization_failed : RdKafkaErrorCode
  group_authorization_failed transactional_id_authorization_failed : RdKafkaErrorCode
  message_size_too_large unknown_topic_or_partition unknown_topic : RdKafkaErrorCode
  unknown_partition invalid_partitions message_batch_too_large : RdKafkaErrorCode
  invalid_record invalid_message invalid_message_size : RdKafkaErrorCode
  other_code : String → RdKafkaErrorCode

pub record KafkaError : Type 0 where
  pub rdkafka_error_code : Option RdKafkaErrorCode
  pub to_string : String

abbrev pub and_then {ℓ κ} : {A : Type ℓ} {B : Type κ} → Option A → (A → Option B) → Option B
and_then none f = none
and_then (some a) f = f a

abbrev pub code_says_auth : Option RdKafkaErrorCode → Bool
code_says_auth none = false
code_says_auth (some authentication) = true
code_says_auth (some sasl_authentication_failed) = true
code_says_auth (some _) = false

module _ (to_lowercase : String → String) where
  abbrev pub reason_says_auth : Option String → Bool
  reason_says_auth none = false
  reason_says_auth (some why) = is_auth_failure_reason to_lowercase why

  unfoldable pub is_auth_failure : Option KafkaError → Option String → Bool
  is_auth_failure error why =
      code_says_auth (and_then error (λ e. e.rdkafka_error_code)) || reason_says_auth why
