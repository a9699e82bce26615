-- ===== src/Commands/Publish/Examples.antt =====
-- The publish command's theorems at clusters that deny the topic or reject the credentials.
use offset_explorer_oxide.Common.{ℕ, ◌≡◌, ◌⊎◌, inr, true, none, some, List, [], ◌∷◌}
use offset_explorer_oxide.Common.Int.{pos}
use offset_explorer_oxide.Common.Equality.{string_eq, pair_eq}
use offset_explorer_oxide.Core.Connection.{plaintext, Connection}
use offset_explorer_oxide.Core.Registry.{mark_connected, default}
use offset_explorer_oxide.Core.Publish.{
  null, text, NewPublishMessage, EncodedRecord, authorization_failure, authentication_failure,
  PublishOutcome, PublishFailure,
}
use offset_explorer_oxide.Kafka.Auth.{
  RdKafkaErrorCode, topic_authorization_failed, sasl_authentication_failed,
}
use offset_explorer_oxide.Kafka.Producer.{rejected_with, Client, publish_messages}
use offset_explorer_oxide.Commands.Publish.{
  CommandError, error, Setting, State, answered, connection_publish_messages,
}
use offset_explorer_oxide.Commands.Publish.Gates.{
  MayPublish, connection_publish_messages-MayPublish,
}

abbrev failing : RdKafkaErrorCode → Client
failing code = record {
  Cluster = ℕ;
  create = λ n. none;
  send =
      λ n r. (n, [], rejected_with (record { rdkafka_error_code = some code; to_string = "no" }));
  flush = λ n. n;
}

abbrev local : Connection
local = record {
  id = "x";
  name = "x";
  bootstrap_servers = "x";
  kafka_version = "x";
  zookeeper_enabled = true;
  zookeeper_host = none;
  zookeeper_port = none;
  zookeeper_chroot_path = none;
  security_protocol = plaintext;
  sasl_mechanism = none;
  sasl_username = none;
  sasl_password = none;
  sasl_oauth_url = none;
  schema_registry_endpoint = none;
  schema_registry_basic_auth_credentials = none;
  schema_registry_trust_store_location = none;
  schema_registry_trust_store_password = none;
  schema_registry_keystore_location = none;
  schema_registry_keystore_password = none;
  schema_registry_keystore_key_password = none;
  ssl_truststore_location = none;
  ssl_truststore_password = none;
  ssl_keystore_location = none;
  ssl_keystore_password = none;
  ssl_keystore_key_password = none;
  allow_publishing = true;
  created_at = "x";
  updated_at = "x";
}

abbrev setting : RdKafkaErrorCode → Setting
setting code = record {
  codecs = record { is_json = λ t. true; base64_decode = λ t. some t };
  to_lowercase = λ s. s;
  client = failing code;
  saved = λ i. inr local;
  id = "prod";
  topic = "orders";
  partition = pos 0;
  max_message_size_bytes = 1000;
}

abbrev fresh : (code : RdKafkaErrorCode) → State (setting code)
fresh code = record {
  connections = mark_connected default "prod";
  pool = record { metadata_clients = []; admin_clients = [] };
  cluster = 0;
}

abbrev messages : List NewPublishMessage
messages =
    record {
      key = record { encoding = null; content = [] };
      value = record { encoding = text; content = 98 ∷ [] };
      headers = [];
    }
    ∷ []

abbrev denying : Setting
denying = setting topic_authorization_failed

abbrev rejecting : Setting
rejecting = setting sasl_authentication_failed

abbrev start : State denying
start = fresh topic_authorization_failed

connection_publish_messages-MayPublish_example :
    ((records : List EncodedRecord) × MayPublish denying start messages records
      × (connection_publish_messages denying start messages
          ≡ answered denying start
              (publish_messages denying.client denying.to_lowercase "orders" (pos 0) records 0)))
    ⊎ (((e : CommandError) × (connection_publish_messages denying start messages
            ≡ (start, error e)))
        × ((records : List EncodedRecord) → MayPublish denying start messages records → ⊥))
connection_publish_messages-MayPublish_example =
    connection_publish_messages-MayPublish denying start messages

abbrev denied_failure : PublishFailure
denied_failure = record {
  index = 0;
  kind = authorization_failure;
  reason =
      "you do not have write access to \"orders\" — the broker refused the message (no). Nothing was published.";
}

abbrev rejected_failure : PublishFailure
rejected_failure = record {
  index = 0;
  kind = authentication_failure;
  reason = "the broker rejected this connection's credentials (no)";
}

abbrev failed_with : PublishFailure → PublishOutcome
failed_with f = record { delivered = []; failure = some f; not_attempted = 0 }

abbrev after : (setting : Setting) → State setting → State setting
after setting s = (connection_publish_messages setting s messages).0

abbrev once : State rejecting
once = after rejecting (fresh sasl_authentication_failed)
