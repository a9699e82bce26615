-- ===== src/Kafka/Config/Examples.antt =====
-- A connection over TLS with a password and no mechanism.
use offset_explorer_oxide.Common.{ℕ, String, true, none, some, ◌≡◌, ◌≤◌, ◌*◌, ◌/◌, max}
use offset_explorer_oxide.Common.Digits.{to_string}
use offset_explorer_oxide.Core.Connection.{ssl, Connection}
use offset_explorer_oxide.Kafka.Config.{fetch_consumer_config, publish_config}
use offset_explorer_oxide.Kafka.Config.Settings.{get, value}
use offset_explorer_oxide.Kafka.Config.Limits.{
  fetch_table, publish_table, fetch_consumer_config_queue, configs_keep_cluster,
}

abbrev pub cluster : Connection
cluster = record {
  id = "x";
  name = "x";
  bootstrap_servers = "x";
  kafka_version = "x";
  zookeeper_enabled = true;
  zookeeper_host = none;
  zookeeper_port = none;
  zookeeper_chroot_path = none;
  security_protocol = ssl;
  sasl_mechanism = none;
  sasl_username = none;
  sasl_password = some "secret";
  sasl_oauth_url = none;
  schema_registry_endpoint = none;
  schema_registry_basic_auth_credentials = none;
  schema_registry_trust_store_location = none;
  schema_registry_trust_store_password = none;
  schema_registry_keystore_location = none;
  schema_registry_keystore_password = none;
  schema_registry_keystore_key_password = none;
  ssl_truststore_location = none;
  ssl_truststore_password = none;
  ssl_keystore_location = none;
  ssl_keystore_password = none;
  ssl_keystore_key_password = none;
  allow_publishing = true;
  created_at = "x";
  updated_at = "x";
}

fetch_consumer_config_queue_example :
    let config = fetch_consumer_config none none cluster 1048576 in
    (kbytes : ℕ) × (get config "queued.max.messages.kbytes" ≡ some (to_string kbytes))
    × (get config "max.partition.fetch.bytes" ≡ some (to_string 1048576))
    × (get config "fetch.queue.backoff.ms" ≡ some "10")
    × (1048576 ≤ kbytes * 1024)
    × (8192 ≤ kbytes)
    × (kbytes ≤ max 8192 (1048576 / 512))
fetch_consumer_config_queue_example = fetch_consumer_config_queue none none cluster 1048576

configs_keep_cluster_example :
    let fetch = fetch_consumer_config none none cluster 1000 in
    let publish = publish_config none none cluster 1000 0 in
    (get fetch "allow.auto.create.topics" ≡ some "false")
    × (get publish "allow.auto.create.topics" ≡ some "false")
    × (get fetch "enable.auto.commit" ≡ some "false")
    × (get fetch "enable.partition.eof" ≡ some "true")
    × (get publish "acks" ≡ some "all")
    × (get publish "message.timeout.ms" ≡ some (to_string (max 0 1)))
    × ((key : String) → get fetch key ≡ value (fetch_table none none cluster 1000) key)
    × ((key : String) → get publish key ≡ value (publish_table none none cluster 1000 0) key)
configs_keep_cluster_example = configs_keep_cluster none none cluster 1000 0
