-- ===== src/Db/Connections/Examples.antt =====
-- Two connections, one of them edited, and their list.
use offset_explorer_oxide.Common.{String, Bool, true, none, some, List, [], ◌∷◌, ◌≡◌}
use text.Mathlib.Text.{is_lt}
use Prim.Native.String.{compare}
use offset_explorer_oxide.Core.Connection.{sasl_ssl, scram_sha_256, NewConnection}
use offset_explorer_oxide.Db.Connections.{row_id}
use offset_explorer_oxide.Db.Connections.Promise.{
  Call, creating, updating, deleting, getting, run_all, promised_all,
}
use offset_explorer_oxide.Db.Connections.Refines.{run_all-promised_all}

abbrev prod : NewConnection
prod = record {
  name = "prod";
  bootstrap_servers = "x";
  kafka_version = "x";
  zookeeper_enabled = true;
  zookeeper_host = none;
  zookeeper_port = none;
  zookeeper_chroot_path = none;
  security_protocol = sasl_ssl;
  sasl_mechanism = some scram_sha_256;
  sasl_username = none;
  sasl_password = none;
  sasl_oauth_url = none;
  schema_registry_endpoint = none;
  schema_registry_basic_auth_credentials = none;
  schema_registry_trust_store_location = none;
  schema_registry_trust_store_password = none;
  schema_registry_keystore_location = none;
  schema_registry_keystore_password = none;
  schema_registry_keystore_key_password = none;
  ssl_truststore_location = none;
  ssl_truststore_password = none;
  ssl_keystore_location = none;
  ssl_keystore_password = none;
  ssl_keystore_key_password = none;
  allow_publishing = true;
}

abbrev test : NewConnection
test = record {
  name = "test";
  bootstrap_servers = "x";
  kafka_version = "x";
  zookeeper_enabled = true;
  zookeeper_host = none;
  zookeeper_port = none;
  zookeeper_chroot_path = none;
  security_protocol = sasl_ssl;
  sasl_mechanism = some scram_sha_256;
  sasl_username = none;
  sasl_password = none;
  sasl_oauth_url = none;
  schema_registry_endpoint = none;
  schema_registry_basic_auth_credentials = none;
  schema_registry_trust_store_location = none;
  schema_registry_trust_store_password = none;
  schema_registry_keystore_location = none;
  schema_registry_keystore_password = none;
  schema_registry_keystore_key_password = none;
  ssl_truststore_location = none;
  ssl_truststore_password = none;
  ssl_keystore_location = none;
  ssl_keystore_password = none;
  ssl_keystore_key_password = none;
  allow_publishing = true;
}

abbrev history : List Call
history =
    creating "1" "2024" prod
    ∷ creating "1" "2025" test
    ∷ updating "1" "2026" test
    ∷ getting "1"
    ∷ deleting "2"
    ∷ []

run_all-promised_all_example : run_all history [] ≡ promised_all history (λ j. none)
run_all-promised_all_example = run_all-promised_all history

abbrev earlier : String → String → Bool
earlier a b = is_lt (compare a b)
