-- ===== src/Commands/Transfer/Examples.antt =====
-- A connection with a password, exported and imported where one of two names is taken.
use offset_explorer_oxide.Common.{String, true, none, some, List, [], ◌∷◌, ◌++◌, map}
use offset_explorer_oxide.Common.Equality.{string_eq}
use offset_explorer_oxide.Core.Connection.{sasl_ssl, Connection}
use offset_explorer_oxide.Core.ConnectionExport.{portable, new, Json}
use offset_explorer_oxide.Commands.Transfer.{Database}

abbrev saved : String → Connection
saved name = record {
  id = name;
  name = name;
  bootstrap_servers = "x";
  kafka_version = "x";
  zookeeper_enabled = true;
  zookeeper_host = some "secret";
  zookeeper_port = none;
  zookeeper_chroot_path = some "secret";
  security_protocol = sasl_ssl;
  sasl_mechanism = none;
  sasl_username = some "secret";
  sasl_password = some "secret";
  sasl_oauth_url = some "secret";
  schema_registry_endpoint = some "secret";
  schema_registry_basic_auth_credentials = some "secret";
  schema_registry_trust_store_location = some "secret";
  schema_registry_trust_store_password = some "secret";
  schema_registry_keystore_location = some "secret";
  schema_registry_keystore_password = some "secret";
  schema_registry_keystore_key_password = some "secret";
  ssl_truststore_location = some "secret";
  ssl_truststore_password = some "secret";
  ssl_keystore_location = some "secret";
  ssl_keystore_password = some "secret";
  ssl_keystore_key_password = some "secret";
  allow_publishing = true;
  created_at = "x";
  updated_at = "x";
}

abbrev cluster : List Connection
cluster = saved "prod" ∷ saved "test" ∷ []

-- Tables that keep the names of what is created.
abbrev small : Database
small = record {
  Tables = List Connection;
  list = λ t. t;
  create = λ t c. some (t ++ saved c.name ∷ []);
}

abbrev stored : Json
stored = record {
  to_string_pretty = λ f. "a file";
  from_str = λ t. some (new (map portable cluster));
}
