-- ===== src/Core/ConnectionExport.antt =====
-- backend/core/src/connection_export.rs: files of connections. serde_json is a parameter: how a file
-- is written, and what a text is read as (both spellings of the version's key included).
use offset_explorer_oxide.Common.{
  ℕ, suc, String, Bool, false, ◌||◌, Option, none, some, ◌⊎◌, inl, inr, List, [], ◌∷◌, ◌==◌,
  if◌then◌else◌, map, keep_if,
}
use offset_explorer_oxide.Common.Int.{ℤ}
use offset_explorer_oxide.Common.Equality.{◌==◌ as ◌=s=◌, string_eq}
use offset_explorer_oxide.Core.Connection.{
  SecurityProtocol, SaslMechanism, Connection, NewConnection,
}

abbrev pub current_export_version : ℕ
current_export_version = 1

pub record PortableConnection : Type 0 where
  pub name : String
  pub bootstrap_servers : String
  pub kafka_version : String
  pub zookeeper_enabled : Bool
  pub zookeeper_host : Option String
  pub zookeeper_port : Option ℤ
  pub zookeeper_chroot_path : Option String
  pub security_protocol : SecurityProtocol
  pub sasl_mechanism : Option SaslMechanism
  pub sasl_username : Option String
  pub sasl_oauth_url : Option String
  pub schema_registry_endpoint : Option String
  pub schema_registry_trust_store_location : Option String
  pub schema_registry_keystore_location : Option String
  pub ssl_truststore_location : Option String
  pub ssl_keystore_location : Option String

abbrev pub portable : Connection → PortableConnection
portable c = record {
  name = c.name;
  bootstrap_servers = c.bootstrap_servers;
  kafka_version = c.kafka_version;
  zookeeper_enabled = c.zookeeper_enabled;
  zookeeper_host = c.zookeeper_host;
  zookeeper_port = c.zookeeper_port;
  zookeeper_chroot_path = c.zookeeper_chroot_path;
  security_protocol = c.security_protocol;
  sasl_mechanism = c.sasl_mechanism;
  sasl_username = c.sasl_username;
  sasl_oauth_url = c.sasl_oauth_url;
  schema_registry_endpoint = c.schema_registry_endpoint;
  schema_registry_trust_store_location = c.schema_registry_trust_store_location;
  schema_registry_keystore_location = c.schema_registry_keystore_location;
  ssl_truststore_location = c.ssl_truststore_location;
  ssl_keystore_location = c.ssl_keystore_location;
}

abbrev pub new_connection : PortableConnection → NewConnection
new_connection p = record {
  name = p.name;
  bootstrap_servers = p.bootstrap_servers;
  kafka_version = p.kafka_version;
  zookeeper_enabled = p.zookeeper_enabled;
  zookeeper_host = p.zookeeper_host;
  zookeeper_port = p.zookeeper_port;
  zookeeper_chroot_path = p.zookeeper_chroot_path;
  security_protocol = p.security_protocol;
  sasl_mechanism = p.sasl_mechanism;
  sasl_username = p.sasl_username;
  sasl_password = none;
  sasl_oauth_url = p.sasl_oauth_url;
  schema_registry_endpoint = p.schema_registry_endpoint;
  schema_registry_basic_auth_credentials = none;
  schema_registry_trust_store_location = p.schema_registry_trust_store_location;
  schema_registry_trust_store_password = none;
  schema_registry_keystore_location = p.schema_registry_keystore_location;
  schema_registry_keystore_password = none;
  schema_registry_keystore_key_password = none;
  ssl_truststore_location = p.ssl_truststore_location;
  ssl_truststore_password = none;
  ssl_keystore_location = p.ssl_keystore_location;
  ssl_keystore_password = none;
  ssl_keystore_key_password = none;
  allow_publishing = false;
}

pub record ConnectionExportFile : Type 0 where
  pub salty_connections_version : ℕ
  pub connections : List PortableConnection

abbrev pub new : List PortableConnection → ConnectionExportFile
new connections = record {
  salty_connections_version = current_export_version;
  connections = connections;
}

pub record Json : Type 0 where
  pub to_string_pretty : ConnectionExportFile → String
  pub from_str : String → Option ConnectionExportFile

pub data ParseError : Type 0 where
  not_an_export_file : ParseError
  unsupported_version : ℕ → ParseError

abbrev pub check_version : Option ConnectionExportFile → ParseError ⊎ ConnectionExportFile
check_version none = inl not_an_export_file
check_version (some file) =
    if file.salty_connections_version == current_export_version
    then inr file
    else inl (unsupported_version file.salty_connections_version)

unfoldable pub parse : Json → String → ParseError ⊎ ConnectionExportFile
parse json text = check_version (json.from_str text)

unfoldable pub contains : List String → String → Bool
contains [] name = false
contains (x ∷ xs) name = (x =s= name) || contains xs name

unfoldable pub select_for_export : List Connection → Option (List String) → List PortableConnection
unfolding contains
select_for_export all none = map portable all
select_for_export all (some ids) = map portable (keep_if (λ c. contains ids c.id) all)

-- The entries to create and the count of the others.
unfoldable pub partition_importable :
    List PortableConnection → List String → List PortableConnection × ℕ
unfolding contains
partition_importable [] existing_names = ([], 0)
partition_importable (entry ∷ entries) existing_names =
    let rest = partition_importable entries existing_names in
    if contains existing_names entry.name then (rest.0, suc rest.1) else (entry ∷ rest.0, rest.1)
