-- ===== src/Core/Connection.antt =====
-- backend/core/src/connection.rs: saved connections, and those submitted by the form or an import.
use offset_explorer_oxide.Common.{String, Bool, Option, none, some, if◌then◌else◌}
use offset_explorer_oxide.Common.Equality.{◌==◌, string_eq}
use offset_explorer_oxide.Common.Int.{ℤ}

pub data SecurityProtocol : Type 0 where
  plaintext ssl sasl_plaintext sasl_ssl : SecurityProtocol

pub data SaslMechanism : Type 0 where
  plain scram_sha_256 scram_sha_512 : SaslMechanism

-- `Display` and `FromStr` of the two enumerations.
unfoldable pub protocol_text : SecurityProtocol → String
protocol_text plaintext = "PLAINTEXT"
protocol_text ssl = "SSL"
protocol_text sasl_plaintext = "SASL_PLAINTEXT"
protocol_text sasl_ssl = "SASL_SSL"

unfoldable pub protocol_from_str : String → Option SecurityProtocol
protocol_from_str text =
    if text == "PLAINTEXT"
    then some plaintext
    else if text == "SSL"
    then some ssl
    else if text == "SASL_PLAINTEXT"
    then some sasl_plaintext
    else if text == "SASL_SSL"
    then some sasl_ssl
    else none

unfoldable pub mechanism_text : SaslMechanism → String
mechanism_text plain = "PLAIN"
mechanism_text scram_sha_256 = "SCRAM-SHA-256"
mechanism_text scram_sha_512 = "SCRAM-SHA-512"

unfoldable pub mechanism_from_str : String → Option SaslMechanism
mechanism_from_str text =
    if text == "PLAIN"
    then some plain
    else if text == "SCRAM-SHA-256"
    then some scram_sha_256
    else if text == "SCRAM-SHA-512"
    then some scram_sha_512
    else none

pub record Connection : Type 0 where
  pub id : String
  pub name : String
  pub bootstrap_servers : String
  pub kafka_version : String
  pub zookeeper_enabled : Bool
  pub zookeeper_host : Option String
  pub zookeeper_port : Option ℤ
  pub zookeeper_chroot_path : Option String
  pub security_protocol : SecurityProtocol
  pub sasl_mechanism : Option SaslMechanism
  pub sasl_username : Option String
  pub sasl_password : Option String
  pub sasl_oauth_url : Option String
  pub schema_registry_endpoint : Option String
  pub schema_registry_basic_auth_credentials : Option String
  pub schema_registry_trust_store_location : Option String
  pub schema_registry_trust_store_password : Option String
  pub schema_registry_keystore_location : Option String
  pub schema_registry_keystore_password : Option String
  pub schema_registry_keystore_key_password : Option String
  pub ssl_truststore_location : Option String
  pub ssl_truststore_password : Option String
  pub ssl_keystore_location : Option String
  pub ssl_keystore_password : Option String
  pub ssl_keystore_key_password : Option String
  pub allow_publishing : Bool
  pub created_at : String
  pub updated_at : String

pub record NewConnection : Type 0 where
  pub name : String
  pub bootstrap_servers : String
  pub kafka_version : String
  pub zookeeper_enabled : Bool
  pub zookeeper_host : Option String
  pub zookeeper_port : Option ℤ
  pub zookeeper_chroot_path : Option String
  pub security_protocol : SecurityProtocol
  pub sasl_mechanism : Option SaslMechanism
  pub sasl_username : Option String
  pub sasl_password : Option String
  pub sasl_oauth_url : Option String
  pub schema_registry_endpoint : Option String
  pub schema_registry_basic_auth_credentials : Option String
  pub schema_registry_trust_store_location : Option String
  pub schema_registry_trust_store_password : Option String
  pub schema_registry_keystore_location : Option String
  pub schema_registry_keystore_password : Option String
  pub schema_registry_keystore_key_password : Option String
  pub ssl_truststore_location : Option String
  pub ssl_truststore_password : Option String
  pub ssl_keystore_location : Option String
  pub ssl_keystore_password : Option String
  pub ssl_keystore_key_password : Option String
  pub allow_publishing : Bool
