-- ===== src/Kafka/Config.antt =====
-- backend/kafka/src/config.rs: the configurations of the Kafka clients, as maps from property names
-- to texts. The client id and the certificates of the operating system, which the source keeps in
-- cells that are set once, are arguments: `bundle` is none when no certificate could be loaded.
pub mod Settings
pub mod Limits
pub mod Examples
use offset_explorer_oxide.Common.{
  ℕ, ◌+◌, ◌*◌, ◌/◌, max, String, Bool, true, false, Option, none, some, List, [], ◌∷◌,
  if◌then◌else◌, unwrap_or,
}
use Prim.Native.String.{◌++◌ as concat_texts}
use offset_explorer_oxide.Common.Digits.{to_string}
use offset_explorer_oxide.Common.Dict.{insert}
use offset_explorer_oxide.Common.Equality.{string_eq}
use offset_explorer_oxide.Core.Connection.{
  SecurityProtocol, plaintext, ssl, sasl_plaintext, sasl_ssl, SaslMechanism, mechanism_text,
  Connection,
}

abbrev pub ClientConfig : Type 0
ClientConfig = List (String × String)

-- `ClientConfig::set`, and a `set` of what is there.
unfoldable pub set : String → String → ClientConfig → ClientConfig
set key value config = insert key value config

unfoldable pub set_some : String → Option String → ClientConfig → ClientConfig
unfolding set
set_some key none config = config
set_some key (some value) config = set key value config

-- `set_app_version` fills a cell once, "salty" followed by "/" and the version.
unfoldable pub set_app_version : Option String → String → Option String
set_app_version none version = some (concat_texts "salty/" version)
set_app_version (some id) version = some id

unfoldable pub client_id : Option String → String
client_id app_client_id = unwrap_or app_client_id "salty"

-- The protocol's text in lower case.
unfoldable pub protocol_lowercase : SecurityProtocol → String
protocol_lowercase plaintext = "plaintext"
protocol_lowercase ssl = "ssl"
protocol_lowercase sasl_plaintext = "sasl_plaintext"
protocol_lowercase sasl_ssl = "sasl_ssl"

unfoldable pub is_tls : SecurityProtocol → Bool
is_tls plaintext = false
is_tls ssl = true
is_tls sasl_plaintext = false
is_tls sasl_ssl = true

pub record BrokerSslConfig : Type 0 where
  pub truststore_location : Option String
  pub keystore_location : Option String
  pub keystore_password : Option String
  pub keystore_key_password : Option String

unfoldable pub apply_connection_attempt_limits : ClientConfig → ClientConfig
unfolding set
apply_connection_attempt_limits config =
    set "socket.connection.setup.timeout.ms" "5000"
      (set "reconnect.backoff.max.ms" "30000" (set "reconnect.backoff.ms" "1000" config))

unfoldable pub apply_connection_footprint_limits : ClientConfig → ClientConfig
unfolding set
apply_connection_footprint_limits config =
    set "allow.auto.create.topics" "false" (set "enable.sparse.connections" "true" config)

-- The user and the password are set only with a mechanism.
unfoldable pub set_sasl :
    Option SaslMechanism → Option String → Option String → ClientConfig → ClientConfig
unfolding set set_some mechanism_text
set_sasl none username password config = config
set_sasl (some mechanism) username password config =
    set_some "sasl.password" password
      (set_some "sasl.username" username (set "sasl.mechanism" (mechanism_text mechanism) config))

-- A truststore of the user's, else over TLS the certificates of the operating system.
unfoldable pub set_authorities : Option String → Bool → Option String → ClientConfig → ClientConfig
unfolding set set_some
set_authorities (some location) tls bundle config = set "ssl.ca.location" location config
set_authorities none true bundle config = set_some "ssl.ca.pem" bundle config
set_authorities none false bundle config = config

unfoldable pub build_client_config :
    Option String
    → Option String
    → String
    → SecurityProtocol
    → Option SaslMechanism
    → Option String
    → Option String
    → BrokerSslConfig
    → ClientConfig
unfolding set set_some client_id protocol_lowercase is_tls apply_connection_attempt_limits
    apply_connection_footprint_limits set_sasl set_authorities
build_client_config app_client_id bundle bootstrap_servers security_protocol sasl_mechanism
      sasl_username password ssl_config =
    let config = set "bootstrap.servers" bootstrap_servers [] in
    let config = set "security.protocol" (protocol_lowercase security_protocol) config in
    let config = set "client.id" (client_id app_client_id) config in
    let config = apply_connection_attempt_limits config in
    let config = apply_connection_footprint_limits config in
    let config = set_sasl sasl_mechanism sasl_username password config in
    let config =
      set_authorities ssl_config.truststore_location (is_tls security_protocol) bundle config in
    let config = set_some "ssl.keystore.location" ssl_config.keystore_location config in
    let config = set_some "ssl.keystore.password" ssl_config.keystore_password config in
    set_some "ssl.key.password" ssl_config.keystore_key_password config

unfoldable pub client_config : Option String → Option String → Connection → ClientConfig
unfolding build_client_config
client_config app_client_id bundle connection =
    build_client_config app_client_id bundle connection.bootstrap_servers
      connection.security_protocol connection.sasl_mechanism connection.sasl_username
      connection.sasl_password
      (record {
        truststore_location = connection.ssl_truststore_location;
        keystore_location = connection.ssl_keystore_location;
        keystore_password = connection.ssl_keystore_password;
        keystore_key_password = connection.ssl_keystore_key_password;
      })

-- Twice the largest message, in kilobytes, and 8 megabytes at least.
unfoldable pub prefetch_kbytes : ℕ → ℕ
prefetch_kbytes max_message_size_bytes = max (max_message_size_bytes * 2 / 1024) 8192

unfoldable pub fetch_consumer_config : Option String → Option String → Connection → ℕ → ClientConfig
unfolding client_config prefetch_kbytes
fetch_consumer_config app_client_id bundle connection max_message_size_bytes =
    let config = client_config app_client_id bundle connection in
    let config = set "group.id" "salty-message-browser" config in
    let config = set "enable.auto.commit" "false" config in
    let config = set "max.partition.fetch.bytes" (to_string max_message_size_bytes) config in
    let config =
      set "queued.max.messages.kbytes" (to_string (prefetch_kbytes max_message_size_bytes))
        config in
    let config = set "fetch.queue.backoff.ms" "10" config in
    let config = set "fetch.wait.max.ms" "50" config in set "enable.partition.eof" "true" config

-- The time to write is in milliseconds.
unfoldable pub publish_config : Option String → Option String → Connection → ℕ → ℕ → ClientConfig
unfolding client_config
publish_config app_client_id bundle connection max_message_size_bytes write_timeout =
    let config = client_config app_client_id bundle connection in
    let config = set "acks" "all" config in
    let config = set "enable.idempotence" "false" config in
    let config = set "message.max.bytes" (to_string max_message_size_bytes) config in
    let config = set "message.timeout.ms" (to_string (max write_timeout 1)) config in
    set "linger.ms" "0" config
