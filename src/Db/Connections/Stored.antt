-- ===== src/Db/Connections/Stored.antt =====
-- The table against a map from ids to connections.
use offset_explorer_oxide.Common.{String, ◌≡◌, refl, ap, Option, none, some, ◌⊎◌, inl, inr, arith}
use offset_explorer_oxide.Common.Equality.{string_eq}
use offset_explorer_oxide.Core.Errors.{AppError, ◌>>=◌}
use offset_explorer_oxide.Core.Connection.{
  SecurityProtocol, plaintext, ssl, sasl_plaintext, sasl_ssl, SaslMechanism, plain, scram_sha_256,
  scram_sha_512, protocol_text, protocol_from_str, mechanism_text, mechanism_from_str, Connection,
  NewConnection,
}
use offset_explorer_oxide.Db.Connections.{
  ConnectionRow, row_id, map_mechanism, or_db, read_mechanism, into_connection, new_row, edited_row,
}

-- The connection that the submitted one becomes.
abbrev pub saved : String → String → String → NewConnection → Connection
saved id created_at now new_conn = record {
  id = id;
  name = new_conn.name;
  bootstrap_servers = new_conn.bootstrap_servers;
  kafka_version = new_conn.kafka_version;
  zookeeper_enabled = new_conn.zookeeper_enabled;
  zookeeper_host = new_conn.zookeeper_host;
  zookeeper_port = new_conn.zookeeper_port;
  zookeeper_chroot_path = new_conn.zookeeper_chroot_path;
  security_protocol = new_conn.security_protocol;
  sasl_mechanism = new_conn.sasl_mechanism;
  sasl_username = new_conn.sasl_username;
  sasl_password = new_conn.sasl_password;
  sasl_oauth_url = new_conn.sasl_oauth_url;
  schema_registry_endpoint = new_conn.schema_registry_endpoint;
  schema_registry_basic_auth_credentials = new_conn.schema_registry_basic_auth_credentials;
  schema_registry_trust_store_location = new_conn.schema_registry_trust_store_location;
  schema_registry_trust_store_password = new_conn.schema_registry_trust_store_password;
  schema_registry_keystore_location = new_conn.schema_registry_keystore_location;
  schema_registry_keystore_password = new_conn.schema_registry_keystore_password;
  schema_registry_keystore_key_password = new_conn.schema_registry_keystore_key_password;
  ssl_truststore_location = new_conn.ssl_truststore_location;
  ssl_truststore_password = new_conn.ssl_truststore_password;
  ssl_keystore_location = new_conn.ssl_keystore_location;
  ssl_keystore_password = new_conn.ssl_keystore_password;
  ssl_keystore_key_password = new_conn.ssl_keystore_key_password;
  allow_publishing = new_conn.allow_publishing;
  created_at = created_at;
  updated_at = now;
}

protocol_reads : (p : SecurityProtocol) → protocol_from_str (protocol_text p) ≡ some p
unfolding protocol_from_str protocol_text
protocol_reads plaintext = refl
protocol_reads ssl = refl
protocol_reads sasl_plaintext = refl
protocol_reads sasl_ssl = refl

mechanism_reads : (m : Option SaslMechanism) → read_mechanism (map_mechanism m) ≡ inr m
unfolding mechanism_from_str mechanism_text
mechanism_reads none = refl
mechanism_reads (some plain) = refl
mechanism_reads (some scram_sha_256) = refl
mechanism_reads (some scram_sha_512) = refl

pub read_new :
    (id now : String) (new_conn : NewConnection)
    → into_connection (new_row id now new_conn) ≡ inr (saved id now now new_conn)
unfolding into_connection new_row
read_new id now new_conn =
    rw (protocol_reads new_conn.security_protocol, mechanism_reads new_conn.sasl_mechanism) refl

pub read_edited :
    (now : String) (new_conn : NewConnection) (row : ConnectionRow)
    → into_connection (edited_row now new_conn row) ≡ inr (saved row.id row.created_at now new_conn)
unfolding into_connection edited_row
read_edited now new_conn row =
    rw (protocol_reads new_conn.security_protocol, mechanism_reads new_conn.sasl_mechanism) refl

>>=_read {ℓ κ} :
    {A : Type ℓ} {B : Type κ} (o : AppError ⊎ A) (f : A → AppError ⊎ B) (b : B)
    → (o >>= f) ≡ inr b
    → (a : A) × (o ≡ inr a) × (f a ≡ inr b)
>>=_read (inl e) f b h = ground (arith, h)
>>=_read (inr a) f b h = (a, refl, h)

abbrev id_of : AppError ⊎ Connection → String
id_of (inl e) = ""
id_of (inr c) = c.id

abbrev created_of : AppError ⊎ Connection → String
created_of (inl e) = ""
created_of (inr c) = c.created_at

-- A row that can be read keeps its id and the time of its creation.
pub read_keeps :
    (row : ConnectionRow) (c : Connection)
    → into_connection row ≡ inr c
    → (row.id ≡ c.id) × (row.created_at ≡ c.created_at)
unfolding into_connection
read_keeps row c h =
    let (p, read_p, h') = >>=_read (or_db (protocol_from_str row.security_protocol)) _ c h in
    let (m, read_m, h'') = >>=_read (read_mechanism row.sasl_mechanism) _ c h' in
    (ap id_of h'', ap created_of h'')
