-- ===== src/Db/Connections.antt =====
-- backend/db/src/connections.rs: the table of saved connections. The engine is taken to carry out
-- each statement, but for an insert of a key that is there; the fresh id and the time of a call are
-- its arguments, and so is the order of two times as texts.
pub mod Stored
pub mod Promise
pub mod Holds
pub mod Refines
pub mod Listed
mod Examples
use offset_explorer_oxide.Common.{
  String, Bool, true, false, Option, none, some, ◌⊎◌, inl, inr, List, [], ◌∷◌, if◌then◌else◌,
  ◌==◌ as eqb,
}
use offset_explorer_oxide.Common.Int.{ℤ}
use offset_explorer_oxide.Common.Equality.{◌==◌, string_eq}
use offset_explorer_oxide.Core.Errors.{AppError, db, not_found, ◌>>=◌}
use offset_explorer_oxide.Core.Connection.{
  SaslMechanism, protocol_text, protocol_from_str, mechanism_text, mechanism_from_str, Connection,
  NewConnection,
}
use offset_explorer_oxide.Db.Table.{Keyed, select, select_ordered, insert, update_rows, delete_rows}

pub record ConnectionRow : Type 0 where
  pub id : String
  pub name : String
  pub bootstrap_servers : String
  pub kafka_version : String
  pub zookeeper_enabled : Bool
  pub zookeeper_host : Option String
  pub zookeeper_port : Option ℤ
  pub zookeeper_chroot_path : Option String
  pub security_protocol : String
  pub sasl_mechanism : Option String
  pub sasl_username : Option String
  pub sasl_password : Option String
  pub sasl_oauth_url : Option String
  pub schema_registry_endpoint : Option String
  pub schema_registry_basic_auth_credentials : Option String
  pub schema_registry_trust_store_location : Option String
  pub schema_registry_trust_store_password : Option String
  pub schema_registry_keystore_location : Option String
  pub schema_registry_keystore_password : Option String
  pub schema_registry_keystore_key_password : Option String
  pub ssl_truststore_location : Option String
  pub ssl_truststore_password : Option String
  pub ssl_keystore_location : Option String
  pub ssl_keystore_password : Option String
  pub ssl_keystore_key_password : Option String
  pub allow_publishing : Bool
  pub created_at : String
  pub updated_at : String

instance abbrev pub row_id : Keyed ConnectionRow
row_id = record { key = λ row. row.id }

-- `Option::map` of a mechanism to its text, and the reading of one with `transpose`.
abbrev pub map_mechanism : Option SaslMechanism → Option String
map_mechanism none = none
map_mechanism (some m) = some (mechanism_text m)

abbrev pub or_db {ℓ} : {A : Type ℓ} → Option A → AppError ⊎ A
or_db none = inl db
or_db (some a) = inr a

abbrev pub read_mechanism : Option String → AppError ⊎ Option SaslMechanism
read_mechanism none = inr none
read_mechanism (some text) = do mechanism ← or_db (mechanism_from_str text); inr (some mechanism)

unfoldable pub into_connection : ConnectionRow → AppError ⊎ Connection
unfolding protocol_from_str mechanism_from_str
into_connection row = do
  security_protocol ← or_db (protocol_from_str row.security_protocol)
  sasl_mechanism ← read_mechanism row.sasl_mechanism
  inr (record {
    id = row.id;
    name = row.name;
    bootstrap_servers = row.bootstrap_servers;
    kafka_version = row.kafka_version;
    zookeeper_enabled = row.zookeeper_enabled;
    zookeeper_host = row.zookeeper_host;
    zookeeper_port = row.zookeeper_port;
    zookeeper_chroot_path = row.zookeeper_chroot_path;
    security_protocol = security_protocol;
    sasl_mechanism = sasl_mechanism;
    sasl_username = row.sasl_username;
    sasl_password = row.sasl_password;
    sasl_oauth_url = row.sasl_oauth_url;
    schema_registry_endpoint = row.schema_registry_endpoint;
    schema_registry_basic_auth_credentials = row.schema_registry_basic_auth_credentials;
    schema_registry_trust_store_location = row.schema_registry_trust_store_location;
    schema_registry_trust_store_password = row.schema_registry_trust_store_password;
    schema_registry_keystore_location = row.schema_registry_keystore_location;
    schema_registry_keystore_password = row.schema_registry_keystore_password;
    schema_registry_keystore_key_password = row.schema_registry_keystore_key_password;
    ssl_truststore_location = row.ssl_truststore_location;
    ssl_truststore_password = row.ssl_truststore_password;
    ssl_keystore_location = row.ssl_keystore_location;
    ssl_keystore_password = row.ssl_keystore_password;
    ssl_keystore_key_password = row.ssl_keystore_key_password;
    allow_publishing = row.allow_publishing;
    created_at = row.created_at;
    updated_at = row.updated_at;
  })

-- The row that an insert writes, and that an update makes of one that is there.
unfoldable pub new_row : String → String → NewConnection → ConnectionRow
unfolding protocol_text mechanism_text
new_row id now new_conn = record {
  id = id;
  name = new_conn.name;
  bootstrap_servers = new_conn.bootstrap_servers;
  kafka_version = new_conn.kafka_version;
  zookeeper_enabled = new_conn.zookeeper_enabled;
  zookeeper_host = new_conn.zookeeper_host;
  zookeeper_port = new_conn.zookeeper_port;
  zookeeper_chroot_path = new_conn.zookeeper_chroot_path;
  security_protocol = protocol_text new_conn.security_protocol;
  sasl_mechanism = map_mechanism new_conn.sasl_mechanism;
  sasl_username = new_conn.sasl_username;
  sasl_password = new_conn.sasl_password;
  sasl_oauth_url = new_conn.sasl_oauth_url;
  schema_registry_endpoint = new_conn.schema_registry_endpoint;
  schema_registry_basic_auth_credentials = new_conn.schema_registry_basic_auth_credentials;
  schema_registry_trust_store_location = new_conn.schema_registry_trust_store_location;
  schema_registry_trust_store_password = new_conn.schema_registry_trust_store_password;
  schema_registry_keystore_location = new_conn.schema_registry_keystore_location;
  schema_registry_keystore_password = new_conn.schema_registry_keystore_password;
  schema_registry_keystore_key_password = new_conn.schema_registry_keystore_key_password;
  ssl_truststore_location = new_conn.ssl_truststore_location;
  ssl_truststore_password = new_conn.ssl_truststore_password;
  ssl_keystore_location = new_conn.ssl_keystore_location;
  ssl_keystore_password = new_conn.ssl_keystore_password;
  ssl_keystore_key_password = new_conn.ssl_keystore_key_password;
  allow_publishing = new_conn.allow_publishing;
  created_at = now;
  updated_at = now;
}

unfoldable pub edited_row : String → NewConnection → ConnectionRow → ConnectionRow
unfolding protocol_text mechanism_text
edited_row now new_conn row = record {
  id = row.id;
  name = new_conn.name;
  bootstrap_servers = new_conn.bootstrap_servers;
  kafka_version = new_conn.kafka_version;
  zookeeper_enabled = new_conn.zookeeper_enabled;
  zookeeper_host = new_conn.zookeeper_host;
  zookeeper_port = new_conn.zookeeper_port;
  zookeeper_chroot_path = new_conn.zookeeper_chroot_path;
  security_protocol = protocol_text new_conn.security_protocol;
  sasl_mechanism = map_mechanism new_conn.sasl_mechanism;
  sasl_username = new_conn.sasl_username;
  sasl_password = new_conn.sasl_password;
  sasl_oauth_url = new_conn.sasl_oauth_url;
  schema_registry_endpoint = new_conn.schema_registry_endpoint;
  schema_registry_basic_auth_credentials = new_conn.schema_registry_basic_auth_credentials;
  schema_registry_trust_store_location = new_conn.schema_registry_trust_store_location;
  schema_registry_trust_store_password = new_conn.schema_registry_trust_store_password;
  schema_registry_keystore_location = new_conn.schema_registry_keystore_location;
  schema_registry_keystore_password = new_conn.schema_registry_keystore_password;
  schema_registry_keystore_key_password = new_conn.schema_registry_keystore_key_password;
  ssl_truststore_location = new_conn.ssl_truststore_location;
  ssl_truststore_password = new_conn.ssl_truststore_password;
  ssl_keystore_location = new_conn.ssl_keystore_location;
  ssl_keystore_password = new_conn.ssl_keystore_password;
  ssl_keystore_key_password = new_conn.ssl_keystore_key_password;
  allow_publishing = new_conn.allow_publishing;
  created_at = row.created_at;
  updated_at = now;
}

abbrev pub found : Option ConnectionRow → AppError ⊎ Connection
unfolding into_connection
found none = inl not_found
found (some row) = into_connection row

unfoldable pub get : List ConnectionRow → String → AppError ⊎ Connection
unfolding into_connection select
get table id = found (select id table)

abbrev pub inserted :
    List ConnectionRow
    → String
    → Option (List ConnectionRow)
    → List ConnectionRow × (AppError ⊎ Connection)
inserted table id none = (table, inl db)
inserted table id (some table') = (table', get table' id)

unfoldable pub create :
    List ConnectionRow
    → String
    → String
    → NewConnection
    → List ConnectionRow × (AppError ⊎ Connection)
unfolding new_row insert get
create table id now new_conn = inserted table id (insert (new_row id now new_conn) table)

-- `collect` into a result: the first row that cannot be read is the answer.
unfoldable pub read_all : List ConnectionRow → AppError ⊎ List Connection
unfolding into_connection
read_all [] = inr []
read_all (row ∷ rows) = do
  connection ← into_connection row
  others ← read_all rows
  inr (connection ∷ others)

-- `before` tells whether one time comes strictly before another.
unfoldable pub list : (String → String → Bool) → List ConnectionRow → AppError ⊎ List Connection
unfolding select_ordered read_all
list before table = read_all (select_ordered (λ r s. before r.created_at s.created_at) table)

unfoldable pub update :
    List ConnectionRow
    → String
    → String
    → NewConnection
    → List ConnectionRow × (AppError ⊎ Connection)
unfolding edited_row update_rows get
update table id now new_conn =
    let (table', rows_affected) = update_rows id (edited_row now new_conn) table in
    if eqb rows_affected 0 then (table', inl not_found) else (table', get table' id)

unfoldable pub delete : List ConnectionRow → String → List ConnectionRow × (AppError ⊎ Unit {0})
unfolding delete_rows
delete table id =
    let (table', rows_affected) = delete_rows id table in
    if eqb rows_affected 0 then (table', inl not_found) else (table', inr tt)
