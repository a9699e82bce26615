-- ===== src/Kafka/Config/Settings.antt =====
-- The configurations against tables of their properties.
use offset_explorer_oxide.Common.{
  String, Bool, true, false, Option, none, some, List, [], ◌∷◌, if◌then◌else◌, ◌≡◌, refl, sym, ap,
  ◌∙◌, inl, inr, Bool-cases,
}
use offset_explorer_oxide.Common.Dict.{lookup, lookup-insert, lookup-nil}
use offset_explorer_oxide.Common.Equality.{◌==◌, string_eq}
use offset_explorer_oxide.Core.Connection.{SaslMechanism, mechanism_text, Connection}
use offset_explorer_oxide.Kafka.Config.{
  ClientConfig, set, set_some, client_id, protocol_lowercase, is_tls,
  apply_connection_attempt_limits, apply_connection_footprint_limits, set_sasl, set_authorities,
  build_client_config, client_config,
}

-- `ClientConfig::get`
abbrev pub get : ClientConfig → String → Option String
get config key = lookup key config

abbrev pub Table : Type 0
Table = List (String × Option String)

-- What a table says of a property, nothing of one that it does not name.
abbrev pub value : Table → String → Option String
value [] j = none
value ((k, o) ∷ table) j = if k == j then o else value table j

pub record Says (config : ClientConfig) (table : Table) : Type 0 where
  pub says : (j : String) → get config j ≡ value table j

nil-Says : Says [] []
nil-Says = record { says = lookup-nil }

pub set-Says :
    (k v : String) (config : ClientConfig) (table : Table)
    → Says config table
    → Says (set k v config) ((k, some v) ∷ table)
unfolding set
set-Says k v config table h = record {
  says = λ j. lookup-insert k j v config ∙ ap (λ o. if k == j then some v else o) (h.says j);
}

-- A property that is not set, named in the table.
none-Says :
    (k : String) (config : ClientConfig) (table : Table)
    → Says config table
    → value table k ≡ none
    → Says config ((k, none) ∷ table)
none-Says k config table h absent = record {
  says = λ j. elim (Bool-cases (k == j)) [
    | inl e ↦ rw e (h.says j ∙ ap (value table) (sym ((string_eq.agrees k j).0 e)) ∙ absent)
    | inr e ↦ rw e (h.says j)
  ];
}

set_some-Says :
    (k : String) (o : Option String) (config : ClientConfig) (table : Table)
    → Says config table
    → value table k ≡ none
    → Says (set_some k o config) ((k, o) ∷ table)
unfolding set_some
set_some-Says k none config table h absent = none-Says k config table h absent
set_some-Says k (some v) config table h absent = set-Says k v config table h

-- A setting that is there with a mechanism only.
abbrev pub with_mechanism {ℓ} : {A : Type ℓ} → Option SaslMechanism → Option A → Option A
with_mechanism none o = none
with_mechanism (some m) o = o

abbrev pub mechanism_name : Option SaslMechanism → Option String
mechanism_name none = none
mechanism_name (some m) = some (mechanism_text m)

-- The certificates of the operating system, over TLS and without a truststore of the user's.
abbrev pub system_authorities : Option String → Bool → Option String → Option String
system_authorities (some location) tls bundle = none
system_authorities none true bundle = bundle
system_authorities none false bundle = none

set_sasl-Says :
    (m : Option SaslMechanism) (user password : Option String) (config : ClientConfig)
    (table : Table)
    → Says config table
    → (value table "sasl.mechanism" ≡ none)
      × (value table "sasl.username" ≡ none)
      × (value table "sasl.password" ≡ none)
    → Says (set_sasl m user password config) (
        ("sasl.password", with_mechanism m password)
        ∷ ("sasl.username", with_mechanism m user)
        ∷ ("sasl.mechanism", mechanism_name m)
        ∷ table)
unfolding set_sasl
set_sasl-Says none user password config table h (no_mechanism, no_user, no_password) =
    none-Says "sasl.password" config _
      (none-Says "sasl.username" config _ (none-Says "sasl.mechanism" config table h no_mechanism)
        no_user)
      no_password
set_sasl-Says (some m) user password config table h (no_mechanism, no_user, no_password) =
    set_some-Says "sasl.password" password _ _
      (set_some-Says "sasl.username" user _ _
        (set-Says "sasl.mechanism" (mechanism_text m) config table h) no_user)
      no_password

set_authorities-Says :
    (location bundle : Option String) (tls : Bool) (config : ClientConfig) (table : Table)
    → Says config table
    → (value table "ssl.ca.location" ≡ none) × (value table "ssl.ca.pem" ≡ none)
    → Says (set_authorities location tls bundle config) (
        ("ssl.ca.location", location)
        ∷ ("ssl.ca.pem", system_authorities location tls bundle)
        ∷ table)
unfolding set_authorities
set_authorities-Says (some location) bundle tls config table h (no_location, no_pem) =
    set-Says "ssl.ca.location" location config _ (none-Says "ssl.ca.pem" config table h no_pem)
set_authorities-Says none bundle true config table h (no_location, no_pem) =
    none-Says "ssl.ca.location" _ _ (set_some-Says "ssl.ca.pem" bundle config table h no_pem)
      no_location
set_authorities-Says none bundle false config table h (no_location, no_pem) =
    none-Says "ssl.ca.location" _ _ (none-Says "ssl.ca.pem" config table h no_pem) no_location

module _ (app_client_id bundle : Option String) (c : Connection) where
  -- The properties that every client of a saved connection is configured with.
  abbrev pub client_table : Table
  client_table =
      ("ssl.key.password", c.ssl_keystore_key_password)
      ∷ ("ssl.keystore.password", c.ssl_keystore_password)
      ∷ ("ssl.keystore.location", c.ssl_keystore_location)
      ∷ ("ssl.ca.location", c.ssl_truststore_location)
      ∷ (
        "ssl.ca.pem",
        system_authorities c.ssl_truststore_location (is_tls c.security_protocol) bundle,
      )
      ∷ ("sasl.password", with_mechanism c.sasl_mechanism c.sasl_password)
      ∷ ("sasl.username", with_mechanism c.sasl_mechanism c.sasl_username)
      ∷ ("sasl.mechanism", mechanism_name c.sasl_mechanism)
      ∷ ("allow.auto.create.topics", some "false")
      ∷ ("enable.sparse.connections", some "true")
      ∷ ("socket.connection.setup.timeout.ms", some "5000")
      ∷ ("reconnect.backoff.max.ms", some "30000")
      ∷ ("reconnect.backoff.ms", some "1000")
      ∷ ("client.id", some (client_id app_client_id))
      ∷ ("security.protocol", some (protocol_lowercase c.security_protocol))
      ∷ ("bootstrap.servers", some c.bootstrap_servers)
      ∷ []

  pub client_config-Says : Says (client_config app_client_id bundle c) client_table
  unfolding client_config build_client_config apply_connection_attempt_limits
      apply_connection_footprint_limits
  client_config-Says =
      let servers = set-Says "bootstrap.servers" c.bootstrap_servers [] [] nil-Says in
      let protocol =
        set-Says "security.protocol" (protocol_lowercase c.security_protocol) _ _ servers in
      let named = set-Says "client.id" (client_id app_client_id) _ _ protocol in
      let backoff = set-Says "reconnect.backoff.ms" "1000" _ _ named in
      let most = set-Says "reconnect.backoff.max.ms" "30000" _ _ backoff in
      let setup = set-Says "socket.connection.setup.timeout.ms" "5000" _ _ most in
      let sparse = set-Says "enable.sparse.connections" "true" _ _ setup in
      let created = set-Says "allow.auto.create.topics" "false" _ _ sparse in
      let sasl =
        set_sasl-Says c.sasl_mechanism c.sasl_username c.sasl_password _ _ created
          (refl, refl, refl) in
      let ca =
        set_authorities-Says c.ssl_truststore_location bundle (is_tls c.security_protocol) _ _ sasl
          (refl, refl) in
      let location = set_some-Says "ssl.keystore.location" c.ssl_keystore_location _ _ ca refl in
      let password =
        set_some-Says "ssl.keystore.password" c.ssl_keystore_password _ _ location refl in
      set_some-Says "ssl.key.password" c.ssl_keystore_key_password _ _ password refl
