-- ===== src/Commands/Transfer/RoundTrip.antt =====
-- A file that one database exports, imported into another.
use offset_explorer_oxide.Common.{◌≡◌, false, none, some, ◌⊎◌, inl, inr, List, [], ◌∷◌, ◌++◌}
use offset_explorer_oxide.Common.Equality.{string_eq}
use offset_explorer_oxide.Core.Connection.{Connection, NewConnection}
use offset_explorer_oxide.Core.ConnectionExport.{Json}
use offset_explorer_oxide.Commands.Transfer.{Database, ImportError, not_created, ImportSummary}

-- A connection that can neither log in by itself nor publish.
pub record IsHarmless (c : NewConnection) : Type 0 where
  pub sasl_password : c.sasl_password ≡ none
  pub basic_auth : c.schema_registry_basic_auth_credentials ≡ none
  pub trust_store : c.schema_registry_trust_store_password ≡ none
  pub registry_keystore : c.schema_registry_keystore_password ≡ none
  pub registry_key : c.schema_registry_keystore_key_password ≡ none
  pub truststore : c.ssl_truststore_password ≡ none
  pub keystore : c.ssl_keystore_password ≡ none
  pub key : c.ssl_keystore_key_password ≡ none
  pub publishing : c.allow_publishing ≡ false

module _ (json : Json) (db : Database) where
  open db use {Tables, list, create}

  -- The entries are created in order, until one is not.
  abbrev pub Creates : List NewConnection → Tables → Tables → Type 0
  Creates [] tables tables' = tables' ≡ tables
  Creates (c ∷ cs) tables tables' =
      (between : Tables) × (create tables c ≡ some between) × Creates cs between tables'

  -- All are created and the summary is answered, or the first that cannot be ends the import, and
  -- those before it stay.
  abbrev pub Imported :
      List NewConnection → ImportSummary → Tables → Tables × (ImportError ⊎ ImportSummary) → Type 0
  Imported cs summary tables result =
      (Creates cs tables result.0 × (result.1 ≡ inr summary))
      ⊎ ((front : List NewConnection) × (c : NewConnection) × (back : List NewConnection) × (cs
            ≡ front ++ c ∷ back)
          × Creates front tables result.0
          × (create result.0 c ≡ none)
          × (result.1 ≡ inl not_created))
