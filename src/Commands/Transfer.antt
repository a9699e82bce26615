-- ===== src/Commands/Transfer.antt =====
-- src-tauri/src/commands/connections.rs: the export of connections to a file and their import. The
-- database is a parameter, whose `create` may fail; reading and writing the file are left out.
mod RoundTrip
mod Examples
use offset_explorer_oxide.Common.{
  ℕ, String, Option, none, some, ◌⊎◌, inl, inr, List, [], ◌∷◌, length, map,
}
use offset_explorer_oxide.Core.Connection.{Connection, NewConnection}
use offset_explorer_oxide.Core.ConnectionExport.{
  PortableConnection, new_connection, ConnectionExportFile, new, Json, ParseError, parse,
  select_for_export, partition_importable,
}

pub record Database : Type 1 where
  pub Tables : Type 0
  pub list : Tables → List Connection
  pub create : Tables → NewConnection → Option Tables

pub data ImportError : Type 0 where
  unreadable : ParseError → ImportError
  not_created : ImportError

pub record ImportSummary : Type 0 where
  pub imported : ℕ
  pub skipped : ℕ

module _ (json : Json) (db : Database) where
  open db use {Tables, list, create}

  unfoldable pub connections_export : Tables → Option (List String) → String
  connections_export tables ids = json.to_string_pretty (new (select_for_export (list tables) ids))

  -- The loop over the entries, which a failure ends: what was created before it stays.
  abbrev pub create_next :
      (Tables → Tables × (ImportError ⊎ ImportSummary))
      → Tables
      → Option Tables
      → Tables × (ImportError ⊎ ImportSummary)
  create_next next tables none = (tables, inl not_created)
  create_next next tables (some tables') = next tables'

  unfoldable pub create_each :
      ImportSummary → List PortableConnection → Tables → Tables × (ImportError ⊎ ImportSummary)
  create_each summary [] tables = (tables, inr summary)
  create_each summary (p ∷ ps) tables =
      create_next (create_each summary ps) tables (create tables (new_connection p))

  abbrev pub import_parsed :
      Tables → ParseError ⊎ ConnectionExportFile → Tables × (ImportError ⊎ ImportSummary)
  import_parsed tables (inl e) = (tables, inl (unreadable e))
  import_parsed tables (inr file) =
      let existing_names = map (λ (c : Connection). c.name) (list tables) in
      let parts = partition_importable file.connections existing_names in
      create_each (record { imported = length parts.0; skipped = parts.1 }) parts.0 tables

  unfoldable pub connections_import : Tables → String → Tables × (ImportError ⊎ ImportSummary)
  unfolding create_each
  connections_import tables text = import_parsed tables (parse json text)
