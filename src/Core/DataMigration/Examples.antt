-- ===== src/Core/DataMigration/Examples.antt =====
-- A launch cut short while it copies the write-ahead log, and the next one.
use offset_explorer_oxide.Common.{ℕ, ◌≢◌, ◌≡◌, refl, Option, none, some, [], ◌∷◌, arith}
use offset_explorer_oxide.Common.Equality.{string_eq, pair_eq}
use offset_explorer_oxide.Common.Dict.{lookup, insert}
use offset_explorer_oxide.Core.DataMigration.{
  Directory, Disk, file_eq, ok, stopped, AdoptedData, adopt_legacy_app_data,
}
use offset_explorer_oxide.Core.DataMigration.Interrupted.{Adopted}
use offset_explorer_oxide.Core.DataMigration.Attempts.{apart, adopt_legacy_app_data-Adopted}

abbrev salty : Directory
salty = ("/home/ada/.local/share", "dev.salty.app")

abbrev legacy : Directory
legacy = ("/home/ada/.local/share", "dev.kafkaoxide.app")

abbrev before : Disk
before = ((legacy, "kafkaoxide.sqlite"), "tables") ∷ ((legacy, "kafkaoxide.sqlite-wal"), "log") ∷ []

abbrev cut_short : Disk
cut_short =
    ((legacy, "kafkaoxide.sqlite"), "tables")
    ∷ ((legacy, "kafkaoxide.sqlite-wal"), "log")
    ∷ ((salty, "salty.sqlite-wal"), "lo")
    ∷ []

first_launch : adopt_legacy_app_data (some "lo") salty before 1 ≡ stopped cut_short
unfolding adopt_legacy_app_data lookup insert
first_launch = refl

no_database : lookup (salty, "salty.sqlite") before ≡ none
unfolding lookup
no_database = refl

legacy_database : lookup (legacy, "kafkaoxide.sqlite") before ≡ some "tables"
unfolding lookup
legacy_database = refl

adopt_legacy_app_data-Adopted_example :
    (out : Option AdoptedData) × (d' : Disk) × (m : ℕ) × (adopt_legacy_app_data none salty cut_short
        9
      ≡ ok out d' m)
    × (out ≢ none)
    × Adopted salty legacy (apart "/home/ada/.local/share" "dev.salty.app" refl) before d'
adopt_legacy_app_data-Adopted_example =
    adopt_legacy_app_data-Adopted "/home/ada/.local/share" "dev.salty.app" refl
      ((some "lo", 1) ∷ []) before cut_short none 9 "tables" no_database legacy_database
      (cut_short, first_launch, refl) (omega arith)
