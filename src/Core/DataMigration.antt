-- ===== src/Core/DataMigration.antt =====
-- backend/core/src/data_migration.rs: the copy of the data of the app's previous name, over a disk
-- whose operations may stop at any point. A directory is its parent and its name, a file a directory
-- and a name; no directory stands under the name of a file. An I/O error and a crash are one thing:
-- the operation does not happen, or a copy leaves something else than the whole file behind.
pub mod Interrupted
pub mod Recovery
pub mod Attempts
mod Examples
use Prim.Native.String.{◌++◌}
use mathlib.Core.List.{◌++◌ as ◌++l◌}
use offset_explorer_oxide.Common.{
  arith, ◌&&◌, ◌≡◌, ◌↔◌, ℕ, zero, suc, String, Bool, true, false, Option, none, some, List, [], ◌∷◌,
  if◌then◌else◌, is_some,
}
use offset_explorer_oxide.Common.Equality.{Key, ◌==◌, string_eq, pair_eq}
use offset_explorer_oxide.Common.Dict.{lookup, insert, remove}

abbrev pub Directory : Type 0
Directory = String × String

abbrev pub File : Type 0
File = Directory × String

abbrev pub same_file : File → File → Bool
same_file (dir, name) (dir', name') = dir == dir' && name == name'

pub same_file_agrees : (f g : File) → (same_file f g ≡ true) ↔ (f ≡ g)
same_file_agrees (dir, name) (dir', name') =
    ground (arith, pair_eq.agrees dir dir', string_eq.agrees name name')

instance abbrev pub file_eq : Key File
file_eq = record { same_key = same_file; agrees = same_file_agrees }

-- The files, with their contents.
abbrev pub Disk : Type 0
Disk = List (File × String)

abbrev pub legacy_identifier : String
legacy_identifier = "dev.kafkaoxide.app"

abbrev pub legacy_db_file : String
legacy_db_file = "kafkaoxide.sqlite"

abbrev pub db_file : String
db_file = "salty.sqlite"

pub record AdoptedData : Type 0 where
  pub from : Directory
  pub files : List String

-- What is left of the operations that are let through before the stop, or the disk at the stop.
pub data Run {ℓ} (A : Type ℓ) : Type ℓ where
  ok : A → Disk → ℕ → Run A
  stopped : Disk → Run A

abbrev pub and_then {ℓ κ} : {A : Type ℓ} {B : Type κ} → Run A → (A → Disk → ℕ → Run B) → Run B
and_then (ok a d n) f = f a d n
and_then (stopped d) f = stopped d

abbrev pub is_file : File → Disk → Bool
is_file f d = is_some (lookup f d)

abbrev pub with_suffix : File → String → File
with_suffix (dir, name) suffix = (dir, name ++ suffix)

abbrev pub legacy_dir_for : Directory → Option Directory
legacy_dir_for (parent, name) =
    if name == legacy_identifier then none else some (parent, legacy_identifier)

abbrev pub create_dir_all : Disk → ℕ → Run (Unit {0})
create_dir_all d zero = stopped d
create_dir_all d (suc n) = ok tt d n

abbrev pub copied : File → Option String → Disk → ℕ → Run (Unit {0})
copied to none d n = stopped d
copied to (some c) d n = ok tt (insert to c d) n

abbrev pub moved : File → File → Option String → Disk → ℕ → Run (Unit {0})
moved from to none d n = stopped d
moved from to (some c) d n = ok tt (insert to c (remove from d)) n

abbrev pub rename : File → File → Disk → ℕ → Run (Unit {0})
rename from to d zero = stopped d
rename from to d (suc n) = moved from to (lookup from d) d n

-- What a copy that stops has written of the file: nothing, or some contents.
abbrev pub tear : Option String → File → Disk → Disk
tear none to d = d
tear (some c) to d = insert to c d

module _ (torn : Option String) where
  abbrev pub copy : File → File → Disk → ℕ → Run (Unit {0})
  copy from to d zero = stopped (tear torn to d)
  copy from to d (suc n) = copied to (lookup from d) d n

  -- The loop's body, with the names of the files copied so far.
  abbrev pub copy_sidecar : File → File → List String → Disk → ℕ → Run (List String)
  copy_sidecar from to files d n =
      if is_file from d
      then and_then (copy from to d n) (λ done. ok (files ++l (to.1 ∷ [])))
      else ok files d n

  abbrev pub copy_database :
      Directory → File → File → List String → Disk → ℕ → Run (Option AdoptedData)
  copy_database legacy_dir legacy_db destination files d n =
      let partial : File = with_suffix destination ".partial" in
      and_then (copy legacy_db partial d n) (λ done d' n'.
        and_then (rename partial destination d' n') (λ done'.
          ok (some (record { from = legacy_dir; files = files ++l (destination.1 ∷ []) }))))

  unfoldable pub adopt : Directory → Directory → Disk → ℕ → Run (Option AdoptedData)
  adopt data_dir legacy_dir d n =
      let legacy_db : File = (legacy_dir, legacy_db_file) in
      let destination : File = (data_dir, db_file) in
      and_then (create_dir_all d n) (λ made d0 n0.
        and_then
          (copy_sidecar (with_suffix legacy_db "-wal") (with_suffix destination "-wal") [] d0 n0)
          (λ files d1 n1.
            and_then
              (copy_sidecar (with_suffix legacy_db "-shm") (with_suffix destination "-shm") files d1
                n1)
              (copy_database legacy_dir legacy_db destination)))

  abbrev pub adopt_from : Directory → Option Directory → Disk → ℕ → Run (Option AdoptedData)
  adopt_from data_dir none d n = ok none d n
  adopt_from data_dir (some legacy_dir) d n =
      if is_file (legacy_dir, legacy_db_file) d then adopt data_dir legacy_dir d n else ok none d n

  unfoldable pub adopt_legacy_app_data : Directory → Disk → ℕ → Run (Option AdoptedData)
  unfolding adopt
  adopt_legacy_app_data data_dir d n =
      if is_file (data_dir, db_file) d
      then ok none d n
      else adopt_from data_dir (legacy_dir_for data_dir) d n
