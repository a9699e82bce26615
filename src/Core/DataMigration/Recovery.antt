-- ===== src/Core/DataMigration/Recovery.antt =====
-- A copy that is stopped any number of times and then let through.
use offset_explorer_oxide.Common.{
  ◌≤◌, ◌<◌, ◌≢◌, ℕ, zero, suc, String, ◌≡◌, refl, ◌∙◌, ◌⊎◌, false, Option, none, some, List, [],
  arith,
}
use offset_explorer_oxide.Common.Equality.{◌==◌, string_eq, pair_eq}
use offset_explorer_oxide.Common.Dict.{lookup, insert, remove, lookup-insert}
use offset_explorer_oxide.Core.DataMigration.{
  Directory, File, file_eq, Disk, ok, and_then, tear, moved, copy_sidecar, copy_database, adopt,
  AdoptedData,
}
use offset_explorer_oxide.Core.DataMigration.Interrupted.{
  After, After-and_then, After-weaken, newer, Copied, Torn, copy_sidecar-After, Kept, Stage,
  Interim, Adopted, Stage-partial, Kept-legacy, Stage-Interim, newer_old, wal_done, wal_stopped,
  shm_done, shm_stopped, Stage-rename,
}

module _ (torn : Option String) (data_dir legacy_dir : Directory)
    (apart : (data_dir == legacy_dir) ≡ false) where
  moved_lem :
      (d : Disk) (c : String) (n : ℕ)
      → let p : File = (data_dir, "salty.sqlite.partial") in
        let to : File = (data_dir, "salty.sqlite") in
        moved p to (lookup p (insert p c d)) (insert p c d) n
        ≡ ok tt (insert to c (remove p (insert p c d))) n
  moved_lem d c n =
      let p : File = (data_dir, "salty.sqlite.partial") in
      let here : lookup p (insert p c d) ≡ some c =
        ground (arith, lookup-insert p p c d, pair_eq.agrees data_dir data_dir) in
      rw here refl

  copy_database-After :
      (before : Disk) (files : List String) (d : Disk) (n : ℕ) (w s : Option String)
      → Stage data_dir legacy_dir apart before d w s
      → (c : String) → lookup (legacy_dir, "kafkaoxide.sqlite") d ≡ some c
      → After
          (copy_database torn legacy_dir
            (legacy_dir, "kafkaoxide.sqlite")
            (data_dir, "salty.sqlite")
            files
            d
            n)
          (λ out d' n'.
            (out ≢ none)
            × (lookup (data_dir, "salty.sqlite") d'
                ≡ lookup (legacy_dir, "kafkaoxide.sqlite") before)
            × (lookup (data_dir, "salty.sqlite-wal") d' ≡ w)
            × (lookup (data_dir, "salty.sqlite-shm") d' ≡ s)
            × Kept data_dir legacy_dir apart before d')
          (λ d'. Stage data_dir legacy_dir apart before d' w s × (n < 2))
  copy_database-After before files d zero w s at c h = tear_case torn
    where
      tear_case :
          (t : Option String)
          → Stage data_dir legacy_dir apart before (tear t (data_dir, "salty.sqlite.partial") d) w s
            × (0 < 2)
      tear_case none = (at, omega arith)
      tear_case (some t) = (Stage-partial data_dir legacy_dir apart before d w s at t, omega arith)
  copy_database-After before files d (suc zero) w s at c h =
      rw h (Stage-partial data_dir legacy_dir apart before d w s at c, omega arith)
  copy_database-After before files d (suc (suc n)) w s at c h =
      let (same, wal_kept, shm_kept, kept) =
        Stage-rename data_dir legacy_dir apart before d w s c at h in
      rw (h, moved_lem d c n) (λ absent. ground (arith, absent), same, wal_kept, shm_kept, kept)

  abbrev Whole : Disk → Option AdoptedData → Disk → ℕ → Type 0
  Whole before out d n = (out ≢ none) × Adopted data_dir legacy_dir apart before d

  abbrev Stop : Disk → ℕ → ℕ → Disk → Type 0
  Stop before n k d = Interim data_dir legacy_dir apart before d × (n < k)

  abbrev wal_then : Disk → Option String
  wal_then before =
      newer (lookup (legacy_dir, "kafkaoxide.sqlite-wal") before)
        (lookup (data_dir, "salty.sqlite-wal") before)

  abbrev shm_then : Disk → Option String
  shm_then before =
      newer (lookup (legacy_dir, "kafkaoxide.sqlite-shm") before)
        (lookup (data_dir, "salty.sqlite-shm") before)

  database_step :
      (before : Disk) (files : List String) (d : Disk) (n : ℕ) (c : String)
      → Stage data_dir legacy_dir apart before d (wal_then before) (shm_then before)
      → lookup (legacy_dir, "kafkaoxide.sqlite") before ≡ some c
      → After
          (copy_database torn legacy_dir
            (legacy_dir, "kafkaoxide.sqlite")
            (data_dir, "salty.sqlite")
            files
            d
            n)
          (Whole before)
          (Stop before n 2)
  database_step before files d n c at there =
      After-weaken _ _ (Whole before) _ (Stop before n 2)
        (copy_database-After before files d n (wal_then before) (shm_then before) at c
          (Kept-legacy data_dir legacy_dir apart before d "kafkaoxide.sqlite" at.kept ∙ there))
        (λ out d' n' (found, same, wal_is, shm_is, kept).
          (found, record { db_is = same; wal_is = wal_is; shm_is = shm_is; kept = kept }))
        (λ d' (at', small). (
          Stage-Interim data_dir legacy_dir apart before d' (wal_then before) (shm_then before) at'
              (newer_old _ _) (newer_old _ _),
          small,
        ))

  shm_step :
      (before : Disk) (files : List String) (d : Disk) (n : ℕ) (c : String)
      → Stage data_dir legacy_dir apart before d
          (wal_then before)
          (lookup (data_dir, "salty.sqlite-shm") before)
      → lookup (legacy_dir, "kafkaoxide.sqlite") before ≡ some c
      → After
          (and_then
            (copy_sidecar torn
              (legacy_dir, "kafkaoxide.sqlite-shm")
              (data_dir, "salty.sqlite-shm")
              files
              d
              n)
            (copy_database torn legacy_dir
              (legacy_dir, "kafkaoxide.sqlite")
              (data_dir, "salty.sqlite")))
          (Whole before)
          (Stop before n 3)
  shm_step before files d n c at there =
      After-and_then _ _
        (λ made d' n'.
          Stage data_dir legacy_dir apart before d' (wal_then before) (shm_then before)
          × (n ≤ suc n'))
        (Whole before) (Stop before n 3)
        (After-weaken _
          (λ made d' n'.
            (((lookup (legacy_dir, "kafkaoxide.sqlite-shm") d ≡ none) × (d' ≡ d))
              ⊎ Copied (legacy_dir, "kafkaoxide.sqlite-shm") (data_dir, "salty.sqlite-shm") d d')
            × (n ≤ suc n'))
          _
          (λ d'.
            ((lookup (legacy_dir, "kafkaoxide.sqlite-shm") d ≢ none)
              × Torn (data_dir, "salty.sqlite-shm") d d')
            × (n ≡ 0))
          (Stop before n 3)
          (copy_sidecar-After torn (legacy_dir, "kafkaoxide.sqlite-shm")
            (data_dir, "salty.sqlite-shm") files d n)
          (λ made d' n' (copy_done, near).
            (shm_done data_dir legacy_dir apart before d d' (wal_then before) at copy_done, near))
          (λ d' (torn_copy, none_left). (
            shm_stopped data_dir legacy_dir apart before d d' (wal_then before) at (newer_old _ _)
                torn_copy,
            omega (arith, none_left),
          )))
        (λ made d' n' (at', near).
          After-weaken _ _ (Whole before) _ (Stop before n 3)
            (database_step before made d' n' c at' there) (λ out d'' n'' h. h)
            (λ d'' (interim, small). (interim, omega (arith, near, small))))

  pub adopt-After :
      (before : Disk) (n : ℕ) (c : String)
      → lookup (data_dir, "salty.sqlite") before ≡ none
      → lookup (legacy_dir, "kafkaoxide.sqlite") before ≡ some c
      → After
          (adopt torn data_dir legacy_dir before n)
          (λ out d' n'. (out ≢ none) × Adopted data_dir legacy_dir apart before d')
          (λ d'. Interim data_dir legacy_dir apart before d' × (n < 5))
  unfolding adopt
  adopt-After before zero c fresh there = (
    record { no_db = fresh; no_wal = λ h. refl; no_shm = λ h. refl; kept = λ f a b e g. refl },
    omega arith,
  )
  adopt-After before (suc n) c fresh there =
      let w0 = lookup (data_dir, "salty.sqlite-wal") before in
      let s0 = lookup (data_dir, "salty.sqlite-shm") before in
      let start : Stage data_dir legacy_dir apart before before w0 s0 = record {
        no_db = fresh;
        wal_is = refl;
        shm_is = refl;
        kept = λ f a b e g. refl;
      } in
      After-and_then _ _
        (λ made d' n'.
          Stage data_dir legacy_dir apart before d' (wal_then before) s0 × (n ≤ suc n'))
        (Whole before) (Stop before (suc n) 5)
        (After-weaken _
          (λ made d' n'.
            (((lookup (legacy_dir, "kafkaoxide.sqlite-wal") before ≡ none) × (d' ≡ before))
              ⊎ Copied (legacy_dir, "kafkaoxide.sqlite-wal") (data_dir, "salty.sqlite-wal") before
                  d')
            × (n ≤ suc n'))
          _
          (λ d'.
            ((lookup (legacy_dir, "kafkaoxide.sqlite-wal") before ≢ none)
              × Torn (data_dir, "salty.sqlite-wal") before d')
            × (n ≡ 0))
          (Stop before (suc n) 5)
          (copy_sidecar-After torn (legacy_dir, "kafkaoxide.sqlite-wal")
            (data_dir, "salty.sqlite-wal") [] before n)
          (λ made d' n' (copy_done, near).
            (wal_done data_dir legacy_dir apart before before d' start copy_done, near))
          (λ d' (torn_copy, none_left). (
            wal_stopped data_dir legacy_dir apart before before d' start torn_copy,
            omega (arith, none_left),
          )))
        (λ made d' n' (at', near).
          After-weaken _ _ (Whole before) _ (Stop before (suc n) 5)
            (shm_step before made d' n' c at' there) (λ out d'' n'' h. h)
            (λ d'' (interim, small). (interim, omega (arith, near, small))))
