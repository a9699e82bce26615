-- ===== src/Core/DataMigration/Attempts.antt =====
-- Launches that are cut short, one after another, and the one that is not.
use offset_explorer_oxide.Common.{
  ◌≤◌, ◌<◌, ◌≢◌, ℕ, String, ◌≡◌, refl, ◌∙◌, false, Option, none, some, List, [], ◌∷◌, arith,
}
use offset_explorer_oxide.Common.Equality.{◌==◌, string_eq, pair_eq}
use offset_explorer_oxide.Common.Dict.{lookup}
use offset_explorer_oxide.Core.DataMigration.{
  Directory, file_eq, Disk, legacy_identifier, Run, ok, stopped, AdoptedData, adopt_legacy_app_data,
}
use offset_explorer_oxide.Core.DataMigration.Interrupted.{
  After, newer, Interim, Adopted, Kept-legacy,
}
use offset_explorer_oxide.Core.DataMigration.Recovery.{adopt-After}

ended {ℓ} :
    {A : Type ℓ} (r : Run A) (P : A → Disk → ℕ → Type 0) (Q : Disk → Type 0) (n : ℕ)
    → After r P (λ d. Q d × (n < 5))
    → 5 ≤ n
    → (a : A) × (d : Disk) × (m : ℕ) × (r ≡ ok a d m) × P a d m
ended (ok a d m) P Q n h enough = (a, d, m, refl, h)
ended (stopped d) P Q n (q, small) enough = absurd (omega (arith, small, enough))

newer_same : (l l' w w' : Option String) → l' ≡ l → (l ≡ none → w' ≡ w) → newer l' w' ≡ newer l w
newer_same none l' w w' same old = rw same (old refl)
newer_same (some c) l' w w' same old = rw same refl

module _ (parent name : String) (renamed : (name == legacy_identifier) ≡ false) where
  abbrev pub data_dir : Directory
  data_dir = (parent, name)

  abbrev pub legacy_dir : Directory
  legacy_dir = (parent, legacy_identifier)

  pub apart : (data_dir == legacy_dir) ≡ false
  apart = ground (arith, renamed)

  -- Launches that were cut short lead from one disk to another, each with what its torn copy left
  -- and the operations that it was let do.
  abbrev pub CutShort : List (Option String × ℕ) → Disk → Disk → Type 0
  CutShort [] d d' = d' ≡ d
  CutShort ((torn, n) ∷ launches) d d' =
      (between : Disk) × (adopt_legacy_app_data torn data_dir d n ≡ stopped between)
      × CutShort launches between d'

  launch-After :
      (torn : Option String) (before : Disk) (n : ℕ) (c : String)
      → lookup (data_dir, "salty.sqlite") before ≡ none
      → lookup (legacy_dir, "kafkaoxide.sqlite") before ≡ some c
      → After
          (adopt_legacy_app_data torn data_dir before n)
          (λ out d' n'. (out ≢ none) × Adopted data_dir legacy_dir apart before d')
          (λ d'. Interim data_dir legacy_dir apart before d' × (n < 5))
  unfolding adopt_legacy_app_data
  launch-After torn before n c fresh there =
      rw (fresh, renamed, there) (adopt-After torn data_dir legacy_dir apart before n c fresh there)

  Interim-trans :
      (a b c : Disk)
      → Interim data_dir legacy_dir apart a b
      → Interim data_dir legacy_dir apart b c
      → Interim data_dir legacy_dir apart a c
  Interim-trans a b c i j = record {
    no_db = j.no_db;
    no_wal = λ h.
        j.no_wal (Kept-legacy data_dir legacy_dir apart a b "kafkaoxide.sqlite-wal" i.kept ∙ h)
        ∙ i.no_wal h;
    no_shm = λ h.
        j.no_shm (Kept-legacy data_dir legacy_dir apart a b "kafkaoxide.sqlite-shm" i.kept ∙ h)
        ∙ i.no_shm h;
    kept = λ f p q r s. j.kept f p q r s ∙ i.kept f p q r s;
  }

  CutShort-Interim :
      (launches : List (Option String × ℕ)) (before d d' : Disk) (c : String)
      → lookup (legacy_dir, "kafkaoxide.sqlite") before ≡ some c
      → Interim data_dir legacy_dir apart before d
      → CutShort launches d d'
      → Interim data_dir legacy_dir apart before d'
  CutShort-Interim [] before d d' c there i same = rw same i
  CutShort-Interim ((torn, n) ∷ launches) before d d' c there i (between, cut, rest) =
      let here =
        Kept-legacy data_dir legacy_dir apart before d "kafkaoxide.sqlite" i.kept ∙ there in
      let (j, small) = rw cut at (launch-After torn d n c i.no_db here) in
      CutShort-Interim launches before between d' c there (Interim-trans before d between i j) rest

  Adopted-later :
      (before d d' : Disk)
      → Interim data_dir legacy_dir apart before d
      → Adopted data_dir legacy_dir apart d d'
      → Adopted data_dir legacy_dir apart before d'
  Adopted-later before d d' i a = record {
    db_is = a.db_is ∙ Kept-legacy data_dir legacy_dir apart before d "kafkaoxide.sqlite" i.kept;
    wal_is =
        a.wal_is
        ∙ newer_same _ _ _ _
            (Kept-legacy data_dir legacy_dir apart before d "kafkaoxide.sqlite-wal" i.kept)
            i.no_wal;
    shm_is =
        a.shm_is
        ∙ newer_same _ _ _ _
            (Kept-legacy data_dir legacy_dir apart before d "kafkaoxide.sqlite-shm" i.kept)
            i.no_shm;
    kept = λ f p q r s. a.kept f p q r s ∙ i.kept f p q r s;
  }

  -- Where the legacy directory has a database and the new one has none, then after any launches
  -- whose copy is cut short at any operation, a launch that is let do its five operations ends and
  -- adopts: the new database and each sidecar hold what the legacy ones held before the first of
  -- them (a sidecar that was not there is as it was), and no other file but the partial copy has
  -- changed.
  pub adopt_legacy_app_data-Adopted :
      (launches : List (Option String × ℕ)) (before d : Disk) (torn : Option String) (n : ℕ)
      (c : String)
      → lookup (data_dir, "salty.sqlite") before ≡ none
      → lookup (legacy_dir, "kafkaoxide.sqlite") before ≡ some c
      → CutShort launches before d
      → 5 ≤ n
      → (out : Option AdoptedData) × (d' : Disk) × (m : ℕ) × (adopt_legacy_app_data torn data_dir d
            n
          ≡ ok out d' m)
        × (out ≢ none)
        × Adopted data_dir legacy_dir apart before d'
  adopt_legacy_app_data-Adopted launches before d torn n c fresh there cut enough =
      let start : Interim data_dir legacy_dir apart before before = record {
        no_db = fresh;
        no_wal = λ h. refl;
        no_shm = λ h. refl;
        kept = λ f p q r s. refl;
      } in
      let i = CutShort-Interim launches before before d c there start cut in
      let here =
        Kept-legacy data_dir legacy_dir apart before d "kafkaoxide.sqlite" i.kept ∙ there in
      let (out, d', m, ends, (found, a)) =
        ended (adopt_legacy_app_data torn data_dir d n) _ _ n (launch-After torn d n c i.no_db here)
          enough in
      (out, d', m, ends, found, Adopted-later before d d' i a)
