-- ===== src/Core/DataMigration/Interrupted.antt =====
-- What the copy leaves on the disk, whether it ends or stops at any of its operations.
use offset_explorer_oxide.Common.{
  ◌≤◌, ◌≢◌, ℕ, zero, suc, String, ◌≡◌, refl, ◌∙◌, sym, ◌⊎◌, inl, inr, false, Option, none, some,
  List, arith, Option-cases,
}
use offset_explorer_oxide.Common.Equality.{◌==◌, string_eq, pair_eq}
use offset_explorer_oxide.Common.Dict.{lookup, insert, remove, lookup-insert, lookup-remove}
use offset_explorer_oxide.Core.DataMigration.{
  Directory, File, file_eq, Disk, Run, ok, stopped, and_then, copy_sidecar,
}

abbrev pub After {ℓ} : {A : Type ℓ} → Run A → (A → Disk → ℕ → Type 0) → (Disk → Type 0) → Type 0
After (ok a d n) P Q = P a d n
After (stopped d) P Q = Q d

pub After-and_then {ℓ κ} :
    {A : Type ℓ} {B : Type κ} (r : Run A) (f : A → Disk → ℕ → Run B) (P : A → Disk → ℕ → Type 0)
    (P' : B → Disk → ℕ → Type 0) (Q : Disk → Type 0)
    → After r P Q
    → ((a : A) (d : Disk) (n : ℕ) → P a d n → After (f a d n) P' Q)
    → After (and_then r f) P' Q
After-and_then (ok a d n) f P P' Q h next = next a d n h
After-and_then (stopped d) f P P' Q h next = h

pub After-weaken {ℓ} :
    {A : Type ℓ} (r : Run A) (P P' : A → Disk → ℕ → Type 0) (Q Q' : Disk → Type 0)
    → After r P Q
    → ((a : A) (d : Disk) (n : ℕ) → P a d n → P' a d n)
    → ((d : Disk) → Q d → Q' d)
    → After r P' Q'
After-weaken (ok a d n) P P' Q Q' h p q = p a d n h
After-weaken (stopped d) P P' Q Q' h p q = q d h

abbrev pub newer : Option String → Option String → Option String
newer none old = old
newer (some c) old = some c

-- A disk that a copy to a file has left, with the contents of the file that was copied or, when it
-- stopped, with nothing or something else.
abbrev pub Copied : File → File → Disk → Disk → Type 0
Copied from to d d' = (c : String) × (lookup from d ≡ some c) × (d' ≡ insert to c d)

abbrev pub Torn : File → Disk → Disk → Type 0
Torn to d d' = (d' ≡ d) ⊎ ((c : String) × (d' ≡ insert to c d))

pub copy_sidecar-After :
    (torn : Option String) (from to : File) (files : List String) (d : Disk) (n : ℕ)
    → After
        (copy_sidecar torn from to files d n)
        (λ made d' n'. (((lookup from d ≡ none) × (d' ≡ d)) ⊎ Copied from to d d') × (n ≤ suc n'))
        (λ d'. ((lookup from d ≢ none) × Torn to d d') × (n ≡ 0))
copy_sidecar-After none from to files d zero = elim (Option-cases (lookup from d)) [
  | inl h ↦ rw h (inl (refl, refl), omega arith)
  | inr (c, h) ↦ rw h ((λ absent. ground (arith, absent), inl refl), refl)
]
copy_sidecar-After (some t) from to files d zero = elim (Option-cases (lookup from d)) [
  | inl h ↦ rw h (inl (refl, refl), omega arith)
  | inr (c, h) ↦ rw h ((λ absent. ground (arith, absent), inr (t, refl)), refl)
]
copy_sidecar-After torn from to files d (suc n) = elim (Option-cases (lookup from d)) [
  | inl h ↦ rw h (inl (refl, refl), omega arith)
  | inr (c, h) ↦ rw h (inr (c, refl, refl), omega arith)
]

pub newer_old : (o w : Option String) → o ≡ none → newer o w ≡ w
newer_old o w h = rw h refl

module _ (data_dir legacy_dir : Directory) (apart : (data_dir == legacy_dir) ≡ false) where
  abbrev pub db : File
  db = (data_dir, "salty.sqlite")

  abbrev pub wal : File
  wal = (data_dir, "salty.sqlite-wal")

  abbrev pub shm : File
  shm = (data_dir, "salty.sqlite-shm")

  abbrev pub partial : File
  partial = (data_dir, "salty.sqlite.partial")

  abbrev pub legacy_db : File
  legacy_db = (legacy_dir, "kafkaoxide.sqlite")

  abbrev pub legacy_wal : File
  legacy_wal = (legacy_dir, "kafkaoxide.sqlite-wal")

  abbrev pub legacy_shm : File
  legacy_shm = (legacy_dir, "kafkaoxide.sqlite-shm")

  -- No file but the four that the copy writes has changed, the legacy directory's among them.
  abbrev pub Kept : Disk → Disk → Type 0
  Kept before d =
      (f : File)
      → (db == f) ≡ false
      → (wal == f) ≡ false
      → (shm == f) ≡ false
      → (partial == f) ≡ false
      → lookup f d ≡ lookup f before

  pub record Stage (before d : Disk) (w s : Option String) : Type 0 where
    pub no_db : lookup db d ≡ none
    pub wal_is : lookup wal d ≡ w
    pub shm_is : lookup shm d ≡ s
    pub kept : Kept before d

  -- A stop leaves no database, and no sidecar that was not there or in the legacy directory.
  pub record Interim (before d : Disk) : Type 0 where
    pub no_db : lookup db d ≡ none
    pub no_wal : lookup legacy_wal before ≡ none → lookup wal d ≡ lookup wal before
    pub no_shm : lookup legacy_shm before ≡ none → lookup shm d ≡ lookup shm before
    pub kept : Kept before d

  pub record Adopted (before d : Disk) : Type 0 where
    pub db_is : lookup db d ≡ lookup legacy_db before
    pub wal_is : lookup wal d ≡ newer (lookup legacy_wal before) (lookup wal before)
    pub shm_is : lookup shm d ≡ newer (lookup legacy_shm before) (lookup shm before)
    pub kept : Kept before d

  module _ (before d : Disk) (w s : Option String) (at : Stage before d w s) where
    Stage-wal : (c : String) → Stage before (insert wal c d) (some c) s
    Stage-wal c = record {
      no_db = ground (arith, lookup-insert wal db c d, at.no_db);
      wal_is = ground (arith, lookup-insert wal wal c d, pair_eq.agrees data_dir data_dir);
      shm_is = ground (arith, lookup-insert wal shm c d, at.shm_is);
      kept = λ f a b e g. ground (arith, lookup-insert wal f c d, at.kept f a b e g, b);
    }

    Stage-shm : (c : String) → Stage before (insert shm c d) w (some c)
    Stage-shm c = record {
      no_db = ground (arith, lookup-insert shm db c d, at.no_db);
      wal_is = ground (arith, lookup-insert shm wal c d, at.wal_is);
      shm_is = ground (arith, lookup-insert shm shm c d, pair_eq.agrees data_dir data_dir);
      kept = λ f a b e g. ground (arith, lookup-insert shm f c d, at.kept f a b e g, e);
    }

    pub Stage-partial : (c : String) → Stage before (insert partial c d) w s
    Stage-partial c = record {
      no_db = ground (arith, lookup-insert partial db c d, at.no_db);
      wal_is = ground (arith, lookup-insert partial wal c d, at.wal_is);
      shm_is = ground (arith, lookup-insert partial shm c d, at.shm_is);
      kept = λ f a b e g. ground (arith, lookup-insert partial f c d, at.kept f a b e g, g);
    }

  pub Kept-legacy :
      (before d : Disk) (name : String)
      → Kept before d
      → lookup (legacy_dir, name) d ≡ lookup (legacy_dir, name) before
  Kept-legacy before d name kept =
      kept (legacy_dir, name) (ground (arith, apart)) (ground (arith, apart))
        (ground (arith, apart)) (ground (arith, apart))

  pub Stage-Interim :
      (before d : Disk) (w s : Option String)
      → Stage before d w s
      → (lookup legacy_wal before ≡ none → w ≡ lookup wal before)
      → (lookup legacy_shm before ≡ none → s ≡ lookup shm before)
      → Interim before d
  Stage-Interim before d w s at w_old s_old = record {
    no_db = at.no_db;
    no_wal = λ h. at.wal_is ∙ w_old h;
    no_shm = λ h. at.shm_is ∙ s_old h;
    kept = at.kept;
  }

  -- The first sidecar, copied or not there, and what a stop leaves of it.
  pub wal_done :
      (before d d' : Disk)
      → Stage before d (lookup wal before) (lookup shm before)
      → ((lookup legacy_wal d ≡ none) × (d' ≡ d)) ⊎ Copied legacy_wal wal d d'
      → Stage before d' (newer (lookup legacy_wal before) (lookup wal before)) (lookup shm before)
  wal_done before d d' at (inl (h, same)) =
      rw (same, sym (Kept-legacy before d "kafkaoxide.sqlite-wal" at.kept), h) at
  wal_done before d d' at (inr (c, h, same)) =
      rw (same, sym (Kept-legacy before d "kafkaoxide.sqlite-wal" at.kept), h)
        (Stage-wal before d (lookup wal before) (lookup shm before) at c)

  pub wal_stopped :
      (before d d' : Disk)
      → Stage before d (lookup wal before) (lookup shm before)
      → (lookup legacy_wal d ≢ none) × Torn wal d d'
      → Interim before d'
  wal_stopped before d d' at (there, inl same) =
      rw same
        (Stage-Interim before d (lookup wal before) (lookup shm before) at (λ h. refl) (λ h. refl))
  wal_stopped before d d' at (there, inr (c, same)) = rw same (
      Stage-Interim before (insert wal c d) (some c) (lookup shm before)
        (Stage-wal before d (lookup wal before) (lookup shm before) at c)
        (λ h. absurd (there (Kept-legacy before d "kafkaoxide.sqlite-wal" at.kept ∙ h)))
        (λ h. refl))

  pub shm_done :
      (before d d' : Disk) (w : Option String)
      → Stage before d w (lookup shm before)
      → ((lookup legacy_shm d ≡ none) × (d' ≡ d)) ⊎ Copied legacy_shm shm d d'
      → Stage before d' w (newer (lookup legacy_shm before) (lookup shm before))
  shm_done before d d' w at (inl (h, same)) =
      rw (same, sym (Kept-legacy before d "kafkaoxide.sqlite-shm" at.kept), h) at
  shm_done before d d' w at (inr (c, h, same)) =
      rw (same, sym (Kept-legacy before d "kafkaoxide.sqlite-shm" at.kept), h)
        (Stage-shm before d w (lookup shm before) at c)

  pub shm_stopped :
      (before d d' : Disk) (w : Option String)
      → Stage before d w (lookup shm before)
      → (lookup legacy_wal before ≡ none → w ≡ lookup wal before)
      → (lookup legacy_shm d ≢ none) × Torn shm d d'
      → Interim before d'
  shm_stopped before d d' w at old (there, inl same) =
      rw same (Stage-Interim before d w (lookup shm before) at old (λ h. refl))
  shm_stopped before d d' w at old (there, inr (c, same)) = rw same (
      Stage-Interim before (insert shm c d) w (some c)
        (Stage-shm before d w (lookup shm before) at c) old
        (λ h. absurd (there (Kept-legacy before d "kafkaoxide.sqlite-shm" at.kept ∙ h))))

  pub Stage-rename :
      (before d : Disk) (w s : Option String) (c : String)
      → Stage before d w s
      → lookup legacy_db d ≡ some c
      → let d' = insert db c (remove partial (insert partial c d)) in
        (lookup db d' ≡ lookup legacy_db before)
        × (lookup wal d' ≡ w)
        × (lookup shm d' ≡ s)
        × Kept before d'
  Stage-rename before d w s c at h =
      let d1 = insert partial c d in
      let d2 = remove partial d1 in
      let at1 = Stage-partial before d w s at c in
      (
        ground (
          arith,
          lookup-insert db db c d2,
          pair_eq.agrees data_dir data_dir,
          h,
          Kept-legacy before d "kafkaoxide.sqlite" at.kept,
        ),
        ground (arith, lookup-insert db wal c d2, lookup-remove partial wal d1, at1.wal_is),
        ground (arith, lookup-insert db shm c d2, lookup-remove partial shm d1, at1.shm_is),
        λ f a b e g.
            ground (
              arith,
              lookup-insert db f c d2,
              lookup-remove partial f d1,
              at1.kept f a b e g,
              a,
              g,
            ),
      )
