-- ===== src/Db/Table/Selected.antt =====
-- What a table holds under each key after a statement.
use offset_explorer_oxide.Common.{
  String, ◌≡◌, refl, true, false, Option, none, some, List, [], ◌∷◌, inl, inr, arith, if◌then◌else◌,
  Bool-cases, ◌==◌ as eqb, is_some,
}
use offset_explorer_oxide.Common.Equality.{◌==◌, string_eq}
use offset_explorer_oxide.Db.Table.{Keyed, select, append, update_rows, delete_rows}

abbrev pub or_later {ℓ} : {A : Type ℓ} → Option A → Option A → Option A
or_later none o = o
or_later (some a) o = some a

abbrev pub changed : {Row : Type 0} → (Row → Row) → Option Row → Option Row
changed f none = none
changed f (some row) = some (f row)

module _ {Row : Type 0} ⦃keyed : Keyed Row⦄ where
  pub select-append :
      (new : Row) (rows : List Row) (j : String)
      → select j (append new rows)
        ≡ or_later (select j rows) (if keyed.key new == j then some new else none)
  unfolding select append
  select-append new [] j = refl
  select-append new (row ∷ rows) j = ground (arith, select-append new rows j)

  pub select-update_rows :
      (id : String) (f : Row → Row) (rows : List Row) (j : String)
      → ((row : Row) → keyed.key (f row) ≡ keyed.key row)
      → select j (update_rows id f rows).0
        ≡ (if id == j then changed f (select j rows) else select j rows)
  unfolding select update_rows
  select-update_rows id f [] j keeps = ground arith
  select-update_rows id f (row ∷ rows) j keeps = elim (Bool-cases (keyed.key row == id)) [
    | inl e ↦ rw e (
        rw (keeps row) (
          ground (
            arith,
            e,
            string_eq.agrees (keyed.key row) id,
            string_eq.agrees (keyed.key row) j,
            string_eq.agrees id j,
            select-update_rows id f rows j keeps,
          )))
    | inr e ↦ rw e (
        ground (
          arith,
          e,
          string_eq.agrees (keyed.key row) id,
          string_eq.agrees (keyed.key row) j,
          string_eq.agrees id j,
          select-update_rows id f rows j keeps,
        ))
  ]

  pub update_rows_affected :
      (id : String) (f : Row → Row) (rows : List Row)
      → (eqb (update_rows id f rows).1 0) ≡ (if is_some (select id rows) then false else true)
  unfolding select update_rows
  update_rows_affected id f [] = refl
  update_rows_affected id f (row ∷ rows) = ground (arith, update_rows_affected id f rows)

  pub update_rows_absent :
      (id : String) (f : Row → Row) (rows : List Row)
      → select id rows ≡ none
      → (update_rows id f rows).0 ≡ rows
  unfolding select update_rows
  update_rows_absent id f [] h = refl
  update_rows_absent id f (row ∷ rows) h = ground (arith, update_rows_absent id f rows)

  pub select-delete_rows :
      (id : String) (rows : List Row) (j : String)
      → select j (delete_rows id rows).0 ≡ (if id == j then none else select j rows)
  unfolding select delete_rows
  select-delete_rows id [] j = ground arith
  select-delete_rows id (row ∷ rows) j = ground (
    arith,
    string_eq.agrees (keyed.key row) id,
    string_eq.agrees (keyed.key row) j,
    string_eq.agrees id j,
    select-delete_rows id rows j,
  )

  pub delete_rows_affected :
      (id : String) (rows : List Row)
      → (eqb (delete_rows id rows).1 0) ≡ (if is_some (select id rows) then false else true)
  unfolding select delete_rows
  delete_rows_affected id [] = refl
  delete_rows_affected id (row ∷ rows) = ground (arith, delete_rows_affected id rows)

  pub delete_rows_absent :
      (id : String) (rows : List Row) → select id rows ≡ none → (delete_rows id rows).0 ≡ rows
  unfolding select delete_rows
  delete_rows_absent id [] h = refl
  delete_rows_absent id (row ∷ rows) h = ground (arith, delete_rows_absent id rows)
