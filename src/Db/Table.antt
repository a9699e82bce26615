-- ===== src/Db/Table.antt =====
-- The statements that backend/db sends to SQLite, on a table kept in the order of insertion with a
-- text as primary key: what SQL documents of them.
pub mod Selected
use offset_explorer_oxide.Common.{
  ℕ, suc, String, ◌≡◌, refl, ap, ◌∙◌, Bool, true, false, Option, none, some, List, [], ◌∷◌, inl,
  inr, arith, if◌then◌else◌, Bool-cases,
}
use offset_explorer_oxide.Common.Equality.{◌==◌, string_eq}

pub record Keyed (Row : Type 0) : Type 0 where
  pub key : Row → String

module _ {Row : Type 0} ⦃keyed : Keyed Row⦄ where
  -- `SELECT … WHERE id = ?`, of which the first row is fetched.
  unfoldable pub select : String → List Row → Option Row
  select id [] = none
  select id (row ∷ rows) =
      let later = select id rows in if keyed.key row == id then some row else later

  -- `INSERT`: a key that is there already is a violated constraint.
  unfoldable pub append : Row → List Row → List Row
  append new [] = new ∷ []
  append new (row ∷ rows) = row ∷ append new rows

  abbrev pub unless_there : Option Row → Row → List Row → Option (List Row)
  unfolding append
  unless_there none new rows = some (append new rows)
  unless_there (some row) new rows = none

  unfoldable pub insert : Row → List Row → Option (List Row)
  unfolding select append
  insert new rows = unless_there (select (keyed.key new) rows) new rows

  -- `UPDATE … WHERE id = ?` and `DELETE … WHERE id = ?`, with the number of rows affected.
  unfoldable pub update_rows : String → (Row → Row) → List Row → List Row × ℕ
  update_rows id change [] = ([], 0)
  update_rows id change (row ∷ rows) =
      let (rows', affected) = update_rows id change rows in
      if keyed.key row == id then (change row ∷ rows', suc affected) else (row ∷ rows', affected)

  unfoldable pub delete_rows : String → List Row → List Row × ℕ
  delete_rows id [] = ([], 0)
  delete_rows id (row ∷ rows) =
      let (rows', affected) = delete_rows id rows in
      if keyed.key row == id then (rows', suc affected) else (row ∷ rows', affected)

module _ {Row : Type 0} (before : Row → Row → Bool) where
  -- `ORDER BY … ASC`; rows that compare alike stay in their order.
  unfoldable pub place : Row → List Row → List Row
  place new [] = new ∷ []
  place new (row ∷ rows) =
      let deeper = place new rows in if before row new then row ∷ deeper else new ∷ row ∷ rows

  unfoldable pub select_ordered : List Row → List Row
  unfolding place
  select_ordered [] = []
  select_ordered (row ∷ rows) = place row (select_ordered rows)
