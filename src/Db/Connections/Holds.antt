-- ===== src/Db/Connections/Holds.antt =====
-- A table that holds what a map says, before and after each statement.
use mathlib.Core.Path.{subst}
use offset_explorer_oxide.Common.{
  String, ◌≡◌, refl, sym, ap, ◌∙◌, Option, none, some, inl, inr, List, if◌then◌else◌, Bool-cases,
}
use offset_explorer_oxide.Common.Equality.{◌==◌, string_eq}
use offset_explorer_oxide.Core.Connection.{Connection, NewConnection}
use offset_explorer_oxide.Db.Table.{select, append, update_rows, delete_rows}
use offset_explorer_oxide.Db.Table.Selected.{
  or_later, select-append, select-update_rows, select-delete_rows,
}
use offset_explorer_oxide.Db.Connections.{
  ConnectionRow, row_id, into_connection, new_row, edited_row, found, get,
}
use offset_explorer_oxide.Db.Connections.Stored.{saved, read_new, read_edited, read_keeps}
use offset_explorer_oxide.Db.Connections.Promise.{Saved, put, answer_of}

-- The table holds what the map says.
abbrev pub Matches : Option ConnectionRow → Option Connection → Type 0
Matches none none = Unit
Matches none (some c) = ⊥
Matches (some row) none = ⊥
Matches (some row) (some c) = into_connection row ≡ inr c

abbrev pub Holds : List ConnectionRow → Saved → Type 0
Holds table m = (j : String) → Matches (select j table) (m j)

pub answer_Matches :
    (o : Option ConnectionRow) (p : Option Connection) → Matches o p → found o ≡ answer_of p
unfolding found
answer_Matches none none h = refl
answer_Matches none (some c) h = elim h [ ]
answer_Matches (some row) none h = elim h [ ]
answer_Matches (some row) (some c) h = h

pub none-Matches : (p : Option Connection) → Matches none p → p ≡ none
none-Matches none h = refl
none-Matches (some c) h = elim h [ ]

pub some-Matches :
    (row : ConnectionRow) (p : Option Connection)
    → Matches (some row) p
    → (c : Connection) × (p ≡ some c) × (into_connection row ≡ inr c)
some-Matches row none h = elim h [ ]
some-Matches row (some c) h = (c, refl, h)

pub or_later-Matches :
    (o : Option ConnectionRow) (p : Option Connection) → Matches o p → Matches (or_later o none) p
or_later-Matches none p h = h
or_later-Matches (some row) p h = h

pub get_lem :
    (table : List ConnectionRow) (m : Saved) (j : String)
    → Holds table m
    → get table j ≡ answer_of (m j)
unfolding get
get_lem table m j h = answer_Matches (select j table) (m j) (h j)

-- The map under a key, once the row there is known.
pub known_none :
    (table : List ConnectionRow) (m : Saved) (j : String)
    → Holds table m
    → select j table ≡ none
    → m j ≡ none
known_none table m j h e = none-Matches (m j) (subst (λ o. Matches o (m j)) e (h j))

pub known_some :
    (table : List ConnectionRow) (m : Saved) (j : String) (row : ConnectionRow)
    → Holds table m
    → select j table ≡ some row
    → (c : Connection) × (m j ≡ some c) × (into_connection row ≡ inr c)
known_some table m j row h e = some-Matches row (m j) (subst (λ o. Matches o (m j)) e (h j))

pub select_appended :
    (table : List ConnectionRow) (id now : String) (c : NewConnection) (j : String)
    → select j (append (new_row id now c) table)
      ≡ or_later (select j table) (if id == j then some (new_row id now c) else none)
unfolding new_row
select_appended table id now c j = select-append (new_row id now c) table j

pub edited_row_id :
    (now : String) (c : NewConnection) (row : ConnectionRow) → (edited_row now c row).id ≡ row.id
unfolding edited_row
edited_row_id now c row = refl

pub append-Holds :
    (table : List ConnectionRow) (m : Saved) (id now : String) (c : NewConnection)
    → Holds table m
    → select id table ≡ none
    → Holds (append (new_row id now c) table) (put id (some (saved id now now c)) m)
append-Holds table m id now c h e j =
    rw (select_appended table id now c j) (elim (Bool-cases (id == j)) [
      | inl same ↦
          let none_there : select j table ≡ none =
            ap (λ k. select k table) (sym ((string_eq.agrees id j).0 same)) ∙ e in
          rw (same, none_there) (read_new id now c)
      | inr other ↦ rw other (or_later-Matches (select j table) (m j) (h j))
    ])

pub update-Holds :
    (table : List ConnectionRow) (m : Saved) (id now : String) (c : NewConnection)
    (row : ConnectionRow) (old : Connection)
    → Holds table m
    → select id table ≡ some row
    → into_connection row ≡ inr old
    → Holds
        (update_rows id (edited_row now c) table).0
        (put id (some (saved old.id old.created_at now c)) m)
update-Holds table m id now c row old h e reads j =
    rw (select-update_rows id (edited_row now c) table j (edited_row_id now c))
      (elim (Bool-cases (id == j)) [
        | inl same ↦
            let there : select j table ≡ some row =
              ap (λ k. select k table) (sym ((string_eq.agrees id j).0 same)) ∙ e in
            let (id_kept, time_kept) = read_keeps row old reads in
            rw (same, there)
              (read_edited now c row
                ∙ ap (λ i. inr (saved i row.created_at now c)) id_kept
                ∙ ap (λ t. inr (saved old.id t now c)) time_kept)
        | inr other ↦ rw other (h j)
      ])

pub delete-Holds :
    (table : List ConnectionRow) (m : Saved) (id : String)
    → Holds table m
    → Holds (delete_rows id table).0 (put id none m)
delete-Holds table m id h j =
    rw (select-delete_rows id table j)
      (elim (Bool-cases (id == j)) [ inl same ↦ rw same tt | inr other ↦ rw other (h j) ])
