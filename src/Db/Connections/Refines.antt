-- ===== src/Db/Connections/Refines.antt =====
-- Histories of calls: the table does what the map promises.
use offset_explorer_oxide.Common.{
  String, ◌≡◌, refl, ap, ◌∙◌, true, false, Option, none, some, inl, inr, List, [], ◌∷◌,
  Option-cases, ◌==◌ as eqb, is_some,
}
use offset_explorer_oxide.Common.Dict.{beq_refl}
use offset_explorer_oxide.Common.Equality.{string_eq}
use offset_explorer_oxide.Core.Errors.{db, not_found}
use offset_explorer_oxide.Core.Connection.{Connection, NewConnection}
use offset_explorer_oxide.Db.Table.{select, append, update_rows, delete_rows}
use offset_explorer_oxide.Db.Table.Selected.{
  update_rows_affected, update_rows_absent, delete_rows_affected, delete_rows_absent,
}
use offset_explorer_oxide.Db.Connections.{
  ConnectionRow, row_id, new_row, edited_row, get, create, update, delete,
}
use offset_explorer_oxide.Db.Connections.Stored.{saved}
use offset_explorer_oxide.Db.Connections.Promise.{
  Call, creating, updating, deleting, getting, Answer, connection, run, run_all, Saved, put,
  answer_of, promised, promised_all,
}
use offset_explorer_oxide.Db.Connections.Holds.{
  Holds, get_lem, known_none, known_some, append-Holds, update-Holds, delete-Holds,
}

create_there :
    (table : List ConnectionRow) (id now : String) (c : NewConnection) (row : ConnectionRow)
    → select id table ≡ some row
    → create table id now c ≡ (table, inl db)
unfolding create
create_there table id now c row h = rw h refl

pub create_new :
    (table : List ConnectionRow) (id now : String) (c : NewConnection)
    → select id table ≡ none
    → create table id now c
      ≡ (append (new_row id now c) table, get (append (new_row id now c) table) id)
unfolding create
create_new table id now c h = rw h refl

absent : (o : Option ConnectionRow) → o ≡ none → is_some o ≡ false
absent o h = ap is_some h

update_there :
    (table : List ConnectionRow) (id now : String) (c : NewConnection) (row : ConnectionRow)
    → select id table ≡ some row
    → update table id now c ≡ (
      (update_rows id (edited_row now c) table).0,
      get (update_rows id (edited_row now c) table).0 id,
    )
unfolding update
update_there table id now c row h =
    let affected : eqb (update_rows id (edited_row now c) table).1 0 ≡ false =
      update_rows_affected id (edited_row now c) table ∙ rw h refl in
    rw affected refl

update_absent :
    (table : List ConnectionRow) (id now : String) (c : NewConnection)
    → select id table ≡ none
    → update table id now c ≡ (table, inl not_found)
unfolding update
update_absent table id now c h =
    let affected : eqb (update_rows id (edited_row now c) table).1 0 ≡ true =
      update_rows_affected id (edited_row now c) table ∙ rw h refl in
    rw affected (ap (λ t. (t, inl not_found)) (update_rows_absent id (edited_row now c) table h))

delete_there :
    (table : List ConnectionRow) (id : String) (row : ConnectionRow)
    → select id table ≡ some row
    → delete table id ≡ ((delete_rows id table).0, inr tt)
unfolding delete
delete_there table id row h =
    let affected : eqb (delete_rows id table).1 0 ≡ false =
      delete_rows_affected id table ∙ rw h refl in
    rw affected refl

delete_absent :
    (table : List ConnectionRow) (id : String)
    → select id table ≡ none
    → delete table id ≡ (table, inl not_found)
unfolding delete
delete_absent table id h =
    let affected : eqb (delete_rows id table).1 0 ≡ true =
      delete_rows_affected id table ∙ rw h refl in
    rw affected (ap (λ t. (t, inl not_found)) (delete_rows_absent id table h))

-- A call does to the table what is promised, and answers it.
abbrev Agrees : List ConnectionRow × Answer → Saved × Answer → Type 0
Agrees r p = Holds r.0 p.0 × (r.1 ≡ p.1)

put_same : (id : String) (o : Option Connection) (m : Saved) → put id o m id ≡ o
put_same id o m = rw (beq_refl id) refl

creating-Agrees :
    (table : List ConnectionRow) (m : Saved) (id now : String) (c : NewConnection)
    → Holds table m
    → Agrees (run (creating id now c) table) (promised (creating id now c) m)
creating-Agrees table m id now c h = elim (Option-cases (select id table)) [
  | inl e ↦
      let holds = append-Holds table m id now c h e in
      let m' = put id (some (saved id now now c)) m in
      let read : get (append (new_row id now c) table) id ≡ inr (saved id now now c) =
        get_lem (append (new_row id now c) table) m' id holds
        ∙ ap answer_of (put_same id (some (saved id now now c)) m) in
      rw (create_new table id now c e, known_none table m id h e) (holds, ap connection read)
  | inr (row, e) ↦
      let (old, known, reads) = known_some table m id row h e in
      rw (create_there table id now c row e, known) (h, refl)
]

updating-Agrees :
    (table : List ConnectionRow) (m : Saved) (id now : String) (c : NewConnection)
    → Holds table m
    → Agrees (run (updating id now c) table) (promised (updating id now c) m)
updating-Agrees table m id now c h = elim (Option-cases (select id table)) [
  | inl e ↦ rw (update_absent table id now c e, known_none table m id h e) (h, refl)
  | inr (row, e) ↦
      let (old, known, reads) = known_some table m id row h e in
      let holds = update-Holds table m id now c row old h e reads in
      let edited = saved old.id old.created_at now c in
      let table' = (update_rows id (edited_row now c) table).0 in
      let read : get table' id ≡ inr edited =
        get_lem table' (put id (some edited) m) id holds
        ∙ ap answer_of (put_same id (some edited) m) in
      rw (update_there table id now c row e, known) (holds, ap connection read)
]

deleting-Agrees :
    (table : List ConnectionRow) (m : Saved) (id : String)
    → Holds table m
    → Agrees (run (deleting id) table) (promised (deleting id) m)
deleting-Agrees table m id h = elim (Option-cases (select id table)) [
  | inl e ↦ rw (delete_absent table id e, known_none table m id h e) (h, refl)
  | inr (row, e) ↦
      let (old, known, reads) = known_some table m id row h e in
      rw (delete_there table id row e, known) (delete-Holds table m id h, refl)
]

run-promised :
    (call : Call) (table : List ConnectionRow) (m : Saved)
    → Holds table m
    → Agrees (run call table) (promised call m)
run-promised (creating id now c) table m h = creating-Agrees table m id now c h
run-promised (updating id now c) table m h = updating-Agrees table m id now c h
run-promised (deleting id) table m h = deleting-Agrees table m id h
run-promised (getting id) table m h = (h, ap connection (get_lem table m id h))

run_all_from :
    (calls : List Call) (table : List ConnectionRow) (m : Saved)
    → Holds table m
    → run_all calls table ≡ promised_all calls m
run_all_from [] table m h = refl
run_all_from (call ∷ calls) table m h =
    let (holds, same) = run-promised call table m h in
    ap (λ a. a ∷ run_all calls (run call table).0) same
    ∙ ap (◌∷◌ (promised call m).1) (run_all_from calls (run call table).0 (promised call m).0 holds)

nothing_Holds : Holds [] (λ j. none)
unfolding select
nothing_Holds j = tt

-- From an empty table on, every history of creating, updating, deleting and fetching connections is
-- answered as by a map from ids to connections: creating under a fresh id and updating under one
-- that is there store and answer the submitted connection, an update keeps the id and the time of
-- creation, and an id that is taken or not there is an error that changes nothing.
pub run_all-promised_all : (calls : List Call) → run_all calls [] ≡ promised_all calls (λ j. none)
run_all-promised_all calls = run_all_from calls [] (λ j. none) nothing_Holds
