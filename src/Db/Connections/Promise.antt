-- ===== src/Db/Connections/Promise.antt =====
-- Calls of the connections' table, and what it promises: a map from ids to connections.
use offset_explorer_oxide.Common.{
  String, Option, none, some, ◌⊎◌, inl, inr, List, [], ◌∷◌, if◌then◌else◌,
}
use offset_explorer_oxide.Common.Equality.{◌==◌, string_eq}
use offset_explorer_oxide.Core.Errors.{AppError, db, not_found}
use offset_explorer_oxide.Core.Connection.{Connection, NewConnection}
use offset_explorer_oxide.Db.Connections.{ConnectionRow, row_id, get, create, update, delete}
use offset_explorer_oxide.Db.Connections.Stored.{saved}

pub data Call : Type 0 where
  creating : String → String → NewConnection → Call
  updating : String → String → NewConnection → Call
  deleting : String → Call
  getting : String → Call

pub data Answer : Type 0 where
  connection : AppError ⊎ Connection → Answer
  deletion : AppError ⊎ Unit {0} → Answer

abbrev pub run : Call → List ConnectionRow → List ConnectionRow × Answer
run (creating id now c) table = let r = create table id now c in (r.0, connection r.1)
run (updating id now c) table = let r = update table id now c in (r.0, connection r.1)
run (deleting id) table = let r = delete table id in (r.0, deletion r.1)
run (getting id) table = (table, connection (get table id))

abbrev pub run_all : List Call → List ConnectionRow → List Answer
run_all [] table = []
run_all (call ∷ calls) table = let r = run call table in r.1 ∷ run_all calls r.0

-- What the table promises: a connection, or none, under each id.
abbrev pub Saved : Type 0
Saved = String → Option Connection

abbrev pub put : String → Option Connection → Saved → Saved
put id o m j = if id == j then o else m j

abbrev pub answer_of : Option Connection → AppError ⊎ Connection
answer_of none = inl not_found
answer_of (some c) = inr c

-- The map, given what stands under the id of the call.
abbrev pub promised_create :
    String → String → NewConnection → Saved → Option Connection → Saved × Answer
promised_create id now c m none =
    (put id (some (saved id now now c)) m, connection (inr (saved id now now c)))
promised_create id now c m (some old) = (m, connection (inl db))

abbrev pub promised_update :
    String → String → NewConnection → Saved → Option Connection → Saved × Answer
promised_update id now c m none = (m, connection (inl not_found))
promised_update id now c m (some old) = (
  put id (some (saved old.id old.created_at now c)) m,
  connection (inr (saved old.id old.created_at now c)),
)

abbrev pub promised_delete : String → Saved → Option Connection → Saved × Answer
promised_delete id m none = (m, deletion (inl not_found))
promised_delete id m (some old) = (put id none m, deletion (inr tt))

abbrev pub promised : Call → Saved → Saved × Answer
promised (creating id now c) m = promised_create id now c m (m id)
promised (updating id now c) m = promised_update id now c m (m id)
promised (deleting id) m = promised_delete id m (m id)
promised (getting id) m = (m, connection (answer_of (m id)))

abbrev pub promised_all : List Call → Saved → List Answer
promised_all [] m = []
promised_all (call ∷ calls) m = let r = promised call m in r.1 ∷ promised_all calls r.0
