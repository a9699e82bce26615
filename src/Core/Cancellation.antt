-- ===== src/Core/Cancellation.antt =====
-- backend/core/src/fetch_cancellation.rs: the flags that stop running fetches. An `Arc<AtomicBool>`
-- is an address in a store of cells, so that a fetch keeps its flag after the map forgets it.
-- Each operation holds one lock at a time; calls are taken in the order in which they get the lock.
pub mod Flags
pub mod History
pub mod Finished
mod Examples
use offset_explorer_oxide.Common.{
  ℕ, suc, ◌+◌, String, ◌≡◌, Bool, true, false, Option, none, some, List, [], ◌∷◌, ◌==◌,
  if◌then◌else◌,
}
use offset_explorer_oxide.Common.Equality.{◌==◌ as key_eq, string_eq}
use offset_explorer_oxide.Common.Dict.{lookup, insert, remove}

pub record FetchCancellations : Type 0 where
  pub flags : List (String × ℕ)
  pub owners : List (String × String)
  pub cells : ℕ → Bool
  pub next : ℕ

abbrev pub default : FetchCancellations
default = record { flags = []; owners = []; cells = λ _. false; next = 0 }

abbrev pub store : (ℕ → Bool) → ℕ → Bool → ℕ → Bool
store cells a b i = if i == a then b else cells i

-- `entry(request_id).or_insert_with(|| Arc::new(AtomicBool::new(false)))`
pub entry : FetchCancellations → String → FetchCancellations × ℕ
entry s request_id = elim (lookup request_id s.flags) [
  | some a ↦ (s, a)
  | none ↦ (
    record s {
      flags = insert request_id s.next s.flags;
      cells = store s.cells s.next false;
      next = suc s.next;
    },
    s.next,
  )
]

-- The flag that the poll loop of the fetch checks.
pub begin : FetchCancellations → String → FetchCancellations × ℕ
begin s request_id = entry s request_id

pub begin_for_connection : FetchCancellations → String → String → FetchCancellations × ℕ
begin_for_connection s request_id connection_id =
    begin (record s { owners = insert request_id connection_id s.owners }) request_id

pub cancel : FetchCancellations → String → FetchCancellations
cancel s request_id =
    let (s', a) = entry s request_id in record s' { cells = store s'.cells a true }

-- The ids whose owner is the connection. A `HashMap` has no order of its own: this is one of them.
pub owned_by : String → List (String × String) → List String
owned_by connection_id [] = []
owned_by connection_id ((request_id, owner) ∷ m) =
    let rest = owned_by connection_id m in
    if key_eq owner connection_id then request_id ∷ rest else rest

pub cancel_each : FetchCancellations → List String → FetchCancellations
cancel_each s [] = s
cancel_each s (request_id ∷ ids) = cancel_each (cancel s request_id) ids

pub cancel_all_for_connection : FetchCancellations → String → FetchCancellations × List String
cancel_all_for_connection s connection_id =
    let request_ids = owned_by connection_id s.owners in (cancel_each s request_ids, request_ids)

pub finish : FetchCancellations → String → FetchCancellations
finish s request_id = record s {
  flags = remove request_id s.flags;
  owners = remove request_id s.owners;
}

pub data Event : Type 0 where
  begins cancels finishes disconnects : String → Event
  begins_for : String → String → Event

pub step : FetchCancellations → Event → FetchCancellations
step s (begins id) = (begin s id).0
step s (begins_for id connection) = (begin_for_connection s id connection).0
step s (cancels id) = cancel s id
step s (finishes id) = finish s id
step s (disconnects connection) = (cancel_all_for_connection s connection).0

-- A history of calls, newest first.
pub run : List Event → FetchCancellations
run [] = default
run (e ∷ history) = step (run history) e
