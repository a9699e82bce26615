-- ===== src/Core/Cancellation/History.antt =====
-- What a poll loop reads from its flag, told from the history of calls alone.
use offset_explorer_oxide.Common.{
  ℕ, String, ◌≡◌, ◌≢◌, Bool, false, ◌||◌, Option, none, some, List, [], ◌∷◌, arith, if◌then◌else◌,
  unwrap_or,
}
use offset_explorer_oxide.Common.Equality.{◌==◌ as key_eq, string_eq}
use offset_explorer_oxide.Common.Dict.{lookup, insert, lookup-nil, lookup-insert, lookup-remove}
use offset_explorer_oxide.Core.Cancellation.{
  begin, begin_for_connection, owned_by, cancel_all_for_connection, finish, Event, begins, cancels,
  finishes, disconnects, begins_for, step, run,
}
use offset_explorer_oxide.Core.Cancellation.Flags.{
  flag, owns, lookup-entry, flag-entry, flag-cancel, flag-finish, flag-cancel_all_for_connection,
  owners-cancel_each, owners-cancel, owners-entry, owned-IsSound, run-IsSound,
}

-- The connection that a fetch was registered for, until it finishes.
abbrev pub owner_of : String → List Event → Option String
owner_of id [] = none
owner_of id (begins_for j c ∷ h) = if key_eq j id then some c else owner_of id h
owner_of id (finishes j ∷ h) = if key_eq j id then none else owner_of id h
owner_of id (begins j ∷ h) = owner_of id h
owner_of id (cancels j ∷ h) = owner_of id h
owner_of id (disconnects c ∷ h) = owner_of id h

-- Whether the fetch has been told to stop since it last finished, by its id or by its connection.
abbrev pub told : String → List Event → Bool
told id [] = false
told id (cancels j ∷ h) = key_eq j id || told id h
told id (disconnects c ∷ h) = owns (owner_of id h) c || told id h
told id (finishes j ∷ h) = if key_eq j id then false else told id h
told id (begins j ∷ h) = told id h
told id (begins_for j c ∷ h) = told id h

owner-run : (id : String) (h : List Event) → lookup id (run h).owners ≡ owner_of id h
unfolding run step begin begin_for_connection finish cancel_all_for_connection
owner-run id [] = lookup-nil id
owner-run id (begins j ∷ h) = rw (owners-entry (run h) j) (owner-run id h)
owner-run id (begins_for j c ∷ h) = ground (
  arith,
  owners-entry (record (run h) { owners = insert j c (run h).owners }) j,
  lookup-insert j id c (run h).owners,
  owner-run id h,
)
owner-run id (cancels j ∷ h) = rw (owners-cancel (run h) j) (owner-run id h)
owner-run id (finishes j ∷ h) = ground (arith, lookup-remove j id (run h).owners, owner-run id h)
owner-run id (disconnects c ∷ h) =
    rw (owners-cancel_each (run h) (owned_by c (run h).owners)) (owner-run id h)

-- A flag that no one has registered reads as not set.
told-run : (id : String) (h : List Event) → unwrap_or (flag id (run h)) false ≡ told id h
unfolding run step begin begin_for_connection
told-run id [] = rw (lookup-nil {V = ℕ} id)
told-run id (begins j ∷ h) =
    ground (arith, string_eq.agrees j id, flag-entry (run h) j id (run-IsSound h), told-run id h)
told-run id (begins_for j c ∷ h) = ground (
  arith,
  string_eq.agrees j id,
  flag-entry (record (run h) { owners = insert j c (run h).owners }) j id
      (owned-IsSound (run h) j c (run-IsSound h)),
  told-run id h,
)
told-run id (cancels j ∷ h) =
    ground (arith, flag-cancel (run h) j id (run-IsSound h), told-run id h)
told-run id (finishes j ∷ h) = ground (arith, flag-finish (run h) j id, told-run id h)
told-run id (disconnects c ∷ h) = ground (
  arith,
  (flag-cancel_all_for_connection (run h) c id (run-IsSound h)).0,
  owner-run id h,
  told-run id h,
)

-- A fetch that registers after any history starts stopped exactly when it has already been told to
-- stop, by its id or, if it was registered before, by the disconnect of its connection.
pub begin-run :
    (id : String) (h : List Event)
    → let (s, a) = begin (run h) id in (s.cells a ≡ told id h) × (lookup id s.flags ≡ some a)
unfolding begin
begin-run id h = (
  ground (
    arith,
    string_eq.agrees id id,
    lookup-entry (run h) id id,
    flag-entry (run h) id id (run-IsSound h),
    told-run id h,
  ),
  ground (arith, string_eq.agrees id id, lookup-entry (run h) id id),
)

abbrev pub Unfinished : String → Event → Type 0
Unfinished id e = e ≢ finishes id
