-- ===== src/Core/Cancellation/Finished.antt =====
-- The flag of a finished fetch is out of reach of every later call.
use offset_explorer_oxide.Common.{
  ℕ, ◌<◌, String, ◌≡◌, refl, ◌≢◌, Bool, some, List, [], ◌∷◌, ◌++◌, arith, inl, inr, Option-cases,
}
use offset_explorer_oxide.Common.Equality.{string_eq}
use offset_explorer_oxide.Common.Dict.{lookup, insert, lookup-insert, lookup-remove}
use offset_explorer_oxide.Core.Cancellation.{
  FetchCancellations, entry, begin, begin_for_connection, cancel, owned_by, cancel_each,
  cancel_all_for_connection, finish, Event, begins, cancels, finishes, disconnects, begins_for,
  step, run,
}
use offset_explorer_oxide.Core.Cancellation.Flags.{
  IsSound, entry_found, entry_missing, lookup-entry, run-IsSound,
}

-- The cell is allocated, reads `b`, and no id stands for it.
record IsDetached (a : ℕ) (b : Bool) (s : FetchCancellations) : Type 0 where
  below : a < s.next
  gone : (i : String) → lookup i s.flags ≢ some a
  value : s.cells a ≡ b

entry-IsDetached :
    (a : ℕ) (b : Bool) (s : FetchCancellations) (i : String)
    → IsDetached a b s
    → IsDetached a b (entry s i).0
entry-IsDetached a b s i d = elim (Option-cases (lookup i s.flags)) [
  | inl h ↦ rw (entry_missing s i h) (record {
    below = ground (arith, d.below);
    gone = λ j g. ground (arith, lookup-insert i j s.next s.flags, d.gone j, d.below);
    value = ground (arith, d.below, d.value);
  })
  | inr (c, h) ↦ rw (entry_found s i c h) d
]

cancel-IsDetached :
    (a : ℕ) (b : Bool) (s : FetchCancellations) (i : String)
    → IsDetached a b s
    → IsDetached a b (cancel s i)
unfolding cancel
cancel-IsDetached a b s i d =
    let d' = entry-IsDetached a b s i d in
    record {
      below = d'.below;
      gone = d'.gone;
      value = ground (arith, d'.value, d'.gone i, lookup-entry s i i, string_eq.agrees i i);
    }

cancel_each-IsDetached :
    (a : ℕ) (b : Bool) (s : FetchCancellations) (ids : List String)
    → IsDetached a b s
    → IsDetached a b (cancel_each s ids)
unfolding cancel_each
cancel_each-IsDetached a b s [] d = d
cancel_each-IsDetached a b s (i ∷ ids) d =
    cancel_each-IsDetached a b (cancel s i) ids (cancel-IsDetached a b s i d)

step-IsDetached :
    (a : ℕ) (b : Bool) (s : FetchCancellations) (e : Event)
    → IsDetached a b s
    → IsDetached a b (step s e)
unfolding step begin begin_for_connection cancel_all_for_connection finish
step-IsDetached a b s (begins i) d = entry-IsDetached a b s i d
step-IsDetached a b s (begins_for i c) d =
    entry-IsDetached a b (record s { owners = insert i c s.owners }) i
      (record { below = d.below; gone = d.gone; value = d.value })
step-IsDetached a b s (cancels i) d = cancel-IsDetached a b s i d
step-IsDetached a b s (finishes i) d = record {
  below = d.below;
  gone = λ j g. ground (arith, lookup-remove i j s.flags, d.gone j);
  value = d.value;
}
step-IsDetached a b s (disconnects c) d = cancel_each-IsDetached a b s (owned_by c s.owners) d

run-IsDetached :
    (a : ℕ) (b : Bool) (h more : List Event)
    → IsDetached a b (run h)
    → IsDetached a b (run (more ++ h))
unfolding run
run-IsDetached a b h [] d = d
run-IsDetached a b h (e ∷ more) d =
    step-IsDetached a b (run (more ++ h)) e (run-IsDetached a b h more d)

-- Once a fetch has finished, no call changes the flag that it held: not a cancellation under the
-- same id, and not a new fetch that reuses the id.
pub finished_flag_kept :
    (id : String) (a : ℕ) (h more : List Event)
    → lookup id (run h).flags ≡ some a
    → (run (more ++ (finishes id ∷ h))).cells a ≡ (run h).cells a
finished_flag_kept id a h more e =
    (run-IsDetached a ((run h).cells a) (finishes id ∷ h) more detached).value
  where
    sound : IsSound (run h)
    sound = run-IsSound h

    detached : IsDetached a ((run h).cells a) (run (finishes id ∷ h))
    detached =
        unfold run step finish in
        record {
          below = sound.allocated id a e;
          gone = λ j g. ground (
            arith,
            string_eq.agrees id j,
            lookup-remove id j (run h).flags,
            sound.separate id j a e,
          );
          value = refl;
        }
