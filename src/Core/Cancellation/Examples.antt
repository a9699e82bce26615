-- ===== src/Core/Cancellation/Examples.antt =====
-- The cancellation theorems at concrete histories.
use offset_explorer_oxide.Common.{◌≡◌, refl, true, some, List, [], ◌∷◌, ◌++◌, if◌then◌else◌}
use offset_explorer_oxide.Common.Equality.{string_eq}
use offset_explorer_oxide.Common.Dict.{lookup, insert}
use offset_explorer_oxide.Core.Cancellation.{
  entry, begin, cancel_all_for_connection, Event, begins, cancels, finishes, begins_for, step, run,
}
use offset_explorer_oxide.Core.Cancellation.Flags.{
  IsSound, flag, owns, listed, flag-cancel_all_for_connection, run-IsSound, step-IsSound,
}
use offset_explorer_oxide.Core.Cancellation.History.{begin-run}
use offset_explorer_oxide.Core.Cancellation.Finished.{finished_flag_kept}

-- A Stop that arrives before its fetch.
abbrev early_stop : List Event
early_stop = cancels "a" ∷ begins_for "b" "prod" ∷ []

begin-run_example :
    ((begin (run early_stop) "a").0.cells (begin (run early_stop) "a").1 ≡ true)
    × (lookup "a" (begin (run early_stop) "a").0.flags ≡ some (begin (run early_stop) "a").1)
begin-run_example = begin-run "a" early_stop

abbrev later_calls : List Event
later_calls = cancels "a" ∷ finishes "b" ∷ []

flag-cancel_all_for_connection_example :
    (flag "b" (cancel_all_for_connection (run early_stop) "prod").0 ≡ (
      if owns (lookup "b" (run early_stop).owners) "prod"
      then some true
      else flag "b" (run early_stop)))
    × (listed "b" (cancel_all_for_connection (run early_stop) "prod").1
        ≡ owns (lookup "b" (run early_stop).owners) "prod")
flag-cancel_all_for_connection_example =
    flag-cancel_all_for_connection (run early_stop) "prod" "b" (run-IsSound early_stop)

step-IsSound_example : IsSound (step (run early_stop) (finishes "a"))
step-IsSound_example = step-IsSound (run early_stop) (finishes "a") (run-IsSound early_stop)

abbrev reuse : List Event
reuse = cancels "a" ∷ begins "a" ∷ []

registered : lookup "a" (run (begins "a" ∷ [])).flags ≡ some 0
unfolding run step begin entry lookup insert
registered = refl

finished_flag_kept_example :
    (run (reuse ++ (finishes "a" ∷ begins "a" ∷ []))).cells 0 ≡ (run (begins "a" ∷ [])).cells 0
finished_flag_kept_example = finished_flag_kept "a" 0 (begins "a" ∷ []) reuse registered
