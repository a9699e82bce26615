-- ===== src/Core/Registry/Examples.antt =====
-- The registry's theorems at concrete histories.
use offset_explorer_oxide.Common.{◌≡◌, false, some, List, [], ◌∷◌}
use offset_explorer_oxide.Common.Equality.{string_eq, pair_eq}
use offset_explorer_oxide.Core.Registry.{
  is_connected, auth_block_reason, Event, connects, rejects, denies, run,
}
use offset_explorer_oxide.Core.Registry.Breaker.{auth_block_reason-run, is_connected-run}

-- A wrong password twice, with a reconnect between, and a trip that ends a write denial.
abbrev history : List Event
history =
    rejects "prod" "bad password"
    ∷ connects "prod"
    ∷ rejects "prod" "expired token"
    ∷ denies "prod" "orders" "no Write"
    ∷ connects "prod"
    ∷ []

auth_block_reason-run_example : auth_block_reason (run history) "prod" ≡ some "bad password"
auth_block_reason-run_example = auth_block_reason-run "prod" history

is_connected-run_example : is_connected (run history) "prod" ≡ false
is_connected-run_example = is_connected-run "prod" history
