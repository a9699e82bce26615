-- ===== src/Core/Registry/Breaker.antt =====
-- What the registry answers after any history of calls, told from the history alone.
use offset_explorer_oxide.Common.{
  suc, ◌-◌, ◌^◌, min, String, ◌≡◌, refl, Bool, false, ◌||◌, ◌&&◌, Option, none, some, List, [], ◌∷◌,
  arith, leb, if◌then◌else◌, length, ap, is_some,
}
use offset_explorer_oxide.Common.Equality.{◌==◌, string_eq, pair_eq}
use offset_explorer_oxide.Common.Dict.{lookup, lookup-nil}
use offset_explorer_oxide.Core.Registry.{
  AuthFailures, block_reason, next_failures, is_connected, auth_block_reason, Event, connects,
  disconnects, accepts, clears, forgets, rejects, denies, run,
}
use offset_explorer_oxide.Core.Registry.Session.{view-step}

-- The reasons of the rejections since the last success or clearing of the connection, newest first.
-- Connecting and disconnecting do not interrupt a streak.
abbrev pub streak : String → List Event → List String
streak id [] = []
streak id (rejects j why ∷ h) = if j == id then why ∷ streak id h else streak id h
streak id (accepts j ∷ h) = if j == id then [] else streak id h
streak id (clears j ∷ h) = if j == id then [] else streak id h
streak id (connects j ∷ h) = streak id h
streak id (disconnects j ∷ h) = streak id h
streak id (forgets j ∷ h) = streak id h
streak id (denies j t why ∷ h) = streak id h

-- Two rejections in a row trip the breaker, with the newest reason.
abbrev pub tripped : List String → Option String
tripped [] = none
tripped (why ∷ []) = none
tripped (why ∷ _ ∷ _) = some why

-- A rejection of the connection that comes on top of another one.
abbrev pub trips : String → String → List Event → Bool
trips id j h = j == id && leb 1 (length (streak id h))

abbrev summary : List String → Option AuthFailures
summary [] = none
summary (why ∷ rest) =
    some (record { attempts = min (suc (length rest)) (2 ^ 32 - 1); reason = why })

failures-run :
    (id : String) (h : List Event) → lookup id (run h).auth_failures ≡ summary (streak id h)
unfolding run
failures-run id [] = lookup-nil id
failures-run id (connects j ∷ h) =
    ground (arith, view-step id "" (run h) (connects j), failures-run id h)
failures-run id (disconnects j ∷ h) =
    ground (arith, view-step id "" (run h) (disconnects j), failures-run id h)
failures-run id (accepts j ∷ h) =
    ground (arith, view-step id "" (run h) (accepts j), failures-run id h)
failures-run id (clears j ∷ h) =
    ground (arith, view-step id "" (run h) (clears j), failures-run id h)
failures-run id (forgets j ∷ h) =
    ground (arith, view-step id "" (run h) (forgets j), failures-run id h)
failures-run id (denies j t why ∷ h) =
    ground (arith, view-step id "" (run h) (denies j t why), failures-run id h)
failures-run id (rejects j why ∷ h) =
    ground (arith, view-step id "" (run h) (rejects j why), failures-run id h)

-- After any history a connection is refused exactly when its last two authentication outcomes were
-- rejections with nothing between them that clears the slate, and the reason is the newest one.
pub auth_block_reason-run :
    (id : String) (h : List Event) → auth_block_reason (run h) id ≡ tripped (streak id h)
unfolding auth_block_reason
auth_block_reason-run id h = rw failures-run (step_two (streak id h))
  where
    step_two : (l : List String) → block_reason (summary l) ≡ tripped l
    step_two [] = refl
    step_two (why ∷ []) = refl
    step_two (why ∷ other ∷ l) = ground arith

-- Whether the connection is live: connected, and since then neither disconnected nor tripped.
abbrev pub live_since : String → List Event → Bool
live_since id [] = false
live_since id (connects j ∷ h) = j == id || live_since id h
live_since id (disconnects j ∷ h) = if j == id then false else live_since id h
live_since id (rejects j why ∷ h) = if trips id j h then false else live_since id h
live_since id (accepts j ∷ h) = live_since id h
live_since id (clears j ∷ h) = live_since id h
live_since id (forgets j ∷ h) = live_since id h
live_since id (denies j t why ∷ h) = live_since id h

-- The write denial in force for a topic: the newest one, if no disconnect, success, clearing or
-- trip of the breaker of that connection came after it.
abbrev pub standing : String → String → List Event → Option String
standing id topic [] = none
standing id topic (denies j t why ∷ h) =
    if j == id && t == topic then some why else standing id topic h
standing id topic (disconnects j ∷ h) = if j == id then none else standing id topic h
standing id topic (accepts j ∷ h) = if j == id then none else standing id topic h
standing id topic (clears j ∷ h) = if j == id then none else standing id topic h
standing id topic (forgets j ∷ h) = if j == id then none else standing id topic h
standing id topic (rejects j why ∷ h) = if trips id j h then none else standing id topic h
standing id topic (connects j ∷ h) = standing id topic h

trip_lem :
    (why : String) (l : List String)
    → leb 2 (next_failures (summary l) why).attempts ≡ leb 1 (length l)
trip_lem why [] = refl
trip_lem why (x ∷ l) = ground arith

-- After any history a connection is live exactly when it has been connected and since then neither
-- been disconnected nor had its breaker tripped.
pub is_connected-run : (id : String) (h : List Event) → is_connected (run h) id ≡ live_since id h
unfolding run is_connected
is_connected-run id [] = ap is_some (lookup-nil id)
is_connected-run id (connects j ∷ h) =
    ground (arith, view-step id "" (run h) (connects j), is_connected-run id h)
is_connected-run id (disconnects j ∷ h) =
    ground (arith, view-step id "" (run h) (disconnects j), is_connected-run id h)
is_connected-run id (accepts j ∷ h) =
    ground (arith, view-step id "" (run h) (accepts j), is_connected-run id h)
is_connected-run id (clears j ∷ h) =
    ground (arith, view-step id "" (run h) (clears j), is_connected-run id h)
is_connected-run id (forgets j ∷ h) =
    ground (arith, view-step id "" (run h) (forgets j), is_connected-run id h)
is_connected-run id (denies j t why ∷ h) =
    ground (arith, view-step id "" (run h) (denies j t why), is_connected-run id h)
is_connected-run id (rejects j why ∷ h) = ground (
  arith,
  view-step id "" (run h) (rejects j why),
  is_connected-run id h,
  failures-run id h,
  trip_lem why (streak id h),
)
