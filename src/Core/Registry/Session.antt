-- ===== src/Core/Registry/Session.antt =====
-- The registry seen from one connection and one topic: a state machine without maps.
use offset_explorer_oxide.Common.{
  String, ◌≡◌, Bool, true, false, not, Option, none, some, arith, leb, List, if◌then◌else◌, is_some,
}
use offset_explorer_oxide.Common.Equality.{◌==◌, string_eq, pair_eq}
use offset_explorer_oxide.Common.Dict.{lookup, lookup-insert, lookup-remove, lookup-retain, retain}
use offset_explorer_oxide.Core.Registry.{
  ConnectionRegistry, AuthFailures, max_auth_attempts, next_failures, Event, connects, disconnects,
  accepts, clears, forgets, rejects, denies, step,
}

pub record Session : Type 0 where
  pub live : Bool
  pub failures : Option AuthFailures
  pub denial : Option String

abbrev pub view : String → String → ConnectionRegistry → Session
view id topic r = record {
  live = is_some (lookup id r.connected);
  failures = lookup id r.auth_failures;
  denial = lookup (id, topic) r.write_denials;
}

-- The connection that a call is about.
abbrev pub subject : Event → String
subject (connects id) = id
subject (disconnects id) = id
subject (accepts id) = id
subject (clears id) = id
subject (forgets id) = id
subject (rejects id why) = id
subject (denies id topic why) = id

abbrev pub session_reject : Session → AuthFailures → Session
session_reject s entry =
    if leb max_auth_attempts entry.attempts
    then record { live = false; failures = some entry; denial = none }
    else record s { failures = some entry }

-- What a call about the connection itself does to its session.
abbrev pub session_step : String → Session → Event → Session
session_step topic s (connects id) = record s { live = true }
session_step topic s (disconnects id) = record s { live = false; denial = none }
session_step topic s (accepts id) = record s { failures = none; denial = none }
session_step topic s (clears id) = record s { failures = none; denial = none }
session_step topic s (forgets id) = record s { denial = none }
session_step topic s (rejects id why) = session_reject s (next_failures s.failures why)
session_step topic s (denies id t why) = if t == topic then record s { denial = some why } else s

lookup-retain_other :
    (id topic j : String) (m : List ((String × String) × String))
    → lookup (id, topic) (retain (λ key. not (key.0 == j)) m)
      ≡ (if j == id then none else lookup (id, topic) m)
lookup-retain_other id topic j m = ground (
  arith,
  string_eq.agrees j id,
  string_eq.agrees id j,
  lookup-retain (λ key. not (key.0 == j)) (id, topic) m,
)

pub view-step :
    (id topic : String) (r : ConnectionRegistry) (e : Event)
    → view id topic (step r e)
      ≡ (if subject e == id then session_step topic (view id topic r) e else view id topic r)
unfolding step
view-step id topic r (connects j) =
    ground (arith, string_eq.agrees j id, lookup-insert j id tt r.connected)
view-step id topic r (disconnects j) = ground (
  arith,
  string_eq.agrees j id,
  lookup-remove j id r.connected,
  lookup-retain_other id topic j r.write_denials,
)
view-step id topic r (accepts j) = ground (
  arith,
  string_eq.agrees j id,
  lookup-remove j id r.auth_failures,
  lookup-retain_other id topic j r.write_denials,
)
view-step id topic r (clears j) = ground (
  arith,
  string_eq.agrees j id,
  lookup-remove j id r.auth_failures,
  lookup-retain_other id topic j r.write_denials,
)
view-step id topic r (forgets j) =
    ground (arith, string_eq.agrees j id, lookup-retain_other id topic j r.write_denials)
view-step id topic r (rejects j why) = ground (
  arith,
  string_eq.agrees j id,
  lookup-insert j id (next_failures (lookup j r.auth_failures) why) r.auth_failures,
  lookup-remove j id r.connected,
  lookup-retain_other id topic j r.write_denials,
)
view-step id topic r (denies j t why) = ground (
  arith,
  string_eq.agrees j id,
  string_eq.agrees t topic,
  lookup-insert (j, t) (id, topic) why r.write_denials,
)
