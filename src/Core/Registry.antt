-- ===== src/Core/Registry.antt =====
-- backend/core/src/registry.rs: which connections are live, how often the broker has rejected their
-- credentials, and which topics it has refused them to write to. Each `Mutex` is held for one
-- operation at a time, so an operation is a function of the whole registry.
pub mod Session
pub mod Breaker
mod Examples
use offset_explorer_oxide.Common.{
  ℕ, zero, suc, ◌+◌, ◌-◌, ◌^◌, min, String, ◌≡◌, Bool, true, false, not, Option, none, some, List,
  [], ◌∷◌, leb, if◌then◌else◌, is_some, unwrap_or,
}
use offset_explorer_oxide.Common.Equality.{◌==◌, string_eq, pair_eq}
use offset_explorer_oxide.Common.Dict.{lookup, insert, remove, retain}

abbrev pub max_auth_attempts : ℕ
max_auth_attempts = 2

pub record AuthFailures : Type 0 where
  pub attempts : ℕ
  pub reason : String

-- A `HashSet` is a map to `Unit`; the write denials are keyed by (connection id, topic).
pub record ConnectionRegistry : Type 0 where
  pub connected : List (String × Unit {0})
  pub auth_failures : List (String × AuthFailures)
  pub write_denials : List ((String × String) × String)

abbrev pub default : ConnectionRegistry
default = record { connected = []; auth_failures = []; write_denials = [] }

unfoldable pub mark_connected : ConnectionRegistry → String → ConnectionRegistry
mark_connected r connection_id = record r { connected = insert connection_id tt r.connected }

unfoldable pub clear_write_denials : ConnectionRegistry → String → ConnectionRegistry
clear_write_denials r connection_id = record r {
  write_denials = retain (λ key. not (key.0 == connection_id)) r.write_denials;
}

unfoldable pub mark_disconnected : ConnectionRegistry → String → ConnectionRegistry
unfolding clear_write_denials
mark_disconnected r connection_id =
    clear_write_denials (record r { connected = remove connection_id r.connected }) connection_id

unfoldable pub is_connected : ConnectionRegistry → String → Bool
is_connected r connection_id = is_some (lookup connection_id r.connected)

-- `attempts.saturating_add(1)` on a `u32`.
abbrev pub saturating_suc : ℕ → ℕ
saturating_suc n = min (n + 1) (2 ^ 32 - 1)

-- The entry after one more rejection: a missing one counts from 0.
abbrev pub next_failures : Option AuthFailures → String → AuthFailures
next_failures none why = record { attempts = saturating_suc 0; reason = why }
next_failures (some f) why = record { attempts = saturating_suc f.attempts; reason = why }

unfoldable pub record_auth_failure : ConnectionRegistry → String → String → ConnectionRegistry
unfolding mark_disconnected
record_auth_failure r connection_id why =
    let entry = next_failures (lookup connection_id r.auth_failures) why in
    let r' : ConnectionRegistry = record r {
      auth_failures = insert connection_id entry r.auth_failures;
    } in
    if leb max_auth_attempts entry.attempts then mark_disconnected r' connection_id else r'

unfoldable pub clear_auth_failures : ConnectionRegistry → String → ConnectionRegistry
unfolding clear_write_denials
clear_auth_failures r connection_id =
    clear_write_denials (record r { auth_failures = remove connection_id r.auth_failures })
      connection_id

unfoldable pub record_auth_success : ConnectionRegistry → String → ConnectionRegistry
unfolding clear_auth_failures
record_auth_success r connection_id = clear_auth_failures r connection_id

abbrev pub block_reason : Option AuthFailures → Option String
block_reason none = none
block_reason (some f) = if leb max_auth_attempts f.attempts then some f.reason else none

unfoldable pub auth_block_reason : ConnectionRegistry → String → Option String
auth_block_reason r connection_id = block_reason (lookup connection_id r.auth_failures)

unfoldable pub record_write_denied :
    ConnectionRegistry → String → String → String → ConnectionRegistry
record_write_denied r connection_id topic why = record r {
  write_denials = insert (connection_id, topic) why r.write_denials;
}

unfoldable pub write_denied_reason : ConnectionRegistry → String → String → Option String
write_denied_reason r connection_id topic = lookup (connection_id, topic) r.write_denials

-- The calls that change the registry, in the order in which its locks admit them.
pub data Event : Type 0 where
  connects disconnects accepts clears forgets : String → Event
  rejects : String → String → Event
  denies : String → String → String → Event

unfoldable pub step : ConnectionRegistry → Event → ConnectionRegistry
unfolding mark_connected mark_disconnected record_auth_success clear_auth_failures
    clear_write_denials record_auth_failure record_write_denied
step r (connects id) = mark_connected r id
step r (disconnects id) = mark_disconnected r id
step r (accepts id) = record_auth_success r id
step r (clears id) = clear_auth_failures r id
step r (forgets id) = clear_write_denials r id
step r (rejects id why) = record_auth_failure r id why
step r (denies id topic why) = record_write_denied r id topic why

-- A history, newest call first, on the registry of a fresh start.
pub run : List Event → ConnectionRegistry
run [] = default
run (e ∷ history) = step (run history) e
