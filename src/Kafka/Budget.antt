-- ===== src/Kafka/Budget.antt =====
-- backend/kafka/src/messages.rs: how many messages a fetch reads from each partition, and where it
-- starts. Partition ids (`i32`) and offsets (`i64`) are integers; a subtraction wraps around.
pub mod Share
pub mod Sorted
pub mod Given
pub mod Distribute
pub mod Fair
pub mod Bounds
mod Examples
use Prim.Native.Nat.{zero}
use offset_explorer_oxide.Common.{
  ℕ, suc, ◌+◌, ◌-◌, ◌*◌, ◌/◌, ◌^◌, min, max, Bool, true, false, ◌||◌, ◌&&◌, Option, none, some,
  List, [], ◌∷◌, map, ltb, leb, ◌==◌, if◌then◌else◌, unwrap_or, length, take,
}
use offset_explorer_oxide.Common.Int.{ℤ, pos, negsuc, pos_part, ◌-ℤ◌, ltb_ℤ, min_ℤ, max_ℤ, wrap_i64}
use offset_explorer_oxide.Common.Equality.{int_eq}
use offset_explorer_oxide.Common.Dict.{lookup}
use offset_explorer_oxide.Common.Ordered.{insert}

abbrev pub default_message_cap : ℕ
default_message_cap = 100

pub effective_max_messages_per_partition : Option ℕ → ℕ
effective_max_messages_per_partition max_messages = unwrap_or max_messages default_message_cap

abbrev pub i64_max : ℤ
i64_max = pos (2 ^ 63 - 1)

abbrev pub cap_of : Option ℕ → ℤ
cap_of none = i64_max
cap_of (some n) = pos n

pub limit_of : List (ℤ × ℤ) → ℤ → ℤ × ℤ → ℤ × ℤ
limit_of end_offsets cap (partition, first) =
    let end = unwrap_or (lookup partition end_offsets) first in
    let available = max_ℤ (wrap_i64 (end -ℤ first)) (pos 0) in (partition, min_ℤ available cap)

pub partition_limits : List (ℤ × ℤ) → List (ℤ × ℤ) → Option ℕ → List (ℤ × ℤ)
unfolding limit_of
partition_limits start_offsets end_offsets max_per_partition =
    map (limit_of end_offsets (cap_of max_per_partition)) start_offsets

-- `Ord::clamp` panics when `low` is above `high`: `none`.
pub clamp_offset : ℤ → ℤ → ℤ → Option ℤ
clamp_offset offset low high =
    if ltb_ℤ high low
    then none
    else some (if ltb_ℤ offset low then low else if ltb_ℤ high offset then high else offset)

pub newest_first_start_offset : ℤ → ℤ → ℤ → ℤ
newest_first_start_offset low high cap = max_ℤ (wrap_i64 (high -ℤ cap)) low

-- `window.max(0)`, as a number.
abbrev pub window_of : ℤ × ℤ → ℤ × ℕ
window_of (partition, window) = (partition, pos_part window)

abbrev pub zero_of : ℤ × ℤ → ℤ × ℤ
zero_of (partition, window) = (partition, pos 0)

-- The order of `sort_by_key` by window, then partition.
abbrev pub before : ℤ × ℕ → ℤ × ℕ → Bool
before (p, v) (q, w) = ltb v w || (v == w && ltb_ℤ p q)

pub insert_by_window : ℤ × ℕ → List (ℤ × ℕ) → List (ℤ × ℕ)
insert_by_window x [] = x ∷ []
insert_by_window x (y ∷ l) =
    let rest = insert_by_window x l in if before y x then y ∷ rest else x ∷ y ∷ l

pub sort_by_window : List (ℤ × ℕ) → List (ℤ × ℕ)
unfolding insert_by_window
sort_by_window [] = []
sort_by_window (x ∷ l) = insert_by_window x (sort_by_window l)

-- The first loop. `remaining` starts as a `u32` and no share exceeds it, so the `i64`s of the loop
-- are numbers and nothing wraps; the result is the map with what is left of the budget.
pub share_out : List (ℤ × ℕ) → List (ℤ × ℤ) → ℕ → ℕ → List (ℤ × ℤ) × ℕ
share_out [] allocated remaining sharers = (allocated, remaining)
share_out ((partition, window) ∷ l) allocated remaining sharers =
    let share = remaining / sharers in
    let taken = min window share in
    let rest =
      share_out l (insert partition (pos taken) allocated) (remaining - taken) (sharers - 1) in
    if remaining == 0 then (allocated, remaining) else rest

-- One more for a partition that has room; `none` is the panic of `expect`.
pub top_up : List (ℤ × ℕ) → List (ℤ × ℤ) → ℕ → Option (List (ℤ × ℤ))
top_up [] allocated remaining = some allocated
top_up ((partition, window) ∷ l) allocated zero = some allocated
top_up ((partition, window) ∷ l) allocated (suc remaining) = elim (lookup partition allocated) [
  | none ↦ none
  | some taken ↦
      let more = top_up l (insert partition (pos (pos_part taken + 1)) allocated) remaining in
      let same = top_up l allocated (suc remaining) in
      if ltb_ℤ taken (pos window) then more else same
]

pub distribute_total_budget : List (ℤ × ℤ) → Option ℕ → Option (List (ℤ × ℤ))
unfolding share_out top_up sort_by_window
distribute_total_budget windows none = some windows
distribute_total_budget windows (some max_total) =
    let by_window = sort_by_window (map window_of windows) in
    let (allocated, remaining) =
      share_out by_window (map zero_of windows) max_total (length by_window) in
    top_up by_window allocated remaining

unfoldable pub payload_preview_slice : List ℕ → Option ℕ → List ℕ
payload_preview_slice payload none = payload
payload_preview_slice payload (some max_bytes) = take (min (length payload) max_bytes) payload

unfoldable pub byte_budget_reached : ℕ → Option ℕ → Bool
byte_budget_reached bytes_read none = false
byte_budget_reached bytes_read (some budget) = leb budget bytes_read

unfoldable pub budgeted_payload_bytes : ℕ → Bool → ℕ
budgeted_payload_bytes payload_len include_payload = if include_payload then payload_len else 0

abbrev pub max_fetch_shards : ℕ
max_fetch_shards = 8

abbrev pub shard_prefetch_ceiling_bytes : ℕ
shard_prefetch_ceiling_bytes = 128 * 1024 * 1024

abbrev pub per_shard_prefetch : ℕ → ℕ
per_shard_prefetch max_message_size_bytes = max (max_message_size_bytes * 2) (8 * 1024 * 1024)

pub fetch_shard_count : ℕ → ℕ → ℕ
fetch_shard_count partitions_with_work max_message_size_bytes =
    let affordable =
      max (shard_prefetch_ceiling_bytes / per_shard_prefetch max_message_size_bytes) 1 in
    if partitions_with_work == 0
    then 1
    else min (min partitions_with_work max_fetch_shards) affordable

pub combined_start_offset : Option ℤ → Option ℤ → Option ℤ
combined_start_offset (some a) (some b) = some (max_ℤ a b)
combined_start_offset (some a) none = some a
combined_start_offset none (some b) = some b
combined_start_offset none none = none
