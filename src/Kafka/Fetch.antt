-- ===== src/Kafka/Fetch.antt =====
-- backend/kafka/src/client.rs: the poll loop of `fetch_messages`. What the sweep over the consumers
-- hands it is a list of results, each with the cancellation flag as the loop reads it before that
-- poll; base64 is a parameter. Times are in milliseconds.
pub mod Taken
pub mod Collected
pub mod Delivered
pub mod Unfinished
pub mod Counted
pub mod Ended
pub mod Idle
mod Examples
use offset_explorer_oxide.Common.{
  ℕ, ◌+◌, ◌-◌, ◌%◌, ◌^◌, String, Bool, true, false, not, ◌&&◌, Option, none, some, List, [], ◌∷◌,
  ◌++◌, map, ltb, leb, ◌==◌, if◌then◌else◌, length, unwrap_or, is_some,
}
use offset_explorer_oxide.Common.Options.{map_some}
use offset_explorer_oxide.Common.Int.{ℤ, pos, pos_part, neg_part, ◌-ℤ◌, ltb_ℤ}
use offset_explorer_oxide.Common.Equality.{int_eq}
use offset_explorer_oxide.Common.Dict.{lookup}
use offset_explorer_oxide.Common.Dict.{insert as put}
use offset_explorer_oxide.Common.Utf8.{Bytes}
use offset_explorer_oxide.Kafka.Budget.{
  payload_preview_slice, byte_budget_reached, budgeted_payload_bytes,
}

pub record BorrowedMessage : Type 0 where
  pub partition : ℤ
  pub offset : ℤ
  pub timestamp : Option ℤ
  pub key : Option Bytes
  pub payload : Option Bytes
  pub headers : List (String × Option Bytes)

pub record TopicMessage : Type 0 where
  pub partition : ℤ
  pub offset : ℤ
  pub timestamp_ms : Option ℤ
  pub key_base64 : Option String
  pub payload_base64 : Option String
  pub payload_size_bytes : Option ℕ
  pub headers : List (String × Option String)

pub data Polled : Type 0 where
  message : BorrowedMessage → Polled
  partition_eof : ℤ → Polled
  poll_error : String → Polled
  nothing : Polled

pub record Fetch : Type 0 where
  pub encode : Bytes → String
  pub include_payload : Bool
  pub max_payload_preview_bytes : Option ℕ
  pub max_total_payload_bytes : Option ℕ
  pub end_offsets : List (ℤ × ℤ)
  pub total_target : ℤ
  pub poll_slice : ℕ

pub record Fetching : Type 0 where
  pub unfinished : ℕ
  pub finished : List (ℤ × Unit {0})
  pub remaining : List (ℤ × ℤ)
  pub collected : List TopicMessage
  pub idle_elapsed : ℕ
  pub last_poll_error : Option String
  pub payload_bytes_read : ℕ
  pub stopped_at_byte_budget : Bool

abbrev pub idle_timeout : ℕ
idle_timeout = 10000

-- The partitions with something to read.
unfoldable pub count_working : List (ℤ × ℤ) → ℕ
count_working [] = 0
count_working ((p, limit) ∷ limits) =
    let others = count_working limits in if ltb_ℤ (pos 0) limit then 1 + others else others

-- Where the loop starts.
unfoldable pub start : List (ℤ × ℤ) → Fetching
unfolding count_working
start limits = record {
  unfinished = count_working limits;
  finished = [];
  remaining = limits;
  collected = [];
  idle_elapsed = 0;
  last_poll_error = none;
  payload_bytes_read = 0;
  stopped_at_byte_budget = false;
}

-- `unfinished -= 1` on a `usize`.
abbrev pub minus_one : ℕ → ℕ
minus_one n = if n == 0 then 2 ^ 64 - 1 else n - 1

-- A partition is finished once.
unfoldable pub finish : ℤ → Fetching → Fetching
finish partition s =
    if is_some (lookup partition s.finished)
    then s
    else record s { finished = put partition tt s.finished; unfinished = minus_one s.unfinished }

abbrev pub encode_header : (Bytes → String) → String × Option Bytes → String × Option String
encode_header encode (key, value) = (key, map_some encode value)

-- What a message is shown as.
unfoldable pub topic_message : Fetch → BorrowedMessage → TopicMessage
topic_message f m = record {
  partition = m.partition;
  offset = m.offset;
  timestamp_ms = m.timestamp;
  key_base64 = map_some f.encode m.key;
  payload_base64 =
      if f.include_payload
      then some
          (f.encode (payload_preview_slice (unwrap_or m.payload []) f.max_payload_preview_bytes))
      else none;
  payload_size_bytes = map_some length m.payload;
  headers = map (encode_header f.encode) m.headers;
}

-- At or past the end of what the filter asks for.
abbrev pub past_end : Option ℤ → ℤ → Bool
past_end none offset = false
past_end (some end) offset = not (ltb_ℤ offset end)

abbrev pub is_past : Fetch → BorrowedMessage → Bool
is_past f m = past_end (lookup m.partition f.end_offsets) m.offset

unfoldable pub collect : Fetch → BorrowedMessage → ℤ → Fetching → Fetching
unfolding topic_message finish
collect f m budget s =
    let bytes =
      (s.payload_bytes_read
        + budgeted_payload_bytes (length (unwrap_or m.payload [])) f.include_payload)
      % 2 ^ 64 in
    let left = budget -ℤ pos 1 in
    let taken = record s {
      collected = s.collected ++ topic_message f m ∷ [];
      remaining = put m.partition left s.remaining;
      payload_bytes_read = bytes;
      stopped_at_byte_budget = byte_budget_reached bytes f.max_total_payload_bytes;
    } in
    if ltb_ℤ (pos 0) left then taken else finish m.partition taken

-- A message of a partition that has no budget, or none left, is passed over.
unfoldable pub receive : Fetch → BorrowedMessage → Option ℤ → Fetching → Fetching
unfolding collect finish
receive f m none s = s
receive f m (some budget) s =
    if ltb_ℤ (pos 0) budget
    then if is_past f m then finish m.partition s else collect f m budget s
    else s

unfoldable pub step : Fetch → Polled → Fetching → Fetching
unfolding receive finish
step f (message m) s = receive f m (lookup m.partition s.remaining) (record s { idle_elapsed = 0 })
step f (partition_eof p) s = if is_some (lookup p s.remaining) then finish p s else s
step f (poll_error why) s = record s {
  idle_elapsed = s.idle_elapsed + f.poll_slice;
  last_poll_error = some why;
}
step f nothing s = record s { idle_elapsed = s.idle_elapsed + f.poll_slice }

unfoldable pub goes_on : Fetch → Fetching → Bool
goes_on f s =
    not (s.unfinished == 0)
    && ltb_ℤ (pos (length s.collected)) f.total_target
    && ltb s.idle_elapsed idle_timeout
    && not s.stopped_at_byte_budget

-- The loop; none when it still polls after the results that there are.
unfoldable pub poll_loop : Fetch → List (Bool × Polled) → Fetching → Option Fetching
unfolding step goes_on
poll_loop f [] s = if goes_on f s then none else some s
poll_loop f ((cancelled, polled) ∷ events) s =
    let rest = poll_loop f events (step f polled s) in
    if goes_on f s && not cancelled then rest else some s
