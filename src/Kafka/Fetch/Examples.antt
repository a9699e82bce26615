-- ===== src/Kafka/Fetch/Examples.antt =====
-- Two partitions, the second with an offset that holds no message.
use offset_explorer_oxide.Common.{
  ◌≡◌, refl, Bool, true, false, none, some, List, [], ◌∷◌, ◌++◌, map, take, is_some, ltb, inl, inr,
  Bool-cases, arith,
}
use offset_explorer_oxide.Common.Int.{ℤ, pos, eqb_ℤ, ◌-ℤ◌}
use offset_explorer_oxide.Common.Dict.{insert as put}
use offset_explorer_oxide.Kafka.Budget.{byte_budget_reached, budgeted_payload_bytes}
use offset_explorer_oxide.Common.Equality.{int_eq}
use offset_explorer_oxide.Common.Dict.{lookup, Distinct}
use offset_explorer_oxide.Kafka.Fetch.{
  BorrowedMessage, Polled, message, partition_eof, poll_error, nothing, Fetch, Fetching, start,
  topic_message, poll_loop,
}
use offset_explorer_oxide.Kafka.Fetch.Taken.{in_range, of_partition, allowance}
use offset_explorer_oxide.Kafka.Fetch.Delivered.{halts, results, poll_loop_takes}
use offset_explorer_oxide.Kafka.Fetch.Ended.{reports, poll_loop_stops_at_ends}
use offset_explorer_oxide.Kafka.Fetch.Idle.{poll_loop_idles}

abbrev fetch : Fetch
fetch = record {
  encode = λ bytes. "x";
  include_payload = true;
  max_payload_preview_bytes = none;
  max_total_payload_bytes = none;
  end_offsets = (pos 0, pos 7) ∷ (pos 1, pos 5) ∷ [];
  total_target = pos 3;
  poll_slice = 500;
}

abbrev limits : List (ℤ × ℤ)
limits = (pos 0, pos 1) ∷ (pos 1, pos 2) ∷ []

abbrev at : ℤ → ℤ → BorrowedMessage
at p o = record {
  partition = p;
  offset = o;
  timestamp = none;
  key = none;
  payload = some (1 ∷ 2 ∷ []);
  headers = [];
}

abbrev events : List (Bool × Polled)
events =
    (false, message (at (pos 0) (pos 6)))
    ∷ (false, nothing)
    ∷ (false, message (at (pos 1) (pos 3)))
    ∷ (false, partition_eof (pos 0))
    ∷ (false, partition_eof (pos 1))
    ∷ []

abbrev ended : Fetching
ended = record {
  unfinished = 0;
  finished = (pos 0, tt) ∷ (pos 1, tt) ∷ [];
  remaining = (pos 0, pos 0) ∷ (pos 1, pos 1) ∷ [];
  collected =
      topic_message fetch (at (pos 0) (pos 6)) ∷ topic_message fetch (at (pos 1) (pos 3)) ∷ [];
  idle_elapsed = 0;
  last_poll_error = none;
  payload_bytes_read = 4;
  stopped_at_byte_budget = false;
}

loop_ended : poll_loop fetch events (start limits) ≡ some ended
unfolding poll_loop start lookup put ◌-ℤ◌ byte_budget_reached budgeted_payload_bytes
loop_ended = refl

poll_loop_takes_example :
    (done : List (Bool × Polled)) × (back : List (Bool × Polled)) × (events ≡ done ++ back)
    × (halts fetch back ended ≡ true)
    × ((p : ℤ)
        → of_partition p ended.collected
          ≡ map (topic_message fetch) (take (allowance p limits) (in_range fetch p (results done))))
poll_loop_takes_example = poll_loop_takes fetch limits events ended loop_ended

limits-Distinct : Distinct limits
unfolding lookup
limits-Distinct = (refl, (refl, tt))

all_end : (p : ℤ) → reports p events ≡ ltb 0 (allowance p limits)
unfolding lookup
all_end p = elim (Bool-cases (eqb_ℤ (pos 0) p)) [
  | inl h ↦ rw h refl
  | inr h ↦ rw h (elim (Bool-cases (eqb_ℤ (pos 1) p)) [ inl e ↦ rw e refl | inr e ↦ rw e refl ])
]

poll_loop_stops_at_ends_example : is_some (poll_loop fetch events (start limits)) ≡ true
poll_loop_stops_at_ends_example =
    poll_loop_stops_at_ends fetch limits events limits-Distinct all_end

abbrev silence : List (Bool × Polled)
silence = (false, nothing) ∷ (false, poll_error "down") ∷ []

abbrev waiting : Fetching
waiting = record (start limits) { idle_elapsed = 9000 }

poll_loop_idles_example : is_some (poll_loop fetch silence waiting) ≡ true
poll_loop_idles_example = poll_loop_idles fetch silence waiting (tt, (tt, tt)) (omega arith)
