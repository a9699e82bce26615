-- ===== src/Kafka/Plan/Examples.antt =====
-- The newest of a topic of two partitions, under an overall budget of five messages.
use offset_explorer_oxide.Common.{◌≡◌, refl, some, none, true, inr, [], ◌∷◌, arith}
use offset_explorer_oxide.Common.Int.{ℤ, pos}
use offset_explorer_oxide.Kafka.Budget.{effective_max_messages_per_partition}
use offset_explorer_oxide.Kafka.Plan.{MessageFilter, Topic, Plan, target_partitions, plan}
use offset_explorer_oxide.Kafka.Plan.Newest.{IsNewest, plan-IsNewest}
use offset_explorer_oxide.Kafka.Plan.Maps.{has}

abbrev orders : Topic
orders = record {
  partitions = pos 0 ∷ pos 1 ∷ [];
  fetch_watermarks = λ p. some (pos 3, pos 10);
  offsets_for_times = λ t. none;
}

abbrev newest_five : MessageFilter
newest_five = record {
  partitions = none;
  max_messages_per_partition = some 4;
  max_total_messages = some 5;
  from_timestamp_ms = none;
  to_timestamp_ms = none;
  offset = none;
}

plan-IsNewest_example :
    (made : Plan) × (plan orders newest_five ≡ inr made)
    × ((p : ℤ)
        → has p (target_partitions orders newest_five) ≡ true
        → IsNewest 3 10 (effective_max_messages_per_partition (some 4)) p made)
plan-IsNewest_example =
    plan-IsNewest orders newest_five (λ p. 3) (λ p. 10) (λ p. refl) (λ p. omega arith)
      (λ p. omega arith) refl refl refl
