-- ===== src/Kafka/Shards.antt =====
-- backend/kafka/src/client.rs: how `fetch_messages` deals the partitions that it reads to consumers.
-- A consumer's assignment is a list of partitions with offsets; whether librdkafka takes an offset
-- into an assignment is a parameter.
mod Dealt
mod Examples
use offset_explorer_oxide.Common.{
  ℕ, suc, zero, ◌+◌, ◌-◌, ◌%◌, Bool, List, [], ◌∷◌, ◌++◌, ◌⊎◌, inl, inr, ltb, length, unwrap_or,
  if◌then◌else◌,
}
use offset_explorer_oxide.Common.Int.{ℤ, pos, ltb_ℤ}
use offset_explorer_oxide.Common.Equality.{int_eq}
use offset_explorer_oxide.Common.Dict.{lookup}
use offset_explorer_oxide.Core.Errors.{AppError, kafka, ◌>>=◌}
use offset_explorer_oxide.Kafka.Budget.{fetch_shard_count}

unfoldable pub working : List (ℤ × ℤ) → List ℤ
working [] = []
working ((p, limit) ∷ limits) =
    let others = working limits in if ltb_ℤ (pos 0) limit then p ∷ others else others

-- The consumer of the watermark walk, and one for each further shard.
unfoldable pub consumer_count : ℕ → ℕ → ℕ
consumer_count partitions max_message_size_bytes =
    let shard_count = fetch_shard_count partitions max_message_size_bytes in
    1 + (if ltb 1 shard_count then shard_count - 1 else 0)

abbrev pub no_assignments : ℕ → List (List (ℤ × ℤ))
no_assignments zero = []
no_assignments (suc n) = [] ∷ no_assignments n

-- The position is that of a consumer, since it is taken modulo their number.
abbrev pub add_at : ℕ → ℤ × ℤ → List (List (ℤ × ℤ)) → List (List (ℤ × ℤ))
add_at i entry [] = []
add_at zero entry (assignment ∷ rest) = (assignment ++ entry ∷ []) ∷ rest
add_at (suc i) entry (assignment ∷ rest) = assignment ∷ add_at i entry rest

abbrev pub start_of : List (ℤ × ℤ) → ℤ → ℤ
start_of start_offsets p = unwrap_or (lookup p start_offsets) (pos 0)

module _ (takes : ℤ → ℤ → Bool) (start_offsets : List (ℤ × ℤ)) where
  unfoldable pub deal : ℕ → List ℤ → List (List (ℤ × ℤ)) → AppError ⊎ List (List (ℤ × ℤ))
  deal position [] assignments = inr assignments
  deal position (p ∷ ps) assignments =
      let rest =
        deal (suc position) ps
          (add_at (position % length assignments) (p, start_of start_offsets p) assignments) in
      if takes p (start_of start_offsets p) then rest else inl kafka

  unfoldable pub dealt : List (ℤ × ℤ) → ℕ → AppError ⊎ List (List (ℤ × ℤ))
  unfolding working consumer_count deal
  dealt limits max_message_size_bytes =
      deal 0 (working limits)
        (no_assignments (consumer_count (length (working limits)) max_message_size_bytes))
