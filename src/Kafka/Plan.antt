-- ===== src/Kafka/Plan.antt =====
-- backend/kafka/src/client.rs: what `fetch_messages` reads, worked out before its poll loop: the
-- range that the filter asks for in each partition, the limits and the offsets to start at. A panic
-- ends the task and is reported as a Kafka error.
mod Maps
mod Newest
mod Examples
use offset_explorer_oxide.Common.{
  ℕ, ◌+◌, ◌%◌, Bool, true, false, ◌||◌, Option, none, some, ◌⊎◌, inl, inr, List, [], ◌∷◌, map, ltb,
  ◌==◌, if◌then◌else◌, length, keep_if, unwrap_or, is_some,
}
use offset_explorer_oxide.Common.Options.{map_some}
use offset_explorer_oxide.Common.Int.{ℤ, pos, pos_part, ltb_ℤ}
use offset_explorer_oxide.Common.Equality.{int_eq}
use offset_explorer_oxide.Common.Dict.{lookup}
use offset_explorer_oxide.Common.Ordered.{insert}
use offset_explorer_oxide.Core.Errors.{AppError, kafka, not_found, ◌>>=◌}
use offset_explorer_oxide.Kafka.Budget.{
  effective_max_messages_per_partition, partition_limits, clamp_offset, newest_first_start_offset,
  distribute_total_budget, combined_start_offset,
}

pub record MessageFilter : Type 0 where
  pub partitions : Option (List ℤ)
  pub max_messages_per_partition : Option ℕ
  pub max_total_messages : Option ℕ
  pub from_timestamp_ms : Option ℤ
  pub to_timestamp_ms : Option ℤ
  pub offset : Option ℤ

-- What the cluster answers of the topic: the low and the high watermark of a partition, and the
-- offset of a partition at a time, with the sentinels that librdkafka uses for none.
pub record Topic : Type 0 where
  pub partitions : List ℤ
  pub fetch_watermarks : ℤ → Option (ℤ × ℤ)
  pub offsets_for_times : ℤ → Option (ℤ → Option ℤ)

abbrev pub or_error {ℓ} : {A : Type ℓ} → AppError → Option A → AppError ⊎ A
or_error e none = inl e
or_error e (some a) = inr a

-- A map with an entry for each partition, the first failure ends it.
unfoldable pub collect_map : {A : Type 0} → (ℤ → AppError ⊎ A) → List ℤ → AppError ⊎ List (ℤ × A)
collect_map f [] = inr []
collect_map f (p ∷ ps) = do a ← f p; m ← collect_map f ps; inr (insert p a m)

unfoldable pub watermarks_for_partitions : Topic → List ℤ → AppError ⊎ List (ℤ × (ℤ × ℤ))
unfolding collect_map
watermarks_for_partitions topic partitions =
    collect_map (λ p. or_error kafka (topic.fetch_watermarks p)) partitions

-- An offset that is not negative, else the fallback.
abbrev pub resolved_or : AppError ⊎ ℤ → Option ℤ → AppError ⊎ ℤ
resolved_or fallback none = fallback
resolved_or fallback (some raw) = if ltb_ℤ raw (pos 0) then fallback else inr raw

unfoldable pub resolve_offsets_by_timestamp :
    Topic → List ℤ → ℤ → (ℤ → AppError ⊎ ℤ) → AppError ⊎ List (ℤ × ℤ)
unfolding collect_map
resolve_offsets_by_timestamp topic partitions timestamp_ms fallback = do
  resolved ← or_error kafka (topic.offsets_for_times timestamp_ms)
  collect_map (λ p. resolved_or (fallback p) (resolved p)) partitions

abbrev pub transposed {ℓ} : {A : Type ℓ} → Option (AppError ⊎ A) → AppError ⊎ Option A
transposed none = inr none
transposed (some (inl e)) = inl e
transposed (some (inr a)) = inr (some a)

abbrev pub entry_of : Option (List (ℤ × ℤ)) → ℤ → Option ℤ
entry_of none p = none
entry_of (some m) p = lookup p m

pub record Plan : Type 0 where
  pub start_offsets : List (ℤ × ℤ)
  pub end_offsets : List (ℤ × ℤ)
  pub limits : List (ℤ × ℤ)
  pub total_matching : ℕ

unfoldable pub sum_positive : List (ℤ × ℤ) → ℕ
sum_positive [] = 0
sum_positive ((p, available) ∷ m) = pos_part available + sum_positive m

module _ (topic : Topic) (filter : MessageFilter) where
  unfoldable pub target_partitions : List ℤ
  target_partitions = unwrap_or filter.partitions topic.partitions

  -- The entry of a partition among the watermarks.
  abbrev pub watermarks : List (ℤ × (ℤ × ℤ)) → ℤ → AppError ⊎ (ℤ × ℤ)
  watermarks by_partition p = or_error not_found (lookup p by_partition)

  abbrev pub high_watermark : List (ℤ × (ℤ × ℤ)) → ℤ → AppError ⊎ ℤ
  high_watermark by_partition p = do (low, high) ← watermarks by_partition p; inr high

  abbrev pub low_watermark : List (ℤ × (ℤ × ℤ)) → ℤ → AppError ⊎ ℤ
  low_watermark by_partition p = do (low, high) ← watermarks by_partition p; inr low

  abbrev pub clamped : List (ℤ × (ℤ × ℤ)) → ℤ → ℤ → AppError ⊎ ℤ
  clamped by_partition offset p = do
    (low, high) ← watermarks by_partition p
    or_error kafka (clamp_offset offset low high)

  unfoldable pub explicit_start_offsets : List (ℤ × (ℤ × ℤ)) → AppError ⊎ Option (List (ℤ × ℤ))
  unfolding target_partitions collect_map
  explicit_start_offsets by_partition = transposed (
      map_some (λ offset. collect_map (clamped by_partition offset) target_partitions)
        filter.offset)

  unfoldable pub from_timestamp_start_offsets :
      List (ℤ × (ℤ × ℤ)) → AppError ⊎ Option (List (ℤ × ℤ))
  unfolding target_partitions resolve_offsets_by_timestamp
  from_timestamp_start_offsets by_partition = transposed (
      map_some
        (λ from_ms.
          resolve_offsets_by_timestamp topic target_partitions from_ms
            (high_watermark by_partition))
        filter.from_timestamp_ms)

  unfoldable pub filter_start_offsets :
      List (ℤ × (ℤ × ℤ)) → Option (List (ℤ × ℤ)) → Option (List (ℤ × ℤ)) → AppError ⊎ List (ℤ × ℤ)
  unfolding target_partitions collect_map
  filter_start_offsets by_partition explicit from_ts =
      if is_some explicit || is_some from_ts
      then collect_map
          (λ p. or_error kafka (combined_start_offset (entry_of explicit p) (entry_of from_ts p)))
          target_partitions
      else collect_map (low_watermark by_partition) target_partitions

  abbrev pub ends_by : List (ℤ × (ℤ × ℤ)) → Option ℤ → AppError ⊎ List (ℤ × ℤ)
  unfolding target_partitions collect_map resolve_offsets_by_timestamp
  ends_by by_partition none = collect_map (high_watermark by_partition) target_partitions
  ends_by by_partition (some to_ms) =
      resolve_offsets_by_timestamp topic target_partitions to_ms (high_watermark by_partition)

  -- Each partition begins its allocation back from its end, unless the filter pins the start.
  abbrev pub newest_first : List (ℤ × (ℤ × ℤ)) → List (ℤ × ℤ) → List (ℤ × ℤ) → ℤ → AppError ⊎ ℤ
  newest_first by_partition end_offsets limits p = do
    (low, high) ← watermarks by_partition p
    inr (
        newest_first_start_offset low (unwrap_or (lookup p end_offsets) high)
          (unwrap_or (lookup p limits) (pos 0)))

  unfoldable pub start_offsets :
      Bool
      → List (ℤ × ℤ)
      → List (ℤ × (ℤ × ℤ))
      → List (ℤ × ℤ)
      → List (ℤ × ℤ)
      → AppError ⊎ List (ℤ × ℤ)
  unfolding target_partitions collect_map
  start_offsets true filter_start by_partition end_offsets limits = inr filter_start
  start_offsets false filter_start by_partition end_offsets limits =
      collect_map (newest_first by_partition end_offsets limits) target_partitions

  unfoldable pub plan : AppError ⊎ Plan
  unfolding watermarks_for_partitions target_partitions explicit_start_offsets
      from_timestamp_start_offsets filter_start_offsets ends_by start_offsets sum_positive
  plan = do
    by_partition ← watermarks_for_partitions topic target_partitions
    explicit ← explicit_start_offsets by_partition
    from_ts ← from_timestamp_start_offsets by_partition
    filter_start ← filter_start_offsets by_partition explicit from_ts
    end_offsets ← ends_by by_partition filter.to_timestamp_ms
    let windows =
        partition_limits filter_start end_offsets
          (some (effective_max_messages_per_partition filter.max_messages_per_partition))
    limits ← or_error kafka (distribute_total_budget windows filter.max_total_messages)
    starts ←
        start_offsets (is_some explicit || is_some from_ts) filter_start by_partition end_offsets
          limits
    inr (record {
      start_offsets = starts;
      end_offsets = end_offsets;
      limits = limits;
      total_matching = sum_positive (partition_limits filter_start end_offsets none);
    })
