-- ===== src/Kafka/Plan/Newest.antt =====
-- A fetch whose filter names no offset and no time: the newest messages of each partition.
use offset_explorer_oxide.Common.{
  ℕ, ◌-◌, ◌≤◌, ◌<◌, ◌^◌, min, ◌≡◌, sym, ap, ◌∙◌, true, false, Option, none, some, inr, List,
  unwrap_or, arith,
}
use offset_explorer_oxide.Common.Options.{map_some}
use offset_explorer_oxide.Common.Int.{ℤ, pos, pos_part}
use offset_explorer_oxide.Common.Equality.{int_eq}
use offset_explorer_oxide.Common.Dict.{lookup}
use offset_explorer_oxide.Common.Ordered.{IsOrdered}
use offset_explorer_oxide.Core.Errors.{kafka, not_found, ◌>>=◌, >>=_inr}
use offset_explorer_oxide.Kafka.Budget.{
  effective_max_messages_per_partition, partition_limits, newest_first_start_offset,
  distribute_total_budget,
}
use offset_explorer_oxide.Kafka.Budget.Fair.{distribute_total_budget_fair}
use offset_explorer_oxide.Kafka.Budget.Bounds.{
  limit_of_offsets, partition_limits-IsOrdered, no_budget, newest_first_start_offset_within,
}
use offset_explorer_oxide.Kafka.Plan.{
  MessageFilter, Topic, or_error, transposed, clamped, resolve_offsets_by_timestamp, collect_map,
  watermarks_for_partitions, Plan, watermarks, high_watermark, low_watermark, target_partitions,
  explicit_start_offsets, from_timestamp_start_offsets, newest_first, filter_start_offsets, ends_by,
  start_offsets, plan, sum_positive,
}
use offset_explorer_oxide.Kafka.Plan.Maps.{
  has, map_of, lookup-map_of, map_of-IsOrdered, collect_map-map_of,
}

-- The first numbers of the newest messages: as many as `count`, up to the end.
pub record IsNewest (low high cap : ℕ) (p : ℤ) (made : Plan) : Type 0 where
  pub count : ℕ
  pub limited : lookup p made.limits ≡ some (pos count)
  pub starts : lookup p made.start_offsets ≡ some (pos (high - count))
  pub ends : lookup p made.end_offsets ≡ some (pos high)
  pub few : count ≤ min (high - low) cap

-- A split of an overall budget leaves each partition within its window.
split_within :
    (windows : List (ℤ × ℤ)) (max_total : Option ℕ)
    → IsOrdered windows
    → (limits : List (ℤ × ℤ)) × (distribute_total_budget windows max_total ≡ some limits)
      × ((p : ℤ) (w : ℕ)
          → lookup p windows ≡ some (pos w)
          → (t : ℕ) × (lookup p limits ≡ some (pos t)) × (t ≤ w))
split_within windows none o = (windows, no_budget windows, λ p w h. (w, h, omega arith))
split_within windows (some n) o =
    let (limits, l, same, even, each) = distribute_total_budget_fair windows n o in
    (limits, same, λ p w h. let (t, known, fair) = each p (pos w) h in (t, known, fair.0))

module _ (topic : Topic) (filter : MessageFilter) (low high : ℤ → ℕ)
    (answers : (p : ℤ) → topic.fetch_watermarks p ≡ some (pos (low p), pos (high p)))
    (ordered : (p : ℤ) → low p ≤ high p) (fits : (p : ℤ) → high p < 2 ^ 63) where
  abbrev targets : List ℤ
  targets = target_partitions topic filter

  abbrev mark : ℤ → ℤ × ℤ
  mark p = (pos (low p), pos (high p))

  abbrev marks : List (ℤ × (ℤ × ℤ))
  marks = map_of mark targets

  read_marks : watermarks_for_partitions topic targets ≡ inr marks
  unfolding watermarks_for_partitions
  read_marks =
      collect_map-map_of mark (λ p. or_error kafka (topic.fetch_watermarks p)) targets
        (λ p h. ap (or_error kafka) (answers p))

  known : (p : ℤ) → has p targets ≡ true → watermarks topic filter marks p ≡ inr (mark p)
  known p h = ap (or_error not_found) (lookup-map_of mark targets p h)

  abbrev lows : List (ℤ × ℤ)
  lows = map_of (λ p. pos (low p)) targets

  abbrev highs : List (ℤ × ℤ)
  highs = map_of (λ p. pos (high p)) targets

  read_lows : filter_start_offsets topic filter marks none none ≡ inr lows
  unfolding filter_start_offsets
  read_lows =
      collect_map-map_of (λ p. pos (low p)) (low_watermark topic filter marks) targets
        (λ p h. ap (λ r. r >>= (λ w. inr w.0)) (known p h))

  read_highs : ends_by topic filter marks none ≡ inr highs
  unfolding ends_by
  read_highs =
      collect_map-map_of (λ p. pos (high p)) (high_watermark topic filter marks) targets
        (λ p h. ap (λ r. r >>= (λ w. inr w.1)) (known p h))

  abbrev cap : ℕ
  cap = effective_max_messages_per_partition filter.max_messages_per_partition

  abbrev windows : List (ℤ × ℤ)
  windows = partition_limits lows highs (some cap)

  window_known :
      (p : ℤ) → has p targets ≡ true → lookup p windows ≡ some (pos (min (high p - low p) cap))
  window_known p h =
      limit_of_offsets p lows highs cap (low p) (high p)
        (lookup-map_of (λ q. pos (low q)) targets p h)
        (ap (λ o. unwrap_or o (pos (low p))) (lookup-map_of (λ q. pos (high q)) targets p h))
        (omega (arith, ordered p, fits p)) (fits p)

  module _ (no_offset : filter.offset ≡ none) (no_from : filter.from_timestamp_ms ≡ none)
      (no_to : filter.to_timestamp_ms ≡ none) where
    no_explicit : explicit_start_offsets topic filter marks ≡ inr none
    unfolding explicit_start_offsets
    no_explicit =
        ap
          (λ o.
            transposed
              (map_some (λ offset. collect_map (clamped topic filter marks offset) targets) o))
          no_offset

    no_from_offsets : from_timestamp_start_offsets topic filter marks ≡ inr none
    unfolding from_timestamp_start_offsets
    no_from_offsets =
        ap
          (λ o. transposed (
            map_some
              (λ from_ms.
                resolve_offsets_by_timestamp topic targets from_ms
                  (high_watermark topic filter marks))
              o))
          no_from

    abbrev count_in : List (ℤ × ℤ) → ℤ → ℕ
    count_in limits p = pos_part (unwrap_or (lookup p limits) (pos 0))

    abbrev starts_in : List (ℤ × ℤ) → List (ℤ × ℤ)
    starts_in limits = map_of (λ p. pos (high p - count_in limits p)) targets

    abbrev Within : List (ℤ × ℤ) → Type 0
    Within limits =
        (p : ℤ) (w : ℕ)
        → lookup p windows ≡ some (pos w)
        → (t : ℕ) × (lookup p limits ≡ some (pos t)) × (t ≤ w)

    read_starts :
        (limits : List (ℤ × ℤ))
        → Within limits
        → start_offsets topic filter false lows marks highs limits ≡ inr (starts_in limits)
    unfolding start_offsets
    read_starts limits within =
        collect_map-map_of (λ p. pos (high p - count_in limits p))
          (newest_first topic filter marks highs limits) targets
          (λ p h.
            let (t, given, few) = within p (min (high p - low p) cap) (window_known p h) in
            let here : count_in limits p ≡ t = ap (λ o. pos_part (unwrap_or o (pos 0))) given in
            let back : newest_first_start_offset (pos (low p)) (pos (high p)) (pos t)
                ≡ pos (high p - t) =
              newest_first_start_offset_within (low p) (high p) t (omega (arith, few)) (ordered p)
                (fits p) in
            ap
              (λ r. r >>= (λ w. inr (
                newest_first_start_offset w.0 (unwrap_or (lookup p highs) w.1)
                  (unwrap_or (lookup p limits) (pos 0)))))
              (known p h)
            ∙ ap
                (λ o. inr (
                  newest_first_start_offset (pos (low p)) (unwrap_or o (pos (high p)))
                    (unwrap_or (lookup p limits) (pos 0))))
                (lookup-map_of (λ q. pos (high q)) targets p h)
            ∙ ap
                (λ o.
                  inr
                    (newest_first_start_offset (pos (low p)) (pos (high p)) (unwrap_or o (pos 0))))
                given
            ∙ ap inr (back ∙ ap (λ k. pos (high p - k)) (sym here)))

    abbrev made : List (ℤ × ℤ) → Plan
    made limits = record {
      start_offsets = starts_in limits;
      end_offsets = highs;
      limits = limits;
      total_matching = sum_positive (partition_limits lows highs none);
    }

    planned :
        (limits : List (ℤ × ℤ))
        → distribute_total_budget windows filter.max_total_messages ≡ some limits
        → Within limits
        → plan topic filter ≡ inr (made limits)
    unfolding plan
    planned limits split within =
        >>=_inr (watermarks_for_partitions topic targets) marks _ read_marks
        ∙ >>=_inr (explicit_start_offsets topic filter marks) none _ no_explicit
        ∙ >>=_inr (from_timestamp_start_offsets topic filter marks) none _ no_from_offsets
        ∙ >>=_inr (filter_start_offsets topic filter marks none none) lows _ read_lows
        ∙ >>=_inr (ends_by topic filter marks filter.to_timestamp_ms) highs _
            (ap (ends_by topic filter marks) no_to ∙ read_highs)
        ∙ >>=_inr (or_error kafka (distribute_total_budget windows filter.max_total_messages))
            limits _ (ap (or_error kafka) split)
        ∙ >>=_inr (start_offsets topic filter false lows marks highs limits) (starts_in limits) _
            (read_starts limits within)

    made-IsNewest :
        (limits : List (ℤ × ℤ)) (p : ℤ)
        → Within limits
        → has p targets ≡ true
        → IsNewest (low p) (high p) cap p (made limits)
    made-IsNewest limits p within h =
        let (t, given, few) = within p (min (high p - low p) cap) (window_known p h) in
        let here : count_in limits p ≡ t = ap (λ o. pos_part (unwrap_or o (pos 0))) given in
        record {
          count = t;
          limited = given;
          starts =
              lookup-map_of (λ q. pos (high q - count_in limits q)) targets p h
              ∙ ap (λ k. some (pos (high p - k))) here;
          ends = lookup-map_of (λ q. pos (high q)) targets p h;
          few = few;
        }

-- Where the broker answers for every partition, with watermarks in order and below 2^63, a fetch
-- whose filter names no offset and no time can be planned, and of each partition that it targets it
-- reads the newest messages: from `count` before the high watermark up to it, where the limit of the
-- partition is this `count`, at most what the partition holds and at most the cap for a partition.
pub plan-IsNewest :
    (topic : Topic) (filter : MessageFilter) (low high : ℤ → ℕ)
    → ((p : ℤ) → topic.fetch_watermarks p ≡ some (pos (low p), pos (high p)))
    → ((p : ℤ) → low p ≤ high p)
    → ((p : ℤ) → high p < 2 ^ 63)
    → filter.offset ≡ none
    → filter.from_timestamp_ms ≡ none
    → filter.to_timestamp_ms ≡ none
    → (made : Plan) × (plan topic filter ≡ inr made)
      × ((p : ℤ)
          → has p (target_partitions topic filter) ≡ true
          → IsNewest
              (low p)
              (high p)
              (effective_max_messages_per_partition filter.max_messages_per_partition)
              p
              made)
plan-IsNewest topic filter low high answers ordered fits no_offset no_from no_to =
    let starts = map_of (λ p. pos (low p)) (target_partitions topic filter) in
    let ends = map_of (λ p. pos (high p)) (target_partitions topic filter) in
    let most = effective_max_messages_per_partition filter.max_messages_per_partition in
    let in_order =
      partition_limits-IsOrdered starts ends (some most)
        (map_of-IsOrdered (λ p. pos (low p)) (target_partitions topic filter)) in
    let (limits, split, within) =
      split_within (partition_limits starts ends (some most)) filter.max_total_messages in_order in
    (
      made topic filter low high answers ordered fits no_offset no_from no_to limits,
      planned topic filter low high answers ordered fits no_offset no_from no_to limits split
          within,
      λ p h.
          made-IsNewest topic filter low high answers ordered fits no_offset no_from no_to limits p
            within h,
    )
