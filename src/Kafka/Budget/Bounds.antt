-- ===== src/Kafka/Budget/Bounds.antt =====
-- Read counts and newest-first starts stay in their ranges, and the shard count is bounded.
use Prim.Native.Nat.{zero}
use native.Mathlib.Nat.{div-mul-le_self, mul-le-mul_right}
use offset_explorer_oxide.Common.{
  ℕ, suc, ◌-◌, ◌*◌, ◌/◌, ◌^◌, ◌≤◌, ◌<◌, min, max, ◌≡◌, refl, ap, ◌⊎◌, Option, some, List, [], ◌∷◌,
  map, arith, unwrap_or, inl, inr, Bool-cases, dec_lt,
}
use offset_explorer_oxide.Common.Int.{ℤ, pos, ◌-ℤ◌, eqb_ℤ, eqb_ℤ_iff}
use offset_explorer_oxide.Common.Equality.{int_eq}
use offset_explorer_oxide.Common.Dict.{lookup, lookup-nil, lookup-cons}
use mathlib.Core.Option.{none}
use offset_explorer_oxide.Common.Ordered.{Above, IsOrdered}
use offset_explorer_oxide.Kafka.Budget.{
  distribute_total_budget, limit_of, cap_of, partition_limits, newest_first_start_offset,
  fetch_shard_count, per_shard_prefetch, shard_prefetch_ceiling_bytes,
}
use mathlib.Core.Option

lookup-partition_limits :
    (i : ℤ) (starts ends : List (ℤ × ℤ)) (cap : Option ℕ)
    → lookup i (partition_limits starts ends cap)
      ≡ Option.map (λ first. (limit_of ends (cap_of cap) (i, first)).1) (lookup i starts)
unfolding partition_limits limit_of
lookup-partition_limits i [] ends cap = rw (lookup-nil {V = ℤ} i)
lookup-partition_limits i ((p, s) ∷ starts) ends cap = elim (Bool-cases (eqb_ℤ p i)) [
  | inl h ↦
      let same : p ≡ i = (eqb_ℤ_iff p i).0 h in
      ground (
        arith,
        h,
        lookup-cons p i s starts,
        lookup-cons p i (limit_of ends (cap_of cap) (p, s)).1
            (map (limit_of ends (cap_of cap)) starts),
        ap (λ q. (limit_of ends (cap_of cap) (q, s)).1) same,
      )
  | inr h ↦ ground (
    arith,
    h,
    lookup-cons p i s starts,
    lookup-cons p i (limit_of ends (cap_of cap) (p, s)).1 (map (limit_of ends (cap_of cap)) starts),
    lookup-partition_limits i starts ends cap,
  )
]

-- Between a start and an end offset there are as many messages to read as the offsets are apart,
-- at most the cap, and none if the end lies before the start or is not known.
pub limit_of_offsets :
    (i : ℤ) (starts ends : List (ℤ × ℤ)) (cap s e : ℕ)
    → lookup i starts ≡ some (pos s)
    → unwrap_or (lookup i ends) (pos s) ≡ pos e
    → s < 2 ^ 63
    → e < 2 ^ 63
    → lookup i (partition_limits starts ends (some cap)) ≡ some (pos (min (e - s) cap))
unfolding limit_of ◌-ℤ◌
limit_of_offsets i starts ends cap s e hs he bs be =
    rw (lookup-partition_limits i starts ends (some cap), hs) (ground (arith, he, bs, be))

shards_fit : (n a p c : ℕ) → a * p ≤ c → 1 ≤ n → n ≤ max a 1 → (n ≡ 1) ⊎ (n * p ≤ c)
shards_fit n a p c h lo hi = elim (dec_lt 1 n) [
  | yes many ↦
      let le : n ≤ a = omega (arith, hi, many) in inr (omega (arith, mul-le-mul_right p le, h))
  | no one ↦ inl (omega (arith, one, lo))
]

-- A fetch has 1 to 8 shards, no more than partitions with work if there are any, and the prefetch
-- queues of all shards together stay under the ceiling unless there is a single shard.
pub fetch_shard_count_bounds :
    (partitions max_message_size : ℕ)
    → let n = fetch_shard_count partitions max_message_size in
      (1 ≤ n)
      × (n ≤ 8)
      × ((partitions ≡ 0) ⊎ (n ≤ partitions))
      × ((n ≡ 1) ⊎ (n * per_shard_prefetch max_message_size ≤ shard_prefetch_ceiling_bytes))
unfolding fetch_shard_count
fetch_shard_count_bounds zero m = (omega arith, omega arith, inl refl, inl refl)
fetch_shard_count_bounds (suc k) m = (
  ground arith,
  ground arith,
  inr (ground arith),
  shards_fit (fetch_shard_count (suc k) m) (shard_prefetch_ceiling_bytes / per_shard_prefetch m)
      (per_shard_prefetch m) shard_prefetch_ceiling_bytes
      (div-mul-le_self shard_prefetch_ceiling_bytes (per_shard_prefetch m)) (ground arith)
      (ground arith),
)

limits-Above :
    (ends : List (ℤ × ℤ)) (cap k : ℤ) (starts : List (ℤ × ℤ))
    → Above k starts
    → Above k (map (limit_of ends cap) starts)
unfolding limit_of
limits-Above ends cap k [] a = tt
limits-Above ends cap k ((p, first) ∷ starts) (h, a) = (h, limits-Above ends cap p starts a)

-- The limits stand in the order of the partitions.
pub partition_limits-IsOrdered :
    (starts ends : List (ℤ × ℤ)) (cap : Option ℕ)
    → IsOrdered starts
    → IsOrdered (partition_limits starts ends cap)
unfolding partition_limits limit_of
partition_limits-IsOrdered [] ends cap o = tt
partition_limits-IsOrdered ((p, first) ∷ starts) ends cap o =
    limits-Above ends (cap_of cap) p starts o

-- Back from the end by no more than there is.
pub newest_first_start_offset_within :
    (low high taken : ℕ)
    → taken ≤ high - low
    → low ≤ high
    → high < 2 ^ 63
    → newest_first_start_offset (pos low) (pos high) (pos taken) ≡ pos (high - taken)
unfolding newest_first_start_offset ◌-ℤ◌
newest_first_start_offset_within low high taken h order fits = ground (arith, h, order, fits)

-- Without an overall budget the windows are the limits.
pub no_budget : (windows : List (ℤ × ℤ)) → distribute_total_budget windows none ≡ some windows
unfolding distribute_total_budget
no_budget windows = refl
