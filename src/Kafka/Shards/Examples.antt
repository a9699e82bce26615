-- ===== src/Kafka/Shards/Examples.antt =====
-- Ten partitions of which nine have something to read, for eight consumers.
use offset_explorer_oxide.Common.{
  ℕ, ◌<◌, ◌≤◌, ◌*◌, ◌⊎◌, true, List, [], ◌∷◌, inr, length, map, ◌≡◌, refl,
}
use offset_explorer_oxide.Common.Int.{ℤ, pos}
use offset_explorer_oxide.Common.Dict.{lookup}
use offset_explorer_oxide.Kafka.Budget.{
  fetch_shard_count, per_shard_prefetch, shard_prefetch_ceiling_bytes,
}
use offset_explorer_oxide.Kafka.Shards.{working, start_of, dealt}
use offset_explorer_oxide.Kafka.Shards.Dealt.{every, of_consumer, dealt-every}

abbrev limits : List (ℤ × ℤ)
limits =
    (pos 0, pos 3)
    ∷ (pos 1, pos 0)
    ∷ (pos 2, pos 5)
    ∷ (pos 3, pos 5)
    ∷ (pos 4, pos 5)
    ∷ (pos 5, pos 5)
    ∷ (pos 6, pos 5)
    ∷ (pos 7, pos 5)
    ∷ (pos 8, pos 5)
    ∷ (pos 9, pos 5)
    ∷ []

abbrev starts : List (ℤ × ℤ)
starts = (pos 0, pos 10) ∷ (pos 9, pos 40) ∷ []

first_consumer :
    map {B = ℤ × ℤ} (λ p. (p, start_of starts p)) (every 8 0 (working limits))
    ≡ (pos 0, pos 10) ∷ (pos 9, pos 40) ∷ []
unfolding working lookup
first_consumer = refl

dealt-every_example :
    let k = fetch_shard_count (length (working limits)) 1048576 in
    (made : List (List (ℤ × ℤ))) × (dealt (λ p o. true) starts limits 1048576 ≡ inr made)
    × (length made ≡ k)
    × (1 ≤ k)
    × (k ≤ 8)
    × ((length (working limits) ≡ 0) ⊎ (k ≤ length (working limits)))
    × ((k ≡ 1) ⊎ (k * per_shard_prefetch 1048576 ≤ shard_prefetch_ceiling_bytes))
    × ((j : ℕ)
        → j < k
        → of_consumer j made ≡ map (λ p. (p, start_of starts p)) (every k j (working limits)))
unfolding working
dealt-every_example =
    dealt-every (λ p o. true) starts limits 1048576
      (refl, (refl, (refl, (refl, (refl, (refl, (refl, (refl, (refl, tt)))))))))
