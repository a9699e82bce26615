-- ===== src/Kafka/Budget/Examples.antt =====
-- The fetch planning theorems at concrete topics.
use offset_explorer_oxide.Common.{ℕ, ◌≤◌, ◌≡◌, refl, some, List, [], ◌∷◌, arith}
use offset_explorer_oxide.Common.Int.{ℤ, pos, pos_part}
use offset_explorer_oxide.Common.Equality.{int_eq}
use offset_explorer_oxide.Common.Dict.{lookup}
use offset_explorer_oxide.Common.Ordered.{insert}
use offset_explorer_oxide.Kafka.Budget.{distribute_total_budget}
use offset_explorer_oxide.Kafka.Budget.Share.{IsFairly}
use offset_explorer_oxide.Kafka.Budget.Given.{total}
use offset_explorer_oxide.Kafka.Budget.Distribute.{first_loop, distribute_total_budget-first_loop}
use offset_explorer_oxide.Kafka.Budget.Fair.{
  total-distribute_total_budget, distribute_total_budget_fair,
}

-- Three partitions, one of them with little to read.
abbrev windows : List (ℤ × ℤ)
windows = (pos 0, pos 50) ∷ (pos 1, pos 3) ∷ (pos 2, pos 50) ∷ []

split_of_100 :
    distribute_total_budget windows (some 100)
    ≡ some ((pos 0, pos 48) ∷ (pos 1, pos 3) ∷ (pos 2, pos 49) ∷ [])
unfolding distribute_total_budget insert
split_of_100 = refl

total-distribute_total_budget_example :
    (allocated : List (ℤ × ℤ)) × (distribute_total_budget windows (some 100) ≡ some allocated)
    × (total allocated ≡ 100)
total-distribute_total_budget_example = total-distribute_total_budget windows 100 (omega arith)

distribute_total_budget_fair_example :
    (allocated : List (ℤ × ℤ)) × (l : ℕ) × (distribute_total_budget windows (some 100)
      ≡ some allocated)
    × (33 ≤ l)
    × ((i : ℤ) (w : ℤ)
        → lookup i windows ≡ some w
        → (t : ℕ) × (lookup i allocated ≡ some (pos t)) × IsFairly l (pos_part w) t)
distribute_total_budget_fair_example = distribute_total_budget_fair windows 100 (omega arith)

distribute_total_budget-first_loop_example :
    distribute_total_budget windows (some 100) ≡ some (first_loop windows 100).0
distribute_total_budget-first_loop_example =
    distribute_total_budget-first_loop windows (omega arith) 100
