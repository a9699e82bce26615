-- ===== src/Kafka/Budget/Fair.antt =====
-- What `distribute_total_budget` promises: the budget is spent, and it is spent evenly.
use native.Mathlib.Nat.{div-mul-le_self}
use mathlib.Core.Path.{subst}
use offset_explorer_oxide.Common.{
  ℕ, ◌-◌, ◌*◌, ◌/◌, ◌≤◌, min, ◌≡◌, ◌∙◌, some, List, [], ◌∷◌, map, arith, length, length-map, inl,
  inr, Bool-cases,
}
use offset_explorer_oxide.Common.Int.{ℤ, pos, pos_part, eqb_ℤ}
use offset_explorer_oxide.Common.Equality.{int_eq}
use offset_explorer_oxide.Common.Dict.{lookup, lookup-nil, lookup-cons}
use offset_explorer_oxide.Common.Ordered.{IsOrdered}
use offset_explorer_oxide.Kafka.Budget.{window_of, distribute_total_budget}
use offset_explorer_oxide.Kafka.Budget.Share.{level, IsFairly, Each, level_fair}
use offset_explorer_oxide.Kafka.Budget.Sorted.{
  size, sizes, sort_by_window-Ascending, length-sort_by_window,
}
use offset_explorer_oxide.Kafka.Budget.Given.{total, given, sizes-given}
use offset_explorer_oxide.Kafka.Budget.Distribute.{
  by_window, first_loop, first_loop_totals, lookup-first_loop, lookup-by_window,
  distribute_total_budget-first_loop,
}

-- The split spends the whole budget, or all that the partitions hold if that is less.
pub total-distribute_total_budget :
    (windows : List (ℤ × ℤ)) (max_total : ℕ)
    → IsOrdered windows
    → (allocated : List (ℤ × ℤ)) × (distribute_total_budget windows (some max_total)
        ≡ some allocated)
      × (total allocated ≡ min max_total (total windows))
total-distribute_total_budget windows max_total o = (
  (first_loop windows max_total).0,
  distribute_total_budget-first_loop windows o max_total,
  (first_loop_totals windows o max_total).0,
)

Each-lookup :
    (l : ℕ) (i : ℤ) (w : ℕ) (ws : List (ℤ × ℕ)) (r s : ℕ)
    → Each l (sizes ws) (sizes (given ws r s))
    → lookup i ws ≡ some w
    → (t : ℕ) × (lookup i (given ws r s) ≡ some t) × IsFairly l w t
unfolding given
Each-lookup l i w [] r s e h = absurd (cc (lookup-nil {V = ℕ} i))
Each-lookup l i w ((p, v) ∷ ws) r s e h = elim (Bool-cases (eqb_ℤ p i)) [
  | inl g ↦
      let t = min v (r / s) in
      let same : v ≡ w = ground (arith, lookup-cons p i v ws, g, h) in
      (
        t,
        ground (arith, lookup-cons p i t (given ws (r - t) (s - 1)), g),
        subst (λ u. IsFairly l u (min v (r / s))) same e.0,
      )
  | inr g ↦
      let t = min v (r / s) in
      let (u, a, b) =
        Each-lookup l i w ws (r - t) (s - 1) e.1 (ground (arith, lookup-cons p i v ws, g, h)) in
      (u, ground (arith, lookup-cons p i t (given ws (r - t) (s - 1)), g, a), b)
]

-- There is a level, not below the even share of the budget, such that every partition is given its
-- whole window or at least the level, and no partition is given more than its window or more than
-- one above the level.
pub distribute_total_budget_fair :
    (windows : List (ℤ × ℤ)) (max_total : ℕ)
    → IsOrdered windows
    → (allocated : List (ℤ × ℤ)) × (l : ℕ) × (distribute_total_budget windows (some max_total)
        ≡ some allocated)
      × (max_total / length windows ≤ l)
      × ((i : ℤ) (w : ℤ)
          → lookup i windows ≡ some w
          → (t : ℕ) × (lookup i allocated ≡ some (pos t)) × IsFairly l (pos_part w) t)
distribute_total_budget_fair windows max_total o =
    let c = max_total / length windows in
    let ws = by_window windows in
    let l = level c (sizes ws) max_total (length ws) in
    (
      (first_loop windows max_total).0,
      l,
      distribute_total_budget-first_loop windows o max_total,
      fair.0,
      λ i w h.
          let (t, a, b) =
            Each-lookup l i (pos_part w) ws max_total (length ws) fair.1
              (rw (lookup-by_window windows o i, h)) in
          (t, rw (lookup-first_loop windows o max_total i, a), b),
    )
  where
    count : length (by_window windows) ≡ length windows
    count = length-sort_by_window (map window_of windows) ∙ length-map window_of windows

    room : max_total / length windows * length (sizes (by_window windows)) ≤ max_total
    room =
        rw (length-map size (by_window windows), count) (div-mul-le_self max_total (length windows))

    fair :
        let c = max_total / length windows in
        let ws = by_window windows in
        let l = level c (sizes ws) max_total (length ws) in
        (c ≤ l) × Each l (sizes ws) (sizes (given ws max_total (length ws)))
    fair =
        let ws = by_window windows in
        rw (sizes-given ws max_total (length ws), ← length-map size ws)
          (level_fair (max_total / length windows) (sizes ws) max_total
            (sort_by_window-Ascending (map window_of windows)) room)
