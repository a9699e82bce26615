-- ===== src/Kafka/Budget/Distribute.antt =====
-- `distribute_total_budget` on maps: what every partition is given.
use Prim.Native.Nat.{zero}
use mathlib.Core.Option
use offset_explorer_oxide.Common.{
  ℕ, suc, ◌-◌, ◌≤◌, min, ◌≡◌, refl, ◌∙◌, some, List, [], ◌∷◌, map, arith, length, length-map,
  Option-cases,
}
use offset_explorer_oxide.Common.Int.{ℤ, pos, pos_part, eqb_ℤ_iff}
use offset_explorer_oxide.Common.Equality.{int_eq}
use offset_explorer_oxide.Common.Dict.{lookup, lookup-nil, lookup-cons, Distinct}
use offset_explorer_oxide.Common.Ordered.{Above, IsOrdered, IsOrdered-Distinct}
use offset_explorer_oxide.Kafka.Budget.{
  window_of, zero_of, sort_by_window, share_out, top_up, distribute_total_budget,
}
use offset_explorer_oxide.Kafka.Budget.Share.{sum, sum-takes}
use offset_explorer_oxide.Kafka.Budget.Sorted.{
  size, sizes, lookup-sort_by_window, sort_by_window-Distinct, sum-sort_by_window,
  sort_by_window-Ascending,
}
use offset_explorer_oxide.Kafka.Budget.Given.{
  given, total, sizes-given, Zeroed, override, lookup-share_out, total-share_out, given-full,
}

top_up_none : (l : List (ℤ × ℕ)) (m : List (ℤ × ℤ)) → top_up l m 0 ≡ some m
unfolding top_up
top_up_none [] m = refl
top_up_none (x ∷ l) m = refl

top_up_idle :
    (l : List (ℤ × ℕ)) (m : List (ℤ × ℤ)) (r : ℕ)
    → Distinct l
    → ((i : ℤ) (w : ℕ) → lookup i l ≡ some w → lookup i m ≡ some (pos w))
    → top_up l m r ≡ some m
unfolding top_up
top_up_idle [] m r d full = refl
top_up_idle ((p, w) ∷ l) m zero d full = refl
top_up_idle ((p, w) ∷ l) m (suc r) d full = ground (
  arith,
  full p w,
  lookup-cons p p w l,
  eqb_ℤ_iff p p,
  top_up_idle l m (suc r) d.1
      (λ i v g. full i v (ground (arith, lookup-cons p i w l, eqb_ℤ_iff p i, d.0, g))),
)

lookup-windows :
    (i : ℤ) (m : List (ℤ × ℤ))
    → (lookup i (map window_of m) ≡ Option.map pos_part (lookup i m))
      × (lookup i (map zero_of m) ≡ Option.map (λ _. pos 0) (lookup i m))
lookup-windows i [] = (rw (lookup-nil {V = ℕ} i, lookup-nil {V = ℤ} i), rw (lookup-nil {V = ℤ} i))
lookup-windows i ((p, w) ∷ m) = ground (
  arith,
  lookup-cons p i (pos_part w) (map window_of m),
  lookup-cons p i (pos 0) (map zero_of m),
  lookup-cons p i w m,
  lookup-windows i m,
)

windows-Distinct : (m : List (ℤ × ℤ)) → Distinct m → Distinct (map window_of m)
windows-Distinct [] d = tt
windows-Distinct ((p, w) ∷ m) d =
    (ground (arith, (lookup-windows p m).0, d.0), windows-Distinct m d.1)

zeros-Above : (k : ℤ) (m : List (ℤ × ℤ)) → Above k m → Above k (map zero_of m)
zeros-Above k [] a = tt
zeros-Above k ((p, w) ∷ m) a = (a.0, zeros-Above p m a.1)

zeros-IsOrdered : (m : List (ℤ × ℤ)) → IsOrdered m → IsOrdered (map zero_of m)
zeros-IsOrdered [] o = tt
zeros-IsOrdered ((p, w) ∷ m) o = zeros-Above p m o

total-zeros :
    (m : List (ℤ × ℤ)) → (total (map zero_of m) ≡ 0) × (sum (sizes (map window_of m)) ≡ total m)
total-zeros [] = (refl, refl)
total-zeros ((p, w) ∷ m) = omega (arith, total-zeros m)

-- The list and the map that the two loops of the code run over.
abbrev pub by_window : List (ℤ × ℤ) → List (ℤ × ℕ)
by_window windows = sort_by_window (map window_of windows)

-- What the first loop alone makes of the map.
abbrev pub first_loop : List (ℤ × ℤ) → ℕ → List (ℤ × ℤ) × ℕ
first_loop windows max_total =
    share_out (by_window windows) (map zero_of windows) max_total (length (by_window windows))

module _ (windows : List (ℤ × ℤ)) (o : IsOrdered windows) where
  distinct : Distinct (map window_of windows)
  distinct = windows-Distinct windows (IsOrdered-Distinct windows o)

  pub lookup-by_window :
      (i : ℤ) → lookup i (by_window windows) ≡ Option.map pos_part (lookup i windows)
  lookup-by_window i =
      lookup-sort_by_window i (map window_of windows) distinct ∙ (lookup-windows i windows).0

  by_window-Distinct : Distinct (by_window windows)
  by_window-Distinct = sort_by_window-Distinct (map window_of windows) distinct

  by_window-Zeroed : Zeroed (by_window windows) (map zero_of windows)
  by_window-Zeroed i w h =
      ground (
        arith,
        lookup-by_window i,
        (lookup-windows i windows).1,
        Option-cases (lookup i windows),
        h,
      )

  sizes-by_window : sum (sizes (by_window windows)) ≡ total windows
  sizes-by_window = sum-sort_by_window (map window_of windows) ∙ (total-zeros windows).1

  sum-shares :
      (r : ℕ)
      → sum (sizes (given (by_window windows) r (length (by_window windows))))
        ≡ min r (total windows)
  sum-shares r =
      let l = by_window windows in
      rw (sizes-given l r (length l), ← length-map size l, ← sizes-by_window)
        (sum-takes (sizes l) r (sort_by_window-Ascending (map window_of windows)))

  pub first_loop_totals :
      (max_total : ℕ)
      → (total (first_loop windows max_total).0 ≡ min max_total (total windows))
        × ((first_loop windows max_total).1 ≡ max_total - total windows)
  first_loop_totals max_total =
      let l = by_window windows in
      let (a, b) =
        total-share_out l (map zero_of windows) max_total (length l) (zeros-IsOrdered windows o)
          by_window-Distinct by_window-Zeroed in
      (
        omega (arith, a, sum-shares max_total, total-zeros windows),
        omega (arith, b, sum-shares max_total),
      )

  pub lookup-first_loop :
      (max_total : ℕ) (i : ℤ)
      → lookup i (first_loop windows max_total).0
        ≡ override
            (lookup i (given (by_window windows) max_total (length (by_window windows))))
            (lookup i (map zero_of windows))
  lookup-first_loop max_total i =
      lookup-share_out i (by_window windows) (map zero_of windows) max_total
        (length (by_window windows)) by_window-Distinct by_window-Zeroed

  filled :
      (max_total : ℕ)
      → total windows ≤ max_total
      → (i : ℤ) (w : ℕ) → lookup i (by_window windows) ≡ some w
      → lookup i (first_loop windows max_total).0 ≡ some (pos w)
  filled max_total h i w g =
      lookup-first_loop max_total i
      ∙ rw (
        given-full (by_window windows) max_total (sort_by_window-Ascending (map window_of windows))
            (omega (arith, h, sizes-by_window)),
        g,
      )

  top_up-first_loop :
      (max_total : ℕ) (r : ℕ)
      → r ≡ (first_loop windows max_total).1
      → top_up (by_window windows) (first_loop windows max_total).0 r
        ≡ some (first_loop windows max_total).0
  top_up-first_loop max_total zero e =
      top_up_none (by_window windows) (first_loop windows max_total).0
  top_up-first_loop max_total (suc r) e =
      top_up_idle (by_window windows) (first_loop windows max_total).0 (suc r) by_window-Distinct
        (filled max_total (omega (arith, e, first_loop_totals max_total)))

  -- The second loop of the code finds nothing to hand out: the first has spent the budget, or has
  -- filled every window. So the split never panics, and its result is that of the first loop.
  pub distribute_total_budget-first_loop :
      (max_total : ℕ)
      → distribute_total_budget windows (some max_total) ≡ some (first_loop windows max_total).0
  unfolding distribute_total_budget
  distribute_total_budget-first_loop max_total =
      top_up-first_loop max_total (first_loop windows max_total).1 refl
