-- ===== src/Kafka/Budget/Share.antt =====
-- The split of a budget over windows, as lists of numbers: what the first loop of
-- `distribute_total_budget` hands out.
use native.Mathlib.Nat.{
  div-mul-le_self, lt-div-mul-add, div-le_self, le-div_iff_mul-le, div-le_of_le-mul,
  mul-le-mul_left, le_refl,
}
use offset_explorer_oxide.Common.{
  ℕ, suc, ◌+◌, ◌-◌, ◌*◌, ◌/◌, ◌≤◌, ◌<◌, min, ◌≡◌, refl, ap, ◌⊎◌, inl, inr, List, [], ◌∷◌, arith,
  All, length, if◌then◌else◌, leb, dec_lt,
}

abbrev pub sum : List ℕ → ℕ
sum [] = 0
sum (n ∷ ns) = n + sum ns

-- What each window is given, smallest window first, of a budget shared by `sharers`.
unfoldable pub takes : List ℕ → ℕ → ℕ → List ℕ
takes [] remaining sharers = []
takes (w ∷ ws) remaining sharers =
    let taken = min w (remaining / sharers) in taken ∷ takes ws (remaining - taken) (sharers - 1)

abbrev pub Ascending : List ℕ → Type 0
Ascending [] = Unit {0}
Ascending (w ∷ ws) = All (λ v. w ≤ v) ws × Ascending ws

pub sum-ge : (q w : ℕ) (ws : List ℕ) → q ≤ w → All (λ v. w ≤ v) ws → length ws * q ≤ sum ws
sum-ge q w [] h a = omega arith
sum-ge q w (v ∷ ws) h a = omega (arith, sum-ge q w ws h a.1)

-- The remainder of an even share is shared evenly again.
share_rest : (r n : ℕ) → r < suc (r / suc n) * suc n → r - r / suc n ≤ n * suc (r / suc n)
share_rest r n h = omega (arith, div-mul-le_self r (suc n))

share_bound : (r n : ℕ) → r < suc (r / suc n) * suc n
share_bound r n = omega (arith, lt-div-mul-add {a = r} {b = suc n} (omega arith))

pub takes_step :
    (w : ℕ) (ws : List ℕ) (r n : ℕ) {t : ℕ}
    → min w (r / suc n) ≡ t
    → takes (w ∷ ws) r (suc n) ≡ t ∷ takes ws (r - t) n
unfolding takes
takes_step w ws r n {t} h = let e : suc n - 1 ≡ n = omega arith in rw (h, e)

-- Together the shares are the budget, or all that the windows hold.
pub sum-takes : (ws : List ℕ) (r : ℕ) → Ascending ws → sum (takes ws r (length ws)) ≡ min r (sum ws)
sum-takes [] r a = unfold takes in omega arith
sum-takes (w ∷ ws) r a = elim (dec_lt (r / suc (length ws)) w) [
  | yes more ↦
      let q = r / suc (length ws) in
      let e : min w q ≡ q = omega (arith, more) in
      rw (takes_step w ws r (length ws) e) (
        omega (
          arith,
          sum-takes ws (r - q) a.1,
          share_rest r (length ws) (share_bound r (length ws)),
          sum-ge (suc q) w ws more a.0,
          div-le_self r (suc (length ws)),
        ))
  | no less ↦
      let e : min w (r / suc (length ws)) ≡ w = omega arith in
      rw (takes_step w ws r (length ws) e)
        (omega (arith, sum-takes ws (r - w) a.1, div-le_self r (suc (length ws)), less))
]

-- The level of a split: the share of the first window that is not filled, or the last share.
pub level : ℕ → List ℕ → ℕ → ℕ → ℕ
level c [] r s = c
level c (w ∷ ws) r s =
    let q = r / s in let rest = level q ws (r - w) (s - 1) in if leb w q then rest else q

-- Each window is filled or gets the level at least, and none gets more than one above it.
abbrev pub IsFairly : ℕ → ℕ → ℕ → Type 0
IsFairly l w t = (t ≤ w) × (t ≤ l + 1) × ((t ≡ w) ⊎ (l ≤ t))

abbrev pub Each : ℕ → List ℕ → List ℕ → Type 0
Each l [] [] = Unit {0}
Each l [] (t ∷ ts) = ⊥
Each l (w ∷ ws) [] = ⊥
Each l (w ∷ ws) (t ∷ ts) = IsFairly l w t × Each l ws ts

All-below : (a b : ℕ) (ws : List ℕ) → a ≤ b → All (λ v. b ≤ v) ws → All (λ v. a ≤ v) ws
All-below a b [] h x = tt
All-below a b (w ∷ ws) h x = (omega arith, All-below a b ws h x.1)

pub le-share : (c r n : ℕ) → c * suc n ≤ r → c ≤ r / suc n
le-share c r n h = (le-div_iff_mul-le (omega arith)).1 h

share-le : (q r n : ℕ) → r ≤ suc n * suc q → r / suc n ≤ suc q
share-le q r n h = div-le_of_le-mul (suc n) h

rest-ge : (q r n : ℕ) → q * suc n ≤ r → r ≤ suc n * suc q → q * n ≤ r - r / suc n
rest-ge q r n lo hi = elim (dec_lt q (r / suc n)) [
  | yes over ↦
      let e : r / suc n ≡ suc q = omega (arith, over, share-le q r n hi) in
      omega (arith, e, ap (λ (t : ℕ). t * suc n) e, div-mul-le_self r (suc n))
  | no under ↦ omega (arith, under, lo)
]

rest-le : (q r n : ℕ) → r ≤ suc n * suc q → r - r / suc n ≤ n * suc q
rest-le q r n hi = elim (dec_lt q (r / suc n)) [
  | yes over ↦ omega (arith, over, hi)
  | no under ↦
      let h : suc (r / suc n) ≤ suc q = omega (arith, under) in
      omega (arith, share_rest r n (share_bound r n), mul-le-mul_left n h)
]

-- Once a window is not filled, the shares of those after it stay within one of each other.
after_level :
    (q : ℕ) (ws : List ℕ) (r : ℕ)
    → All (λ v. suc q ≤ v) ws
    → q * length ws ≤ r
    → r ≤ length ws * suc q
    → Each q ws (takes ws r (length ws))
after_level q [] r a lo hi = unfold takes in tt
after_level q (w ∷ ws) r a lo hi = rw (takes_step w ws r (length ws) e) (
  (omega (arith, a.0, at_most), omega (arith, at_most), inr at_least),
  after_level q ws (r - share) a.1 (rest-ge q r (length ws) lo hi) (rest-le q r (length ws) hi),
)
  where
    share : ℕ
    share = r / suc (length ws)

    at_least : q ≤ share
    at_least = le-share q r (length ws) lo

    at_most : share ≤ suc q
    at_most = share-le q r (length ws) hi

    e : min w share ≡ share
    e = omega (arith, a.0, at_most)

level_filled :
    (c w r n : ℕ) (ws : List ℕ)
    → w ≤ r / suc n
    → level c (w ∷ ws) r (suc n) ≡ level (r / suc n) ws (r - w) n
unfolding level
level_filled c w r n ws h = let e : suc n - 1 ≡ n = omega arith in rw e (ground (arith, h))

level_open : (c w r n : ℕ) (ws : List ℕ) → r / suc n < w → level c (w ∷ ws) r (suc n) ≡ r / suc n
unfolding level
level_open c w r n ws h = ground (arith, h)

-- The split is fair at its level, which is not below the even share.
pub level_fair :
    (c : ℕ) (ws : List ℕ) (r : ℕ)
    → Ascending ws
    → c * length ws ≤ r
    → (c ≤ level c ws r (length ws)) × Each (level c ws r (length ws)) ws (takes ws r (length ws))
level_fair c [] r a h = unfold takes level in (omega arith, tt)
level_fair c (w ∷ ws) r a h = elim (dec_lt share w) [
  | yes more ↦
      let e : min w share ≡ share = omega (arith, more) in
      rw (level_open c w r (length ws) ws more, takes_step w ws r (length ws) e)
        (
          even,
          (
            (omega (arith, more), omega arith, inr (le_refl share)),
            after_level share ws (r - share) (All-below (suc share) w ws more a.0)
                (omega (arith, div-mul-le_self r (suc (length ws))))
                (share_rest r (length ws) (share_bound r (length ws))),
          ),
        )
  | no less ↦
      let fits : w ≤ share = omega (arith, less) in
      let e : min w share ≡ w = omega (arith, fits) in
      let (up, rest) =
        level_fair share ws (r - w) a.1
          (omega (arith, fits, div-mul-le_self r (suc (length ws)))) in
      rw (level_filled c w r (length ws) ws fits, takes_step w ws r (length ws) e)
        (omega (arith, even, up), ((le_refl w, omega (arith, fits, up), inl refl), rest))
]
  where
    share : ℕ
    share = r / suc (length ws)

    even : c ≤ share
    even = le-share c r (length ws) h
