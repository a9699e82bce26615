-- ===== src/Kafka/Budget/Given.antt =====
-- What the first loop of `distribute_total_budget` gives to every partition.
use Prim.Native.Nat.{zero}
use native.Mathlib.Nat.{zero-div, le_refl}
use offset_explorer_oxide.Common.{
  ℕ, suc, ◌+◌, ◌-◌, ◌*◌, ◌/◌, ◌≤◌, min, ◌≡◌, refl, sym, ap, ◌∙◌, false, Option, none, some, List,
  [], ◌∷◌, arith, ◌==◌, length, length-map, inl, inr, Option-cases,
}
use offset_explorer_oxide.Common.Int.{ℤ, pos, pos_part, eqb_ℤ_iff}
use offset_explorer_oxide.Common.Equality.{int_eq}
use offset_explorer_oxide.Common.Dict.{lookup, lookup-nil, lookup-cons, Distinct}
use offset_explorer_oxide.Common.Ordered.{
  insert, lookup-insert, IsOrdered, insert-IsOrdered, lookup-Above, Above-IsOrdered,
}
use offset_explorer_oxide.Kafka.Budget.{share_out}
use offset_explorer_oxide.Kafka.Budget.Share.{sum, takes, Ascending, sum-ge, le-share}
use offset_explorer_oxide.Kafka.Budget.Sorted.{size, sizes}

-- What all partitions of a map hold together, negative windows counted as 0.
abbrev pub total : List (ℤ × ℤ) → ℕ
total [] = 0
total ((p, w) ∷ m) = pos_part w + total m

-- The shares with the partitions that get them.
unfoldable pub given : List (ℤ × ℕ) → ℕ → ℕ → List (ℤ × ℕ)
given [] r s = []
given ((p, w) ∷ l) r s = let taken = min w (r / s) in (p, taken) ∷ given l (r - taken) (s - 1)

pub sizes-given : (l : List (ℤ × ℕ)) (r s : ℕ) → sizes (given l r s) ≡ takes (sizes l) r s
unfolding given takes
sizes-given [] r s = refl
sizes-given ((p, w) ∷ l) r s = ap (◌∷◌ (min w (r / s))) (sizes-given l (r - min w (r / s)) (s - 1))

given-zero : (i : ℤ) (l : List (ℤ × ℕ)) (s t : ℕ) → lookup i (given l 0 s) ≡ some t → t ≡ 0
unfolding given
given-zero i [] s t h = cc (lookup-nil {V = ℕ} i)
given-zero i ((p, w) ∷ l) s t h = ground (
  arith,
  zero-div s,
  lookup-cons p i (min w (0 / s)) (given l (0 - min w (0 / s)) (s - 1)),
  given-zero i l (s - 1) t,
)

-- Every partition of the list stands in the map with 0.
abbrev pub Zeroed : List (ℤ × ℕ) → List (ℤ × ℤ) → Type 0
Zeroed l m = (i : ℤ) (w : ℕ) → lookup i l ≡ some w → lookup i m ≡ some (pos 0)

abbrev pub override : Option ℕ → Option ℤ → Option ℤ
override none d = d
override (some t) d = some (pos t)

lookup-given-none :
    (i : ℤ) (l : List (ℤ × ℕ)) (r s : ℕ) → lookup i l ≡ none → lookup i (given l r s) ≡ none
unfolding given
lookup-given-none i [] r s h = h
lookup-given-none i ((p, w) ∷ l) r s h = ground (
  arith,
  lookup-cons p i w l,
  lookup-cons p i (min w (r / s)) (given l (r - min w (r / s)) (s - 1)),
  lookup-given-none i l (r - min w (r / s)) (s - 1),
)

given-idle :
    (i : ℤ) (l : List (ℤ × ℕ)) (m : List (ℤ × ℤ)) (s : ℕ)
    → Zeroed l m
    → lookup i m ≡ override (lookup i (given l 0 s)) (lookup i m)
given-idle i l m s z = elim (Option-cases (lookup i l)) [
  | inl h ↦ rw (lookup-given-none i l 0 s h)
  | inr (w, h) ↦ elim (Option-cases (lookup i (given l 0 s))) [
    | inl g ↦ rw g
    | inr (t, g) ↦ rw g (z i w h ∙ ap (λ t. some (pos t)) (sym (given-zero i l s t g)))
  ]
]

Zeroed-tail :
    (p : ℤ) (w v : ℕ) (l : List (ℤ × ℕ)) (m : List (ℤ × ℤ))
    → lookup p l ≡ none
    → Zeroed ((p, w) ∷ l) m
    → Zeroed l (insert p (pos v) m)
Zeroed-tail p w v l m h z =
    λ i u g. ground (arith, lookup-insert p i (pos v) m, lookup-cons p i w l, eqb_ℤ_iff p i, z i u)

share_out_step :
    (p : ℤ) (w : ℕ) (l : List (ℤ × ℕ)) (m : List (ℤ × ℤ)) (r s : ℕ)
    → let t = min w (suc r / s) in
      share_out ((p, w) ∷ l) m (suc r) s ≡ share_out l (insert p (pos t) m) (suc r - t) (s - 1)
unfolding share_out
share_out_step p w l m r s = rw (positive r)
  where
    positive : (r : ℕ) → (suc r == 0) ≡ false
    positive r = ground arith

-- The first loop gives each partition of the list its share, and leaves the others as they were.
pub lookup-share_out :
    (i : ℤ) (l : List (ℤ × ℕ)) (m : List (ℤ × ℤ)) (r s : ℕ)
    → Distinct l
    → Zeroed l m
    → lookup i (share_out l m r s).0 ≡ override (lookup i (given l r s)) (lookup i m)
unfolding share_out
lookup-share_out i [] m r s d z = unfold given in rw (lookup-nil {V = ℕ} i)
lookup-share_out i ((p, w) ∷ l) m zero s d z = given-idle i ((p, w) ∷ l) m s z
lookup-share_out i ((p, w) ∷ l) m (suc r) s d z =
    let t = min w (suc r / s) in
    rw (share_out_step p w l m r s) (
      lookup-share_out i l (insert p (pos t) m) (suc r - t) (s - 1) d.1
        (Zeroed-tail p w t l m d.0 z)
      ∙ after)
  where
    after :
        let t = min w (suc r / s) in
        override (lookup i (given l (suc r - t) (s - 1))) (lookup i (insert p (pos t) m))
        ≡ override (lookup i (given ((p, w) ∷ l) (suc r) s)) (lookup i m)
    after =
        let t = min w (suc r / s) in
        unfold given in
        ground (
          arith,
          lookup-insert p i (pos t) m,
          lookup-cons p i t (given l (suc r - t) (s - 1)),
          eqb_ℤ_iff p i,
          lookup-given-none p l (suc r - t) (s - 1) d.0,
        )

total-insert :
    (p : ℤ) (t : ℕ) (m : List (ℤ × ℤ))
    → IsOrdered m
    → lookup p m ≡ some (pos 0)
    → total (insert p (pos t) m) ≡ total m + t
unfolding insert
total-insert p t [] o h = cc (lookup-nil {V = ℤ} p)
total-insert p t ((j, w) ∷ m) o h = ground (
  arith,
  eqb_ℤ_iff p j,
  eqb_ℤ_iff j p,
  lookup-cons j p w m,
  lookup-Above j p m o,
  total-insert p t m (Above-IsOrdered j m o),
)

given_of_zero : (l : List (ℤ × ℕ)) (s : ℕ) → sum (sizes (given l 0 s)) ≡ 0
unfolding given
given_of_zero [] s = refl
given_of_zero ((p, w) ∷ l) s = ground (arith, zero-div s, given_of_zero l (s - 1))

sum-given :
    (p : ℤ) (w : ℕ) (l : List (ℤ × ℕ)) (r s : ℕ)
    → let t = min w (r / s) in
      sum (sizes (given ((p, w) ∷ l) r s)) ≡ t + sum (sizes (given l (r - t) (s - 1)))
unfolding given
sum-given p w l r s = refl

pub total-share_out :
    (l : List (ℤ × ℕ)) (m : List (ℤ × ℤ)) (r s : ℕ)
    → IsOrdered m
    → Distinct l
    → Zeroed l m
    → (total (share_out l m r s).0 ≡ total m + sum (sizes (given l r s)))
      × ((share_out l m r s).1 ≡ r - sum (sizes (given l r s)))
unfolding share_out
total-share_out [] m r s o d z = unfold given in omega arith
total-share_out ((p, w) ∷ l) m zero s o d z = omega (arith, given_of_zero ((p, w) ∷ l) s)
total-share_out ((p, w) ∷ l) m (suc r) s o d z =
    let t = min w (suc r / s) in
    let here : lookup p m ≡ some (pos 0) =
      z p w (ground (arith, lookup-cons p p w l, eqb_ℤ_iff p p)) in
    let (a, b) =
      total-share_out l (insert p (pos t) m) (suc r - t) (s - 1) (insert-IsOrdered p (pos t) m o)
        d.1 (Zeroed-tail p w t l m d.0 z) in
    rw (share_out_step p w l m r s) (
      omega (arith, a, total-insert p t m o here, sum-given p w l (suc r) s),
      omega (arith, b, sum-given p w l (suc r) s),
    )

given_filled :
    (p : ℤ) (w : ℕ) (l : List (ℤ × ℕ)) (r : ℕ)
    → w ≤ r / suc (length l)
    → given l (r - w) (length l) ≡ l
    → given ((p, w) ∷ l) r (suc (length l)) ≡ (p, w) ∷ l
unfolding given
given_filled p w l r h ih =
    let e : min w (r / suc (length l)) ≡ w = omega (arith, h) in
    let n : suc (length l) - 1 ≡ length l = omega arith in rw (e, n) (ap (λ t. (p, w) ∷ t) ih)

-- With a budget for everything each window is filled.
pub given-full :
    (l : List (ℤ × ℕ)) (r : ℕ) → Ascending (sizes l) → sum (sizes l) ≤ r → given l r (length l) ≡ l
given-full [] r a h = unfold given in refl
given-full ((p, w) ∷ l) r a h =
    given_filled p w l r fits (given-full l (r - w) a.1 (omega (arith, h)))
  where
    room : length l * w ≤ sum (sizes l)
    room = rw (length-map size l) at (sum-ge w w (sizes l) (le_refl w) a.0)

    fits : w ≤ r / suc (length l)
    fits = le-share w r (length l) (omega (arith, h, room))
