-- ===== src/Kafka/Budget/Sorted.antt =====
-- The windows sorted for `distribute_total_budget`: the same entries, smallest window first.
use offset_explorer_oxide.Common.{
  ℕ, suc, ◌+◌, ◌≤◌, ◌≡◌, refl, none, some, List, [], ◌∷◌, map, arith, if◌then◌else◌, length, All,
  inl, inr, Bool-cases,
}
use offset_explorer_oxide.Common.Int.{ℤ, eqb_ℤ, eqb_ℤ_iff}
use offset_explorer_oxide.Common.Equality.{int_eq}
use offset_explorer_oxide.Common.Dict.{lookup, lookup-cons, Distinct}
use offset_explorer_oxide.Kafka.Budget.{before, insert_by_window, sort_by_window}
use offset_explorer_oxide.Kafka.Budget.Share.{sum, Ascending}

abbrev pub size : ℤ × ℕ → ℕ
size (p, w) = w

abbrev pub sizes : List (ℤ × ℕ) → List ℕ
sizes l = map size l

lookup-insert_by_window :
    (k i : ℤ) (w : ℕ) (l : List (ℤ × ℕ))
    → lookup k l ≡ none
    → lookup i (insert_by_window (k, w) l) ≡ (if eqb_ℤ k i then some w else lookup i l)
unfolding insert_by_window
lookup-insert_by_window k i w [] h = lookup-cons k i w []
lookup-insert_by_window k i w ((j, v) ∷ l) h = ground (
  arith,
  lookup-cons k i w ((j, v) ∷ l),
  lookup-cons j i v l,
  lookup-cons j k v l,
  lookup-cons j i v (insert_by_window (k, w) l),
  eqb_ℤ_iff k i,
  eqb_ℤ_iff j i,
  eqb_ℤ_iff j k,
  lookup-insert_by_window k i w l,
)

insert_by_window-Distinct :
    (k : ℤ) (w : ℕ) (l : List (ℤ × ℕ))
    → lookup k l ≡ none
    → Distinct l
    → Distinct (insert_by_window (k, w) l)
unfolding insert_by_window
insert_by_window-Distinct k w [] h d = (h, tt)
insert_by_window-Distinct k w ((j, v) ∷ l) h d = ground (
  arith,
  h,
  lookup-cons j k v l,
  eqb_ℤ_iff j k,
  eqb_ℤ_iff k j,
  lookup-insert_by_window k j w l,
  insert_by_window-Distinct k w l,
)

pub lookup-sort_by_window :
    (i : ℤ) (l : List (ℤ × ℕ)) → Distinct l → lookup i (sort_by_window l) ≡ lookup i l
unfolding sort_by_window
lookup-sort_by_window i [] d = refl
lookup-sort_by_window i ((k, w) ∷ l) d = ground (
  arith,
  d.0,
  lookup-insert_by_window k i w (sort_by_window l),
  lookup-sort_by_window k l d.1,
  lookup-sort_by_window i l d.1,
  lookup-cons k i w l,
)

pub sort_by_window-Distinct : (l : List (ℤ × ℕ)) → Distinct l → Distinct (sort_by_window l)
unfolding sort_by_window
sort_by_window-Distinct [] d = tt
sort_by_window-Distinct ((k, w) ∷ l) d =
    insert_by_window-Distinct k w (sort_by_window l) (rw (lookup-sort_by_window k l d.1) d.0)
      (sort_by_window-Distinct l d.1)

sum-insert_by_window :
    (x : ℤ × ℕ) (l : List (ℤ × ℕ)) → sum (sizes (insert_by_window x l)) ≡ x.1 + sum (sizes l)
unfolding insert_by_window
sum-insert_by_window x [] = refl
sum-insert_by_window x (y ∷ l) = ground (arith, sum-insert_by_window x l)

pub sum-sort_by_window : (l : List (ℤ × ℕ)) → sum (sizes (sort_by_window l)) ≡ sum (sizes l)
unfolding sort_by_window
sum-sort_by_window [] = refl
sum-sort_by_window (x ∷ l) =
    omega (arith, sum-insert_by_window x (sort_by_window l), sum-sort_by_window l)

length-insert_by_window :
    (x : ℤ × ℕ) (l : List (ℤ × ℕ)) → length (insert_by_window x l) ≡ suc (length l)
unfolding insert_by_window
length-insert_by_window x [] = refl
length-insert_by_window x (y ∷ l) = ground (arith, length-insert_by_window x l)

pub length-sort_by_window : (l : List (ℤ × ℕ)) → length (sort_by_window l) ≡ length l
unfolding sort_by_window
length-sort_by_window [] = refl
length-sort_by_window (x ∷ l) =
    omega (arith, length-insert_by_window x (sort_by_window l), length-sort_by_window l)

All-insert_by_window :
    (a : ℕ) (x : ℤ × ℕ) (l : List (ℤ × ℕ))
    → a ≤ x.1
    → All (λ v. a ≤ v) (sizes l)
    → All (λ v. a ≤ v) (sizes (insert_by_window x l))
unfolding insert_by_window
All-insert_by_window a x [] h all = (h, tt)
All-insert_by_window a x (y ∷ l) h all = elim (Bool-cases (before y x)) [
  | inl e ↦ rw e (all.0, All-insert_by_window a x l h all.1)
  | inr e ↦ rw e (h, all)
]

All-le : (a b : ℕ) (ws : List ℕ) → a ≤ b → All (λ v. b ≤ v) ws → All (λ v. a ≤ v) ws
All-le a b [] h x = tt
All-le a b (w ∷ ws) h x = (omega arith, All-le a b ws h x.1)

insert_by_window-Ascending :
    (x : ℤ × ℕ) (l : List (ℤ × ℕ)) → Ascending (sizes l) → Ascending (sizes (insert_by_window x l))
unfolding insert_by_window
insert_by_window-Ascending x [] a = (tt, tt)
insert_by_window-Ascending x (y ∷ l) a = elim (Bool-cases (before y x)) [
  | inl e ↦
      rw e
        (All-insert_by_window y.1 x l (ground (arith, e)) a.0, insert_by_window-Ascending x l a.1)
  | inr e ↦ let h : x.1 ≤ y.1 = ground (arith, e) in rw e ((h, All-le x.1 y.1 (sizes l) h a.0), a)
]

pub sort_by_window-Ascending : (l : List (ℤ × ℕ)) → Ascending (sizes (sort_by_window l))
unfolding sort_by_window
sort_by_window-Ascending [] = tt
sort_by_window-Ascending (x ∷ l) =
    insert_by_window-Ascending x (sort_by_window l) (sort_by_window-Ascending l)
