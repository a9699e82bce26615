-- ===== src/Common/Dict.antt =====
-- Finite maps and sets as association lists: what the source's `HashMap` and `HashSet` promise.
use offset_explorer_oxide.Common.Tests.{if◌then◌else◌, Bool-cases}
use offset_explorer_oxide.Common.Equality.{Key, ◌==◌}
use mathlib.Core.Path.{◌≡◌, refl}
use mathlib.Core.Logic.{inl, inr}
use mathlib.Core.Bool.{Bool, true}
use mathlib.Core.Option.{Option, none, some}
use mathlib.Core.List.{List, [], ◌∷◌}
use native.Mathlib.Omega.{arith}

module _ {ℓ} {K : Type ℓ} ⦃key : Key K⦄ where
  pub beq_refl : (k : K) → (k == k) ≡ true
  beq_refl k = (key.agrees k k).1 refl

module _ {ℓ κ} {K : Type ℓ} {V : Type κ} ⦃key : Key K⦄ where
  unfoldable pub remove : K → List (K × V) → List (K × V)
  remove k [] = []
  remove k ((j, w) ∷ m) = let rest = remove k m in if j == k then rest else (j, w) ∷ rest

  -- `retain`, with a test that reads the key alone.
  unfoldable pub retain : (K → Bool) → List (K × V) → List (K × V)
  retain p [] = []
  retain p ((j, w) ∷ m) = let rest = retain p m in if p j then (j, w) ∷ rest else rest

  -- The value of a key that is there is replaced; a new key goes to the end.
  unfoldable pub insert : K → V → List (K × V) → List (K × V)
  insert added value [] = (added, value) ∷ []
  insert added value ((here, old) ∷ others) =
      let deeper = insert added value others in
      if here == added then (added, value) ∷ others else (here, old) ∷ deeper

  unfoldable pub lookup : K → List (K × V) → Option V
  lookup wanted [] = none
  lookup wanted ((here, value) ∷ others) =
      let deeper = lookup wanted others in if here == wanted then some value else deeper

  pub lookup-nil : (k : K) → lookup k [] ≡ none
  unfolding lookup
  lookup-nil k = refl

  pub lookup-remove :
      (k j : K) (m : List (K × V)) → lookup j (remove k m) ≡ (if k == j then none else lookup j m)
  unfolding lookup remove
  lookup-remove k j [] = ground arith
  lookup-remove k j ((i, w) ∷ m) =
      ground (arith, key.agrees k j, key.agrees i k, key.agrees i j, lookup-remove k j m)

  pub lookup-retain :
      (p : K → Bool) (j : K) (m : List (K × V))
      → lookup j (retain p m) ≡ (if p j then lookup j m else none)
  unfolding lookup retain
  lookup-retain p j [] = ground arith
  lookup-retain p j ((i, w) ∷ m) = elim (Bool-cases (i == j)) [
    | inl h ↦ let same = (key.agrees i j).0 h in ground (arith, same, lookup-retain p j m)
    | inr h ↦ ground (arith, lookup-retain p j m)
  ]

  pub lookup-insert :
      (added wanted : K) (value : V) (m : List (K × V))
      → lookup wanted (insert added value m)
        ≡ (if added == wanted then some value else lookup wanted m)
  unfolding insert lookup
  lookup-insert added wanted value [] = refl
  lookup-insert added wanted value ((here, old) ∷ others) = ground (
    arith,
    lookup-insert added wanted value others,
    key.agrees here added,
    key.agrees here wanted,
    key.agrees added wanted,
  )

module _ {ℓ κ} {K : Type ℓ} {V : Type κ} ⦃key : Key K⦄ where
  -- No key stands twice.
  abbrev pub Distinct : List (K × V) → Type κ
  Distinct [] = Unit
  Distinct ((k, v) ∷ m) = (lookup k m ≡ none) × Distinct m

  pub insert-Distinct : (k : K) (v : V) (m : List (K × V)) → Distinct m → Distinct (insert k v m)
  unfolding insert
  insert-Distinct k v [] d = (lookup-nil k, tt)
  insert-Distinct k v ((j, w) ∷ m) d =
      ground
        (arith, key.agrees j k, key.agrees k j, lookup-insert k j v m, insert-Distinct k v m d.1)

  pub remove-Distinct : (k : K) (m : List (K × V)) → Distinct m → Distinct (remove k m)
  unfolding remove
  remove-Distinct k [] d = tt
  remove-Distinct k ((j, w) ∷ m) d = ground (arith, lookup-remove k j m, remove-Distinct k m d.1)

  pub lookup-cons :
      (i j : K) (v : V) (m : List (K × V))
      → lookup j ((i, v) ∷ m) ≡ (if i == j then some v else lookup j m)
  unfolding lookup
  lookup-cons i j v m = refl
