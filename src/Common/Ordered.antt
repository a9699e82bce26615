-- ===== src/Common/Ordered.antt =====
-- `BTreeMap<i32, i64>`: an association list whose keys ascend.
use offset_explorer_oxide.Common.Tests.{if◌then◌else◌}
use offset_explorer_oxide.Common.Int.{ℤ, ◌<ℤ◌, ◌≤ℤ◌, ltb_ℤ, eqb_ℤ, eqb_ℤ_iff}
use offset_explorer_oxide.Common.Equality.{int_eq}
use offset_explorer_oxide.Common.Dict.{lookup, lookup-cons, lookup-nil, Distinct}
use mathlib.Core.Path.{◌≡◌}
use mathlib.Core.Option.{none, some}
use mathlib.Core.List.{List, [], ◌∷◌}
use native.Mathlib.Omega.{arith}

module _ {V : Type 0} where
  -- Replaces the value of a key, or puts a new key where it belongs.
  unfoldable pub insert : ℤ → V → List (ℤ × V) → List (ℤ × V)
  insert k v [] = (k, v) ∷ []
  insert k v ((j, w) ∷ m) =
      let rest = insert k v m in
      if eqb_ℤ k j then (k, v) ∷ m else if ltb_ℤ k j then (k, v) ∷ (j, w) ∷ m else (j, w) ∷ rest

  -- The keys ascend, and lie above a bound.
  abbrev pub Above : ℤ → List (ℤ × V) → Type 0
  Above k [] = Unit {0}
  Above k ((j, w) ∷ m) = (k <ℤ j) × Above j m

  abbrev pub IsOrdered : List (ℤ × V) → Type 0
  IsOrdered [] = Unit {0}
  IsOrdered ((j, w) ∷ m) = Above j m

  pub lookup-insert :
      (k i : ℤ) (v : V) (m : List (ℤ × V))
      → lookup i (insert k v m) ≡ (if eqb_ℤ k i then some v else lookup i m)
  unfolding insert
  lookup-insert k i v [] = ground (arith, lookup-cons k i v [])
  lookup-insert k i v ((j, w) ∷ m) = ground (
    arith,
    lookup-cons k i v m,
    lookup-cons k i v ((j, w) ∷ m),
    lookup-cons j i w m,
    lookup-cons j i w (insert k v m),
    eqb_ℤ_iff k j,
    lookup-insert k i v m,
  )

  pub lookup-Above : (k i : ℤ) (m : List (ℤ × V)) → Above k m → i ≤ℤ k → lookup i m ≡ none
  lookup-Above k i [] a h = lookup-nil i
  lookup-Above k i ((j, w) ∷ m) a h =
      ground (arith, lookup-cons j i w m, eqb_ℤ_iff j i, lookup-Above j i m a.1)

  pub Above-Distinct : (k : ℤ) (m : List (ℤ × V)) → Above k m → Distinct m
  Above-Distinct k [] a = tt
  Above-Distinct k ((j, w) ∷ m) a = (lookup-Above j j m a.1 (omega arith), Above-Distinct j m a.1)

  pub IsOrdered-Distinct : (m : List (ℤ × V)) → IsOrdered m → Distinct m
  IsOrdered-Distinct [] o = tt
  IsOrdered-Distinct ((j, w) ∷ m) o = (lookup-Above j j m o (omega arith), Above-Distinct j m o)

  insert-Above : (b k : ℤ) (v : V) (m : List (ℤ × V)) → b <ℤ k → Above b m → Above b (insert k v m)
  unfolding insert
  insert-Above b k v [] h a = (h, tt)
  insert-Above b k v ((j, w) ∷ m) h a = ground (arith, eqb_ℤ_iff k j, insert-Above j k v m)

  pub insert-IsOrdered : (k : ℤ) (v : V) (m : List (ℤ × V)) → IsOrdered m → IsOrdered (insert k v m)
  unfolding insert
  insert-IsOrdered k v [] o = tt
  insert-IsOrdered k v ((j, w) ∷ m) o = ground (arith, eqb_ℤ_iff k j, insert-Above j k v m)

  pub Above-IsOrdered : (k : ℤ) (m : List (ℤ × V)) → Above k m → IsOrdered m
  Above-IsOrdered k [] a = tt
  Above-IsOrdered k ((j, w) ∷ m) a = a.1
