-- ===== src/Kafka/Plan/Maps.antt =====
-- Maps that hold the value of one function at each of some partitions, as `collect` builds them.
use offset_explorer_oxide.Common.{
  ◌≡◌, refl, sym, ap, ◌∙◌, Bool, true, false, ◌||◌, some, ◌⊎◌, inl, inr, List, [], ◌∷◌, Bool-cases,
  or_true, arith,
}
use offset_explorer_oxide.Common.Int.{ℤ, eqb_ℤ_iff}
use offset_explorer_oxide.Common.Equality.{◌==◌, int_eq}
use offset_explorer_oxide.Common.Dict.{lookup, beq_refl}
use offset_explorer_oxide.Common.Ordered.{insert, IsOrdered, lookup-insert, insert-IsOrdered}
use offset_explorer_oxide.Core.Errors.{AppError}
use offset_explorer_oxide.Kafka.Plan.{collect_map}

abbrev pub has : ℤ → List ℤ → Bool
has q [] = false
has q (p ∷ ps) = p == q || has q ps

-- The map of a function over some partitions.
abbrev pub map_of : {A : Type 0} → (ℤ → A) → List ℤ → List (ℤ × A)
map_of g [] = []
map_of g (p ∷ ps) = insert p (g p) (map_of g ps)

module _ {A : Type 0} (g : ℤ → A) where
  pub lookup-map_of : (ps : List ℤ) (q : ℤ) → has q ps ≡ true → lookup q (map_of g ps) ≡ some (g q)
  lookup-map_of [] q h = ground (arith, h)
  lookup-map_of (p ∷ ps) q h = lookup-insert p q (g p) (map_of g ps) ∙ elim (Bool-cases (p == q)) [
    | inl same ↦ rw same (ap (λ r. some (g r)) ((eqb_ℤ_iff p q).0 same))
    | inr other ↦ rw other (lookup-map_of ps q (ap (λ b. b || has q ps) (sym other) ∙ h))
  ]

  pub map_of-IsOrdered : (ps : List ℤ) → IsOrdered (map_of g ps)
  map_of-IsOrdered [] = tt
  map_of-IsOrdered (p ∷ ps) = insert-IsOrdered p (g p) (map_of g ps) (map_of-IsOrdered ps)

  pub collect_map-map_of :
      (f : ℤ → AppError ⊎ A) (ps : List ℤ)
      → ((p : ℤ) → has p ps ≡ true → f p ≡ inr (g p))
      → collect_map f ps ≡ inr (map_of g ps)
  unfolding collect_map
  collect_map-map_of f [] reads = refl
  collect_map-map_of f (p ∷ ps) reads =
      let first : f p ≡ inr (g p) = reads p (ap (λ b. b || has p ps) (beq_refl p)) in
      let others =
        collect_map-map_of f ps (λ q h. reads q (ap (λ b. p == q || b) h ∙ or_true (p == q))) in
      rw (first, others) refl
