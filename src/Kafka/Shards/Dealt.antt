-- ===== src/Kafka/Shards/Dealt.antt =====
-- Each consumer gets every so-many-th partition, from its own position on.
use native.Mathlib.Nat.{mod-eq_of_lt, mod-lt, zero-mod, mod_self, suc-mod}
use mathlib.Core.Path.{subst}
use mathlib.Core.List.{append_assoc, append-nil}
use offset_explorer_oxide.Common.{
  ℕ, suc, zero, ◌+◌, ◌-◌, ◌%◌, ◌*◌, ◌<◌, ◌≤◌, Bool, true, List, [], ◌∷◌, ◌++◌, ◌⊎◌, inl, inr, leb,
  length, if◌then◌else◌, ◌≡◌, refl, sym, ap, ◌∙◌, All, map, arith, dec_lt,
}
use offset_explorer_oxide.Common.Int.{ℤ}
use offset_explorer_oxide.Common.Equality.{int_eq}
use offset_explorer_oxide.Core.Errors.{kafka}
use offset_explorer_oxide.Kafka.Budget.{
  fetch_shard_count, per_shard_prefetch, shard_prefetch_ceiling_bytes,
}
use offset_explorer_oxide.Kafka.Budget.Bounds.{fetch_shard_count_bounds}
use offset_explorer_oxide.Kafka.Shards.{
  working, consumer_count, no_assignments, add_at, start_of, deal, dealt,
}

-- The partitions at the positions `first`, `first + count`, `first + 2 count` and so on.
abbrev pub every : ℕ → ℕ → List ℤ → List ℤ
every count first [] = []
every count zero (p ∷ ps) = p ∷ every count (count - 1) ps
every count (suc first) (p ∷ ps) = every count first ps

abbrev pub of_consumer : ℕ → List (List (ℤ × ℤ)) → List (ℤ × ℤ)
of_consumer j [] = []
of_consumer zero (assignment ∷ rest) = assignment
of_consumer (suc j) (assignment ∷ rest) = of_consumer j rest

length-add_at :
    (i : ℕ) (entry : ℤ × ℤ) (given : List (List (ℤ × ℤ)))
    → length (add_at i entry given) ≡ length given
length-add_at i entry [] = refl
length-add_at zero entry (a ∷ given) = refl
length-add_at (suc i) entry (a ∷ given) = ap suc (length-add_at i entry given)

of_consumer-add_at_same :
    (i : ℕ) (entry : ℤ × ℤ) (given : List (List (ℤ × ℤ)))
    → i < length given
    → of_consumer i (add_at i entry given) ≡ of_consumer i given ++ entry ∷ []
of_consumer-add_at_same i entry [] h = ground (arith, h)
of_consumer-add_at_same zero entry (a ∷ given) h = refl
of_consumer-add_at_same (suc i) entry (a ∷ given) h =
    of_consumer-add_at_same i entry given (omega (arith, h))

of_consumer-add_at_other :
    (i j : ℕ) (entry : ℤ × ℤ) (given : List (List (ℤ × ℤ)))
    → (i < j) ⊎ (j < i)
    → of_consumer j (add_at i entry given) ≡ of_consumer j given
of_consumer-add_at_other i j entry [] h = refl
of_consumer-add_at_other zero zero entry (a ∷ given) h = ground (arith, h)
of_consumer-add_at_other zero (suc j) entry (a ∷ given) h = refl
of_consumer-add_at_other (suc i) zero entry (a ∷ given) h = refl
of_consumer-add_at_other (suc i) (suc j) entry (a ∷ given) h =
    of_consumer-add_at_other i j entry given (ground (arith, h))

-- How far consumer `j` is behind the consumer `r` whose turn it is.
abbrev behind : ℕ → ℕ → ℕ → ℕ
behind count r j = if leb r j then j - r else j + count - r

abbrev NextTurn : ℕ → ℕ → ℕ → Type 0
NextTurn k r next = ((next ≡ suc r) × (suc r < k)) ⊎ ((next ≡ 0) × (suc r ≡ k))

next_turn : (n k : ℕ) → n % k < k → NextTurn k (n % k) (suc n % k)
next_turn n k h = elim (dec_lt (suc (n % k)) k) [
  | yes more ↦ inl (suc-mod n k ∙ mod-eq_of_lt more, more)
  | no last ↦
      let same : suc (n % k) ≡ k = omega (arith, last, h) in
      inr (suc-mod n k ∙ ap (λ x. x % k) same ∙ mod_self k, same)
]

behind_own :
    (k r next : ℕ) → r < k → NextTurn k r next → (behind k r r ≡ 0) × (behind k next r ≡ k - 1)
behind_own k r next h turn = (ground arith, ground (arith, h, turn))

behind_other :
    (k r next j : ℕ)
    → r < k
    → j < k
    → (r < j) ⊎ (j < r)
    → NextTurn k r next
    → behind k r j ≡ suc (behind k next j)
behind_other k r next j h low apart turn = ground (arith, h, low, apart, turn)

length-no_assignments : (n : ℕ) → length (no_assignments n) ≡ n
length-no_assignments zero = refl
length-no_assignments (suc n) = ap suc (length-no_assignments n)

of_consumer-no_assignments : (j n : ℕ) → of_consumer j (no_assignments n) ≡ []
of_consumer-no_assignments j zero = refl
of_consumer-no_assignments zero (suc n) = refl
of_consumer-no_assignments (suc j) (suc n) = of_consumer-no_assignments j n

trichotomy : (i j : ℕ) → (i ≡ j) ⊎ ((i < j) ⊎ (j < i))
trichotomy i j = elim (dec_lt i j) [
  | yes below ↦ inr (inl below)
  | no not_below ↦ elim (dec_lt j i) [
    | yes above ↦ inr (inr above)
    | no not_above ↦ inl (omega (arith, not_below, not_above))
  ]
]

module _ (takes : ℤ → ℤ → Bool) (start_offsets : List (ℤ × ℤ)) where
  abbrev pub with_start : ℤ → ℤ × ℤ
  with_start p = (p, start_of start_offsets p)

  abbrev pub Taken : ℤ → Type 0
  Taken p = takes p (start_of start_offsets p) ≡ true

  record IsDealt (k n : ℕ) (ps : List ℤ) (given made : List (List (ℤ × ℤ))) : Type 0 where
    as_many : length made ≡ k
    each :
        (j : ℕ)
        → j < k
        → of_consumer j made
          ≡ of_consumer j given ++ map with_start (every k (behind k (n % k) j) ps)

  module _ (k n : ℕ) (p : ℤ) (ps : List ℤ) (given made : List (List (ℤ × ℤ)))
      (many : length given ≡ k) (low : n % k < k)
      (rest : IsDealt k (suc n) ps (add_at (n % k) (with_start p) given) made) where
    abbrev Each : ℕ → Type 0
    Each j =
        of_consumer j made
        ≡ of_consumer j given ++ map with_start (every k (behind k (n % k) j) (p ∷ ps))

    Each-own : Each (n % k)
    Each-own =
        let own = of_consumer (n % k) given in
        let (now, later) = behind_own k (n % k) (suc n % k) low (next_turn n k low) in
        let others = map with_start (every k (behind k (suc n % k) (n % k)) ps) in
        rest.each (n % k) low
        ∙ ap (λ l. l ++ others)
            (of_consumer-add_at_same (n % k) (with_start p) given (omega (arith, many, low)))
        ∙ append_assoc own (with_start p ∷ []) others
        ∙ ap (λ d. own ++ with_start p ∷ map with_start (every k d ps)) later
        ∙ sym (ap (λ d. own ++ map with_start (every k d (p ∷ ps))) now)

    Each-other : (j : ℕ) → j < k → (n % k < j) ⊎ (j < n % k) → Each j
    Each-other j h apart =
        let now = behind_other k (n % k) (suc n % k) j low h apart (next_turn n k low) in
        rest.each j h
        ∙ ap (λ l. l ++ map with_start (every k (behind k (suc n % k) j) ps))
            (of_consumer-add_at_other (n % k) j (with_start p) given apart)
        ∙ sym (ap (λ d. of_consumer j given ++ map with_start (every k d (p ∷ ps))) now)

    IsDealt-on : IsDealt k n (p ∷ ps) given made
    IsDealt-on = record {
      as_many = rest.as_many;
      each = λ j h. elim (trichotomy (n % k) j) [
        | inl same ↦ subst Each same Each-own
        | inr apart ↦ Each-other j h apart
      ];
    }

  deal-IsDealt :
      (k n : ℕ) (ps : List ℤ) (given : List (List (ℤ × ℤ)))
      → 0 < k
      → length given ≡ k
      → All Taken ps
      → (made : List (List (ℤ × ℤ))) × (deal takes start_offsets n ps given ≡ inr made)
        × IsDealt k n ps given made
  unfolding deal
  deal-IsDealt k n [] given some_k many taken =
      (given, refl, record { as_many = many; each = λ j h. sym (append-nil (of_consumer j given)) })
  deal-IsDealt k n (p ∷ ps) given some_k many taken =
      let (made, same, ok) =
        deal-IsDealt k (suc n) ps (add_at (n % k) (with_start p) given) some_k
          (length-add_at (n % k) (with_start p) given ∙ many) taken.1 in
      let rest =
        λ (m : ℕ). deal takes start_offsets (suc n) ps (add_at (n % m) (with_start p) given) in
      (
        made,
        ap (λ b. if b then rest (length given) else inl kafka) taken.0 ∙ ap rest many ∙ same,
        IsDealt-on k n p ps given made many (mod-lt n some_k) ok,
      )

one_each :
    (partitions size : ℕ) → consumer_count partitions size ≡ fetch_shard_count partitions size
unfolding consumer_count
one_each partitions size = ground (arith, (fetch_shard_count_bounds partitions size).0)

first_turn : (k j : ℕ) → behind k (0 % k) j ≡ j
first_turn k j = ap (λ r. behind k r j) (zero-mod k) ∙ ground arith

-- Where librdkafka takes the start offset of each partition that has something to read, a fetch has
-- from 1 to 8 consumers, no more than these partitions if there are any, whose prefetch queues stay
-- together under the ceiling unless there is one; and each is assigned, at their start offsets, the
-- partitions from its own position on at steps of their number: every partition goes to one.
pub dealt-every :
    (takes : ℤ → ℤ → Bool) (start_offsets limits : List (ℤ × ℤ)) (max_message_size_bytes : ℕ)
    → All (Taken takes start_offsets) (working limits)
    → let k = fetch_shard_count (length (working limits)) max_message_size_bytes in
      (made : List (List (ℤ × ℤ))) × (dealt takes start_offsets limits max_message_size_bytes
        ≡ inr made)
      × (length made ≡ k)
      × (1 ≤ k)
      × (k ≤ 8)
      × ((length (working limits) ≡ 0) ⊎ (k ≤ length (working limits)))
      × ((k ≡ 1) ⊎ (k * per_shard_prefetch max_message_size_bytes ≤ shard_prefetch_ceiling_bytes))
      × ((j : ℕ)
          → j < k
          → of_consumer j made
            ≡ map (λ p. (p, start_of start_offsets p)) (every k j (working limits)))
unfolding dealt
dealt-every takes start_offsets limits size taken =
    let k = fetch_shard_count (length (working limits)) size in
    let all = working limits in
    let (least, most, needed, bounded) = fetch_shard_count_bounds (length all) size in
    let (made, same, ok) =
      deal-IsDealt takes start_offsets k 0 all (no_assignments k)
        (omega (arith, (fetch_shard_count_bounds (length all) size).0)) (length-no_assignments k)
        taken in
    (
      made,
      ap (λ m. deal takes start_offsets 0 all (no_assignments m)) (one_each (length all) size)
          ∙ same,
      ok.as_many,
      least,
      most,
      needed,
      bounded,
      λ j h.
          ok.each j h
          ∙ ap
              (λ l.
                l ++ map (λ p. (p, start_of start_offsets p)) (every k (behind k (0 % k) j) all))
              (of_consumer-no_assignments j k)
          ∙ ap (λ d. map (λ p. (p, start_of start_offsets p)) (every k d all)) (first_turn k j),
    )
