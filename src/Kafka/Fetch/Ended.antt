-- ===== src/Kafka/Fetch/Ended.antt =====
-- What ends the poll loop.
use mathlib.Core.Path.{subst}
use offset_explorer_oxide.Common.{
  ◌≤◌, ◌≡◌, refl, sym, ap, ◌∙◌, Bool, true, false, not, ◌&&◌, ◌||◌, ◌⊎◌, inl, inr, List, [], ◌∷◌,
  ltb, unwrap_or, is_some, Bool-cases, or_true, Option-cases, ltb→lt, lt→ltb, arith,
}
use offset_explorer_oxide.Common.Int.{ℤ, pos, pos_part, eqb_ℤ_iff}
use offset_explorer_oxide.Common.Equality.{◌==◌, int_eq}
use offset_explorer_oxide.Common.Dict.{lookup, beq_refl, Distinct}
use offset_explorer_oxide.Kafka.Fetch.{
  Polled, message, partition_eof, poll_error, nothing, Fetch, Fetching, start, step, goes_on,
  poll_loop,
}
use offset_explorer_oxide.Kafka.Fetch.Taken.{allowance}
use offset_explorer_oxide.Kafka.Fetch.Unfinished.{count_open_start, all_finished}
use offset_explorer_oxide.Kafka.Fetch.Counted.{Tally, IsTold, step-Tally, step_marks, eof_marks}
use offset_explorer_oxide.Kafka.Fetch.Delivered.{poll_loop_ends, poll_loop_next, poll_loop_stops}

-- The end of a partition is among the results.
abbrev pub reports : ℤ → List (Bool × Polled) → Bool
reports p [] = false
reports p ((c, partition_eof q) ∷ events) = q == p || reports p events
reports p ((c, message m) ∷ events) = reports p events
reports p ((c, poll_error why) ∷ events) = reports p events
reports p ((c, nothing) ∷ events) = reports p events

start-Tally : (limits : List (ℤ × ℤ)) → Tally limits (start limits)
unfolding start
start-Tally limits = record {
  counted = sym (count_open_start limits);
  kept = λ p h. h;
  bounded = λ p. omega arith;
}

nothing_left : (f : Fetch) (s : Fetching) → s.unfinished ≡ 0 → goes_on f s ≡ false
unfolding goes_on
nothing_left f s h = rw h refl

limit_is_there :
    (p : ℤ) (limits : List (ℤ × ℤ)) → 1 ≤ allowance p limits → is_some (lookup p limits) ≡ true
limit_is_there p limits h = elim (Option-cases (lookup p limits)) [
  | inl absent ↦
      let nothing_there : allowance p limits ≡ 0 =
        ap (λ o. pos_part (unwrap_or o (pos 0))) absent in
      ground (arith, nothing_there, h)
  | inr (limit, known) ↦ ap is_some known
]

only_done : (b : Bool) → (b ≡ true) ⊎ (false ≡ true) → b ≡ true
only_done b (inl h) = h
only_done b (inr h) = ground (arith, h)

module _ (f : Fetch) (limits : List (ℤ × ℤ)) (distinct : Distinct limits) where
  -- Every partition that is read is finished, or its end is still to come; and no other end is.
  record Coming (events : List (Bool × Polled)) (s : Fetching) : Type 0 where
    told : (p : ℤ) → reports p events ≡ true → 1 ≤ allowance p limits
    comes :
        (p : ℤ)
        → 1 ≤ allowance p limits
        → (is_some (lookup p s.finished) ≡ true) ⊎ (reports p events ≡ true)

  end_has_limit :
      (c : Bool) (e : Polled) (events : List (Bool × Polled)) (s : Fetching)
      → Coming ((c, e) ∷ events) s
      → IsTold f limits distinct e
  end_has_limit c (partition_eof p) events s coming = coming.told p (rw (beq_refl p) refl)
  end_has_limit c (message m) events s coming = tt
  end_has_limit c (poll_error why) events s coming = tt
  end_has_limit c nothing events s coming = tt

  still :
      (e : Polled) (p : ℤ) (s : Fetching) (events : List (Bool × Polled))
      → (is_some (lookup p s.finished) ≡ true) ⊎ (reports p events ≡ true)
      → (is_some (lookup p (step f e s).finished) ≡ true) ⊎ (reports p events ≡ true)
  still e p s events (inl done) = inl (step_marks f limits distinct e s p done)
  still e p s events (inr later) = inr later

  one_turn_less :
      (c : Bool) (e : Polled) (events : List (Bool × Polled)) (s : Fetching)
      → Tally limits s
      → Coming ((c, e) ∷ events) s
      → Coming events (step f e s)
  one_turn_less c (message m) events s tally coming = record {
    told = coming.told;
    comes = λ p h. still (message m) p s events (coming.comes p h);
  }
  one_turn_less c (poll_error why) events s tally coming = record {
    told = coming.told;
    comes = λ p h. still (poll_error why) p s events (coming.comes p h);
  }
  one_turn_less c nothing events s tally coming = record {
    told = coming.told;
    comes = λ p h. still nothing p s events (coming.comes p h);
  }
  one_turn_less c (partition_eof q) events s tally coming = record {
    told = λ p h. coming.told p (rw h (or_true (q == p)));
    comes = λ p h. elim (Bool-cases (q == p)) [
      | inl own ↦
          let there = tally.kept p (limit_is_there p limits h) in
          inl (
            subst (λ r. is_some (lookup p (step f (partition_eof r) s).finished) ≡ true)
              (sym ((eqb_ℤ_iff q p).0 own)) (eof_marks f limits distinct p s there))
      | inr other ↦ still (partition_eof q) p s events (
          subst
            (λ (b : Bool). (is_some (lookup p s.finished) ≡ true) ⊎ (b || reports p events ≡ true))
            other (coming.comes p h))
    ];
  }

  ends_from :
      (events : List (Bool × Polled)) (s : Fetching)
      → Tally limits s
      → Coming events s
      → is_some (poll_loop f events s) ≡ true
  ends_from [] s tally coming =
      let done : (p : ℤ) → 1 ≤ allowance p limits → is_some (lookup p s.finished) ≡ true =
        λ p h. only_done (is_some (lookup p s.finished)) (coming.comes p h) in
      let none_left = tally.counted ∙ all_finished s.finished limits distinct done in
      ap is_some (poll_loop_ends f s (nothing_left f s none_left))
  ends_from ((c, e) ∷ events) s tally coming = elim (Bool-cases (goes_on f s && not c)) [
    | inr off ↦ ap is_some (poll_loop_stops f s c e events off)
    | inl on ↦
        ap is_some (poll_loop_next f s c e events on)
        ∙ ends_from events (step f e s)
            (step-Tally f limits distinct e s (end_has_limit c e events s coming) tally)
            (one_turn_less c e events s tally coming)
  ]

-- Where every partition with a limit reports its end among the results, and no other does, the poll
-- loop stops within them, whatever else they are: it never waits for messages that a partition's
-- offsets promised and that do not exist.
pub poll_loop_stops_at_ends :
    (f : Fetch) (limits : List (ℤ × ℤ)) (events : List (Bool × Polled))
    → Distinct limits
    → ((p : ℤ) → reports p events ≡ ltb 0 (allowance p limits))
    → is_some (poll_loop f events (start limits)) ≡ true
poll_loop_stops_at_ends f limits events distinct ends =
    ends_from f limits distinct events (start limits) (start-Tally limits) (record {
      told = λ p h. ltb→lt 0 (allowance p limits) (sym (ends p) ∙ h);
      comes = λ p h. inr (ends p ∙ lt→ltb 0 (allowance p limits) h);
    })
