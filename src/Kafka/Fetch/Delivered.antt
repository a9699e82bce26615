-- ===== src/Kafka/Fetch/Delivered.antt =====
-- What the poll loop has taken when it stops.
use mathlib.Core.Path.{subst}
use mathlib.Core.List.{append_assoc, append-nil}
use offset_explorer_oxide.Common.{
  ℕ, zero, suc, ◌≡◌, refl, sym, ap, ◌∙◌, Bool, true, false, not, ◌&&◌, none, some, inl, inr, List,
  [], ◌∷◌, ◌++◌, map, take, unwrap_or, is_some, Bool-cases, Option-cases, arith,
}
use offset_explorer_oxide.Common.Int.{ℤ, pos, pos_part, ltb_ℤ}
use offset_explorer_oxide.Common.Equality.{int_eq}
use offset_explorer_oxide.Common.Dict.{lookup}
use offset_explorer_oxide.Kafka.Fetch.{
  BorrowedMessage, Polled, message, partition_eof, poll_error, nothing, Fetch, Fetching, start,
  finish, topic_message, is_past, receive, step, goes_on, poll_loop,
}
use offset_explorer_oxide.Kafka.Fetch.Taken.{
  in_range, of_partition, allowance, Inv, same-Inv, finish_keeps, quiet-Inv, in_range_past,
  full-Inv,
}
use offset_explorer_oxide.Kafka.Fetch.Collected.{collect-Inv}

no_more : (budget : ℤ) → ltb_ℤ (pos 0) budget ≡ false → pos_part budget ≡ 0
no_more budget h = ground (arith, h)

take_nil : (n : ℕ) → take {A = BorrowedMessage} n [] ≡ []
take_nil zero = refl
take_nil (suc n) = refl

receive-Inv :
    (f : Fetch) (limits : List (ℤ × ℤ)) (front : List Polled) (m : BorrowedMessage) (s : Fetching)
    → Inv f limits front s
    → Inv f limits (front ++ message m ∷ []) (receive f m (lookup m.partition s.remaining) s)
unfolding receive
receive-Inv f limits front m s inv = elim (Option-cases (lookup m.partition s.remaining)) [
  | inl unread ↦
      let empty : allowance m.partition s.remaining ≡ 0 =
        ap (λ o. pos_part (unwrap_or o (pos 0))) unread in
      rw unread (full-Inv f limits front m s empty inv)
  | inr (budget, known) ↦ rw known (elim (Bool-cases (ltb_ℤ (pos 0) budget)) [
    | inr spent ↦
        let empty : allowance m.partition s.remaining ≡ 0 =
          ap (λ o. pos_part (unwrap_or o (pos 0))) known ∙ no_more budget spent in
        rw spent (full-Inv f limits front m s empty inv)
    | inl more ↦ rw more (elim (Bool-cases (is_past f m)) [
      | inl past ↦
          let (messages, budgets) = finish_keeps m.partition s in
          rw past (
            same-Inv f limits (front ++ message m ∷ []) s (finish m.partition s) messages budgets
              (quiet-Inv f limits front (message m) s (λ p. in_range_past f m p past) inv))
      | inr inside ↦ rw inside (collect-Inv f limits front m s budget known more inside inv)
    ])
  ])
]

step-Inv :
    (f : Fetch) (limits : List (ℤ × ℤ)) (front : List Polled) (e : Polled) (s : Fetching)
    → Inv f limits front s
    → Inv f limits (front ++ e ∷ []) (step f e s)
unfolding step
step-Inv f limits front (message m) s inv =
    let awake : Fetching = record s { idle_elapsed = 0 } in
    receive-Inv f limits front m awake (same-Inv f limits front s awake refl refl inv)
step-Inv f limits front (partition_eof q) s inv =
    elim (Bool-cases (is_some (lookup q s.remaining))) [
      | inl h ↦
          let (messages, budgets) = finish_keeps q s in
          rw h (
            same-Inv f limits (front ++ partition_eof q ∷ []) s (finish q s) messages budgets
              (quiet-Inv f limits front (partition_eof q) s (λ p. refl) inv))
      | inr h ↦ rw h (quiet-Inv f limits front (partition_eof q) s (λ p. refl) inv)
    ]
step-Inv f limits front (poll_error why) s inv =
    same-Inv f limits (front ++ poll_error why ∷ []) s _ refl refl
      (quiet-Inv f limits front (poll_error why) s (λ p. refl) inv)
step-Inv f limits front nothing s inv =
    same-Inv f limits (front ++ nothing ∷ []) s _ refl refl
      (quiet-Inv f limits front nothing s (λ p. refl) inv)

start-Inv : (f : Fetch) (limits : List (ℤ × ℤ)) → Inv f limits [] (start limits)
unfolding start
start-Inv f limits = record {
  taken = λ p. ap (map (topic_message f)) (sym (take_nil (allowance p limits)));
  left = λ p. omega arith;
}

-- The loop's condition before a poll, with the flag of that poll, has failed.
abbrev pub halts : Fetch → List (Bool × Polled) → Fetching → Bool
halts f [] s = not (goes_on f s)
halts f ((cancelled, polled) ∷ events) s = not (goes_on f s && not cancelled)

abbrev pub results : List (Bool × Polled) → List Polled
results events = map (λ (e : Bool × Polled). e.1) events

record Ran (f : Fetch) (limits : List (ℤ × ℤ)) (front : List Polled) (events : List (Bool × Polled))
    (r : Fetching) : Type 0 where
  done : List (Bool × Polled)
  back : List (Bool × Polled)
  split : events ≡ done ++ back
  halted : halts f back r ≡ true
  inv : Inv f limits (front ++ results done) r

stopped_here :
    (f : Fetch) (limits : List (ℤ × ℤ)) (front : List Polled) (events : List (Bool × Polled))
    (s r : Fetching)
    → Inv f limits front s
    → some s ≡ some r
    → halts f events s ≡ true
    → Ran f limits front events r
stopped_here f limits front events s r inv same halted =
    let moved : s ≡ r = ap (λ o. unwrap_or o s) same in
    record {
      done = [];
      back = events;
      split = refl;
      halted = ap (halts f events) (sym moved) ∙ halted;
      inv =
          subst (λ t. Inv f limits (front ++ []) t) moved
            (subst (λ l. Inv f limits l s) (sym (append-nil front)) inv);
    }

extended_run :
    (f : Fetch) (limits : List (ℤ × ℤ)) (front : List Polled) (c : Bool) (e : Polled)
    (events : List (Bool × Polled)) (r : Fetching)
    → Ran f limits (front ++ e ∷ []) events r
    → Ran f limits front ((c, e) ∷ events) r
extended_run f limits front c e events r ran = record {
  done = (c, e) ∷ ran.done;
  back = ran.back;
  split = ap (◌∷◌ (c, e)) ran.split;
  halted = ran.halted;
  inv = subst (λ l. Inv f limits l r) (append_assoc front (e ∷ []) (results ran.done)) ran.inv;
}

module _ (f : Fetch) (s : Fetching) where
  pub poll_loop_waits : goes_on f s ≡ true → poll_loop f [] s ≡ none
  unfolding poll_loop
  poll_loop_waits h = rw h refl

  pub poll_loop_ends : goes_on f s ≡ false → poll_loop f [] s ≡ some s
  unfolding poll_loop
  poll_loop_ends h = rw h refl

  pub poll_loop_next :
      (c : Bool) (e : Polled) (events : List (Bool × Polled))
      → goes_on f s && not c ≡ true
      → poll_loop f ((c, e) ∷ events) s ≡ poll_loop f events (step f e s)
  unfolding poll_loop
  poll_loop_next c e events h = rw h refl

  pub poll_loop_stops :
      (c : Bool) (e : Polled) (events : List (Bool × Polled))
      → goes_on f s && not c ≡ false
      → poll_loop f ((c, e) ∷ events) s ≡ some s
  unfolding poll_loop
  poll_loop_stops c e events h = rw h refl

poll_loop-Ran :
    (f : Fetch) (limits : List (ℤ × ℤ)) (events : List (Bool × Polled)) (front : List Polled)
    (s r : Fetching)
    → Inv f limits front s
    → poll_loop f events s ≡ some r
    → Ran f limits front events r
poll_loop-Ran f limits [] front s r inv h = elim (Bool-cases (goes_on f s)) [
  | inl on ↦ let waits = sym (poll_loop_waits f s on) ∙ h in ground (arith, waits)
  | inr off ↦ stopped_here f limits front [] s r inv (sym (poll_loop_ends f s off) ∙ h) (ap not off)
]
poll_loop-Ran f limits ((c, e) ∷ events) front s r inv h =
    elim (Bool-cases (goes_on f s && not c)) [
      | inl on ↦ extended_run f limits front c e events r (
          poll_loop-Ran f limits events (front ++ e ∷ []) (step f e s) r
            (step-Inv f limits front e s inv) (sym (poll_loop_next f s c e events on) ∙ h))
      | inr off ↦
          stopped_here f limits front ((c, e) ∷ events) s r inv
            (sym (poll_loop_stops f s c e events off) ∙ h) (ap not off)
    ]

-- When the poll loop stops, it has handled the results up to some point, where its condition fails
-- (every partition is finished, the target is reached, it idled for ten seconds, the byte budget is
-- spent, or it is cancelled); and of each partition it has taken the first of the messages delivered
-- by then that lie before the end of what the filter asks for, in the order of their delivery and
-- as many as the partition's limit, and none of a partition without one.
pub poll_loop_takes :
    (f : Fetch) (limits : List (ℤ × ℤ)) (events : List (Bool × Polled)) (r : Fetching)
    → poll_loop f events (start limits) ≡ some r
    → (done : List (Bool × Polled)) × (back : List (Bool × Polled)) × (events ≡ done ++ back)
      × (halts f back r ≡ true)
      × ((p : ℤ)
          → of_partition p r.collected
            ≡ map (topic_message f) (take (allowance p limits) (in_range f p (results done))))
poll_loop_takes f limits events r h =
    let ran = poll_loop-Ran f limits events [] (start limits) r (start-Inv f limits) h in
    (ran.done, ran.back, ran.split, ran.halted, ran.inv.taken)
