-- ===== src/Kafka/Fetch/Counted.antt =====
-- What every turn of the poll loop keeps of its count, and which partitions it marks.
use offset_explorer_oxide.Common.{
  ℕ, ◌+◌, ◌≤◌, ◌≡◌, refl, sym, ap, ◌∙◌, true, Option, none, some, inl, inr, List, if◌then◌else◌,
  unwrap_or, is_some, Bool-cases, Option-cases, arith,
}
use offset_explorer_oxide.Common.Int.{ℤ, pos, pos_part, ◌-ℤ◌, ltb_ℤ, eqb_ℤ_iff}
use offset_explorer_oxide.Common.Equality.{◌==◌, int_eq}
use offset_explorer_oxide.Common.Dict.{lookup, lookup-insert, Distinct}
use offset_explorer_oxide.Common.Dict.{insert as put}
use offset_explorer_oxide.Kafka.Fetch.{
  BorrowedMessage, Polled, message, partition_eof, poll_error, nothing, Fetch, Fetching, minus_one,
  finish, is_past, collect, receive, step,
}
use offset_explorer_oxide.Kafka.Fetch.Taken.{allowance}
use offset_explorer_oxide.Kafka.Fetch.Taken.{finish_keeps}
use offset_explorer_oxide.Kafka.Fetch.Collected.{spent}
use offset_explorer_oxide.Kafka.Fetch.Unfinished.{
  count_open, limit_there, finished_now, finished_before, finish_open,
}

-- The count is that of the open partitions; a partition with a limit stays in the map, and none has
-- more left than its limit.
pub record Tally (limits : List (ℤ × ℤ)) (s : Fetching) : Type 0 where
  pub counted : s.unfinished ≡ count_open s.finished limits
  pub kept : (p : ℤ) → is_some (lookup p limits) ≡ true → is_some (lookup p s.remaining) ≡ true
  pub bounded : (p : ℤ) → allowance p s.remaining ≤ allowance p limits

less_one : (n k : ℕ) → n ≡ 1 + k → minus_one n ≡ k
less_one n k h = ground (arith, h)

finish_counted :
    (limits : List (ℤ × ℤ)) (p : ℤ) (s : Fetching)
    → Distinct limits
    → 1 ≤ allowance p limits
    → s.unfinished ≡ count_open s.finished limits
    → (finish p s).unfinished ≡ count_open (finish p s).finished limits
unfolding finish
finish_counted limits p s distinct h counted = elim (Bool-cases (is_some (lookup p s.finished))) [
  | inl known ↦ rw known counted
  | inr fresh ↦ rw fresh (
      less_one s.unfinished (count_open (put p tt s.finished) limits)
        (counted ∙ finish_open p s.finished limits distinct h fresh))
]

finish_marks : (p : ℤ) (s : Fetching) → is_some (lookup p (finish p s).finished) ≡ true
unfolding finish
finish_marks p s = elim (Bool-cases (is_some (lookup p s.finished))) [
  | inl known ↦ rw known known
  | inr fresh ↦ rw fresh (finished_now p s.finished)
]

finish_keeps_marks :
    (p q : ℤ) (s : Fetching)
    → is_some (lookup q s.finished) ≡ true
    → is_some (lookup q (finish p s).finished) ≡ true
unfolding finish
finish_keeps_marks p q s h = elim (Bool-cases (is_some (lookup p s.finished))) [
  | inl known ↦ rw known h
  | inr fresh ↦ rw fresh (elim (Bool-cases (p == q)) [
    | inl same ↦
        ap (λ r. is_some (lookup r (put p tt s.finished))) (sym ((eqb_ℤ_iff p q).0 same))
        ∙ finished_now p s.finished
    | inr other ↦ ap is_some (finished_before p q s.finished other) ∙ h
  ])
]

allowance-put :
    (p q left : ℤ) (budgets : List (ℤ × ℤ))
    → allowance q (put p left budgets) ≡ (if p == q then pos_part left else allowance q budgets)
allowance-put p q left budgets =
    ap (λ o. pos_part (unwrap_or o (pos 0))) (lookup-insert p q left budgets)
    ∙ elim (Bool-cases (p == q)) [ inl h ↦ rw h refl | inr h ↦ rw h refl ]

module _ (f : Fetch) (limits : List (ℤ × ℤ)) (distinct : Distinct limits) where
  finish-Tally :
      (p : ℤ) (s : Fetching) → 1 ≤ allowance p limits → Tally limits s → Tally limits (finish p s)
  finish-Tally p s h tally =
      let (messages, budgets) = finish_keeps p s in
      record {
        counted = finish_counted limits p s distinct h tally.counted;
        kept = λ q there. ap (λ m. is_some (lookup q m)) budgets ∙ tally.kept q there;
        bounded = λ q. rw budgets (tally.bounded q);
      }

  budget-Tally :
      (p left : ℤ) (s t : Fetching)
      → t.unfinished ≡ s.unfinished
      → t.finished ≡ s.finished
      → t.remaining ≡ put p left s.remaining
      → pos_part left ≤ allowance p limits
      → Tally limits s
      → Tally limits t
  budget-Tally p left s t same_count same_marks budgets less tally = record {
    counted = same_count ∙ tally.counted ∙ ap (λ m. count_open m limits) (sym same_marks);
    kept = λ q there.
        ap (λ m. is_some (lookup q m)) budgets
        ∙ ap is_some (lookup-insert p q left s.remaining)
        ∙ elim (Bool-cases (p == q)) [
          | inl own ↦ rw own refl
          | inr other ↦ rw other (tally.kept q there)
        ];
    bounded = λ q. rw budgets (
        rw (allowance-put p q left s.remaining) (elim (Bool-cases (p == q)) [
          | inl own ↦ rw own (rw (sym ((eqb_ℤ_iff p q).0 own)) less)
          | inr other ↦ rw other (tally.bounded q)
        ]));
  }

  collect-Tally :
      (m : BorrowedMessage) (budget : ℤ) (s : Fetching)
      → lookup m.partition s.remaining ≡ some budget
      → ltb_ℤ (pos 0) budget ≡ true
      → Tally limits s
      → Tally limits (collect f m budget s)
  unfolding collect
  collect-Tally m budget s known more tally =
      let here : allowance m.partition s.remaining ≡ pos_part budget =
        ap (λ o. pos_part (unwrap_or o (pos 0))) known in
      let some_left = tally.bounded m.partition in
      let less : pos_part (budget -ℤ pos 1) ≤ allowance m.partition limits =
        omega (arith, here, some_left, spent budget more) in
      let able : 1 ≤ allowance m.partition limits =
        omega (arith, here, some_left, limit_there budget more) in
      elim (Bool-cases (ltb_ℤ (pos 0) (budget -ℤ pos 1))) [
        | inl on ↦ rw on (budget-Tally m.partition (budget -ℤ pos 1) s _ refl refl refl less tally)
        | inr off ↦ rw off (
            finish-Tally m.partition _ able
              (budget-Tally m.partition (budget -ℤ pos 1) s _ refl refl refl less tally))
      ]

  receive-Tally :
      (m : BorrowedMessage) (s : Fetching)
      → Tally limits s
      → Tally limits (receive f m (lookup m.partition s.remaining) s)
  unfolding receive
  receive-Tally m s tally = elim (Option-cases (lookup m.partition s.remaining)) [
    | inl unread ↦ rw unread tally
    | inr (budget, known) ↦ rw known (elim (Bool-cases (ltb_ℤ (pos 0) budget)) [
      | inr none_left ↦ rw none_left tally
      | inl more ↦ rw more (elim (Bool-cases (is_past f m)) [
        | inl past ↦
            let here : allowance m.partition s.remaining ≡ pos_part budget =
              ap (λ o. pos_part (unwrap_or o (pos 0))) known in
            let able : 1 ≤ allowance m.partition limits =
              omega (arith, here, tally.bounded m.partition, limit_there budget more) in
            rw past (finish-Tally m.partition s able tally)
        | inr inside ↦ rw inside (collect-Tally m budget s known more tally)
      ])
    ])
  ]

  -- The end of a partition is told of one that is read.
  abbrev pub IsTold : Polled → Type 0
  IsTold (partition_eof p) = 1 ≤ allowance p limits
  IsTold (message m) = Unit
  IsTold (poll_error why) = Unit
  IsTold nothing = Unit

  pub step-Tally :
      (e : Polled) (s : Fetching) → IsTold e → Tally limits s → Tally limits (step f e s)
  unfolding step
  step-Tally (message m) s told tally =
      receive-Tally m (record s { idle_elapsed = 0 })
        (record { counted = tally.counted; kept = tally.kept; bounded = tally.bounded })
  step-Tally (partition_eof p) s told tally = elim (Bool-cases (is_some (lookup p s.remaining))) [
    | inl there ↦ rw there (finish-Tally p s told tally)
    | inr absent ↦ rw absent tally
  ]
  step-Tally (poll_error why) s told tally = record {
    counted = tally.counted;
    kept = tally.kept;
    bounded = tally.bounded;
  }
  step-Tally nothing s told tally = record {
    counted = tally.counted;
    kept = tally.kept;
    bounded = tally.bounded;
  }

  receive_marks :
      (m : BorrowedMessage) (o : Option ℤ) (s : Fetching) (q : ℤ)
      → is_some (lookup q s.finished) ≡ true
      → is_some (lookup q (receive f m o s).finished) ≡ true
  unfolding receive collect
  receive_marks m none s q h = h
  receive_marks m (some budget) s q h = elim (Bool-cases (ltb_ℤ (pos 0) budget)) [
    | inr none_left ↦ rw none_left h
    | inl more ↦ rw more (elim (Bool-cases (is_past f m)) [
      | inl past ↦ rw past (finish_keeps_marks m.partition q s h)
      | inr inside ↦ rw inside (elim (Bool-cases (ltb_ℤ (pos 0) (budget -ℤ pos 1))) [
        | inl on ↦ rw on h
        | inr off ↦ rw off (finish_keeps_marks m.partition q _ h)
      ])
    ])
  ]

  pub step_marks :
      (e : Polled) (s : Fetching) (q : ℤ)
      → is_some (lookup q s.finished) ≡ true
      → is_some (lookup q (step f e s).finished) ≡ true
  unfolding step
  step_marks (message m) s q h =
      receive_marks m (lookup m.partition s.remaining) (record s { idle_elapsed = 0 }) q h
  step_marks (partition_eof p) s q h = elim (Bool-cases (is_some (lookup p s.remaining))) [
    | inl there ↦ rw there (finish_keeps_marks p q s h)
    | inr absent ↦ rw absent h
  ]
  step_marks (poll_error why) s q h = h
  step_marks nothing s q h = h

  pub eof_marks :
      (p : ℤ) (s : Fetching)
      → is_some (lookup p s.remaining) ≡ true
      → is_some (lookup p (step f (partition_eof p) s).finished) ≡ true
  unfolding step
  eof_marks p s there = rw there (finish_marks p s)
