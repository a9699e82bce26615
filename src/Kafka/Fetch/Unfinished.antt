-- ===== src/Kafka/Fetch/Unfinished.antt =====
-- The count of the partitions that are not finished.
use offset_explorer_oxide.Common.{
  ℕ, ◌+◌, ◌≤◌, ◌≡◌, refl, sym, ap, ◌∙◌, Bool, true, false, not, ◌&&◌, none, some, inl, inr, List,
  [], ◌∷◌, if◌then◌else◌, unwrap_or, is_some, Bool-cases, arith,
}
use offset_explorer_oxide.Common.Int.{ℤ, pos, pos_part, ltb_ℤ, eqb_ℤ_iff}
use offset_explorer_oxide.Common.Equality.{◌==◌, int_eq}
use offset_explorer_oxide.Common.Dict.{lookup, beq_refl, lookup-insert, lookup-cons, Distinct}
use offset_explorer_oxide.Common.Dict.{insert as put}
use offset_explorer_oxide.Kafka.Fetch.{count_working}
use offset_explorer_oxide.Kafka.Fetch.Taken.{allowance}

-- The partitions with something to read that are not among the finished ones.
abbrev pub count_open : List (ℤ × Unit {0}) → List (ℤ × ℤ) → ℕ
count_open done [] = 0
count_open done ((p, limit) ∷ limits) =
    if ltb_ℤ (pos 0) limit && not (is_some (lookup p done))
    then 1 + count_open done limits
    else count_open done limits

pub count_open_start : (limits : List (ℤ × ℤ)) → count_open [] limits ≡ count_working limits
unfolding count_working lookup
count_open_start [] = refl
count_open_start ((p, limit) ∷ limits) = elim (Bool-cases (ltb_ℤ (pos 0) limit)) [
  | inl h ↦ rw h (ap (λ n. 1 + n) (count_open_start limits))
  | inr h ↦ rw h (count_open_start limits)
]

pub finish_absent :
    (p : ℤ) (done : List (ℤ × Unit {0})) (limits : List (ℤ × ℤ))
    → lookup p limits ≡ none
    → count_open (put p tt done) limits ≡ count_open done limits
finish_absent p done [] h = refl
finish_absent p done ((q, limit) ∷ limits) h =
    let head = sym (lookup-cons q p limit limits) ∙ h in
    ground (
      arith,
      head,
      lookup-insert p q tt done,
      int_eq.agrees p q,
      int_eq.agrees q p,
      finish_absent p done limits,
    )

pub allowance-cons :
    (p q limit : ℤ) (limits : List (ℤ × ℤ))
    → allowance p ((q, limit) ∷ limits) ≡ (if q == p then pos_part limit else allowance p limits)
allowance-cons p q limit limits =
    ap (λ o. pos_part (unwrap_or o (pos 0))) (lookup-cons q p limit limits)
    ∙ elim (Bool-cases (q == p)) [ inl h ↦ rw h refl | inr h ↦ rw h refl ]

pub has_limit : (limit : ℤ) → 1 ≤ pos_part limit → ltb_ℤ (pos 0) limit ≡ true
has_limit limit h = ground (arith, h)

pub limit_there : (limit : ℤ) → ltb_ℤ (pos 0) limit ≡ true → 1 ≤ pos_part limit
limit_there limit h = ground (arith, h)

pub finished_now : (p : ℤ) (done : List (ℤ × Unit {0})) → is_some (lookup p (put p tt done)) ≡ true
finished_now p done =
    ap is_some (lookup-insert p p tt done)
    ∙ ap (λ (b : Bool). is_some (if b then some tt else lookup p done)) (beq_refl p)

pub finished_before :
    (p q : ℤ) (done : List (ℤ × Unit {0}))
    → (p == q) ≡ false
    → lookup q (put p tt done) ≡ lookup q done
finished_before p q done h = lookup-insert p q tt done ∙ rw h refl

pub nothing_allowed : (p : ℤ) → 1 ≤ allowance p [] → ⊥
unfolding lookup
nothing_allowed p h = omega (arith, h)

pub finish_open :
    (p : ℤ) (done : List (ℤ × Unit {0})) (limits : List (ℤ × ℤ))
    → Distinct limits
    → 1 ≤ allowance p limits
    → is_some (lookup p done) ≡ false
    → count_open done limits ≡ 1 + count_open (put p tt done) limits
finish_open p done [] distinct h fresh = absurd (nothing_allowed p h)
finish_open p done ((q, limit) ∷ limits) (absent, distinct) h fresh = elim (Bool-cases (q == p)) [
  | inl same ↦
      let equal : q ≡ p = (eqb_ℤ_iff q p).0 same in
      let here : 1 ≤ pos_part limit = rw same at (rw (allowance-cons p q limit limits) at h) in
      let unfinished : is_some (lookup q done) ≡ false =
        ap (λ r. is_some (lookup r done)) equal ∙ fresh in
      let finished : is_some (lookup q (put p tt done)) ≡ true =
        ap (λ r. is_some (lookup r (put p tt done))) equal ∙ finished_now p done in
      let rest = finish_absent p done limits (ap (λ r. lookup r limits) (sym equal) ∙ absent) in
      rw (has_limit limit here, unfinished, finished) (ap (λ n. 1 + n) (sym rest))
  | inr other ↦
      let there : 1 ≤ allowance p limits =
        rw other at (rw (allowance-cons p q limit limits) at h) in
      let apart : (p == q) ≡ false = ground (arith, other, int_eq.agrees p q, int_eq.agrees q p) in
      let ih = finish_open p done limits distinct there fresh in
      rw (finished_before p q done apart)
        (elim (Bool-cases (ltb_ℤ (pos 0) limit && not (is_some (lookup q done)))) [
          | inl working ↦ rw working (ap (λ n. 1 + n) ih)
          | inr shut ↦ rw shut ih
        ])
]

pub tail_limit :
    (p q limit : ℤ) (limits : List (ℤ × ℤ))
    → lookup q limits ≡ none
    → 1 ≤ allowance p limits
    → 1 ≤ allowance p ((q, limit) ∷ limits)
tail_limit p q limit limits absent h =
    rw (allowance-cons p q limit limits) (elim (Bool-cases (q == p)) [
      | inr other ↦ rw other h
      | inl same ↦
          let nothing_there : allowance p limits ≡ 0 =
            ap (λ o. pos_part (unwrap_or o (pos 0)))
              (ap (λ r. lookup r limits) (sym ((eqb_ℤ_iff q p).0 same)) ∙ absent) in
          ground (arith, nothing_there, h)
    ])

pub all_finished :
    (done : List (ℤ × Unit {0})) (limits : List (ℤ × ℤ))
    → Distinct limits
    → ((p : ℤ) → 1 ≤ allowance p limits → is_some (lookup p done) ≡ true)
    → count_open done limits ≡ 0
all_finished done [] distinct all = refl
all_finished done ((q, limit) ∷ limits) (absent, distinct) all =
    let ih =
      all_finished done limits distinct (λ p h. all p (tail_limit p q limit limits absent h)) in
    elim (Bool-cases (ltb_ℤ (pos 0) limit)) [
      | inr none_there ↦ rw none_there ih
      | inl some_there ↦
          let here : 1 ≤ allowance q ((q, limit) ∷ limits) =
            rw (allowance-cons q q limit limits, beq_refl q) (limit_there limit some_there) in
          rw (some_there, all q here) ih
    ]
