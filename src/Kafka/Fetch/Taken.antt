-- ===== src/Kafka/Fetch/Taken.antt =====
-- Which of the messages that were delivered a fetch takes.
use mathlib.Core.List.{append-nil}
use offset_explorer_oxide.Common.{
  ℕ, zero, suc, ◌-◌, ◌≤◌, ◌<◌, ◌≡◌, refl, sym, ap, ◌∙◌, Bool, true, false, not, ◌&&◌, inl, inr,
  List, [], ◌∷◌, ◌++◌, map, if◌then◌else◌, length, take, keep_if, unwrap_or, is_some, Bool-cases,
  length-append, arith,
}
use offset_explorer_oxide.Common.Int.{ℤ, pos, pos_part, eqb_ℤ_iff}
use offset_explorer_oxide.Common.Equality.{◌==◌, int_eq}
use offset_explorer_oxide.Common.Dict.{lookup}
use offset_explorer_oxide.Kafka.Fetch.{
  BorrowedMessage, TopicMessage, Polled, message, partition_eof, poll_error, nothing, Fetch,
  Fetching, finish, topic_message, is_past,
}

module _ (f : Fetch) (p : ℤ) where
  -- The messages of a partition that lie before its end, in the order of their delivery.
  abbrev pub in_range : List Polled → List BorrowedMessage
  in_range [] = []
  in_range (message m ∷ events) =
      if m.partition == p && not (is_past f m) then m ∷ in_range events else in_range events
  in_range (partition_eof q ∷ events) = in_range events
  in_range (poll_error why ∷ events) = in_range events
  in_range (nothing ∷ events) = in_range events

  pub in_range-append :
      (front back : List Polled) → in_range (front ++ back) ≡ in_range front ++ in_range back
  in_range-append [] back = refl
  in_range-append (message m ∷ front) back =
      elim (Bool-cases (m.partition == p && not (is_past f m))) [
        | inl h ↦ rw h (ap (◌∷◌ m) (in_range-append front back))
        | inr h ↦ rw h (in_range-append front back)
      ]
  in_range-append (partition_eof q ∷ front) back = in_range-append front back
  in_range-append (poll_error why ∷ front) back = in_range-append front back
  in_range-append (nothing ∷ front) back = in_range-append front back

abbrev pub of_partition : ℤ → List TopicMessage → List TopicMessage
of_partition p ms = keep_if (λ (t : TopicMessage). t.partition == p) ms

pub keep_if-append {ℓ} :
    {A : Type ℓ} (q : A → Bool) (xs ys : List A)
    → keep_if q (xs ++ ys) ≡ keep_if q xs ++ keep_if q ys
keep_if-append q [] ys = refl
keep_if-append q (x ∷ xs) ys = elim (Bool-cases (q x)) [
  | inl h ↦ rw h (ap (◌∷◌ x) (keep_if-append q xs ys))
  | inr h ↦ rw h (keep_if-append q xs ys)
]

pub take_room {ℓ} :
    {A : Type ℓ} (n : ℕ) (xs : List A) (x : A)
    → length xs < n
    → take n (xs ++ x ∷ []) ≡ take n xs ++ x ∷ []
take_room zero xs x h = ground (arith, h)
take_room (suc zero) [] x h = refl
take_room (suc (suc n)) [] x h = refl
take_room (suc n) (y ∷ xs) x h = ap (◌∷◌ y) (take_room n xs x (omega (arith, h)))

pub take_full {ℓ} :
    {A : Type ℓ} (n : ℕ) (xs : List A) (x : A) → n ≤ length xs → take n (xs ++ x ∷ []) ≡ take n xs
take_full zero xs x h = refl
take_full (suc n) [] x h = ground (arith, h)
take_full (suc n) (y ∷ xs) x h = ap (◌∷◌ y) (take_full n xs x (omega (arith, h)))

pub map-append {ℓ κ} :
    {A : Type ℓ} {B : Type κ} (g : A → B) (xs ys : List A) → map g (xs ++ ys) ≡ map g xs ++ map g ys
map-append g [] ys = refl
map-append g (x ∷ xs) ys = ap (◌∷◌ (g x)) (map-append g xs ys)

-- What a partition may still give: none when it is not read at all.
abbrev pub allowance : ℤ → List (ℤ × ℤ) → ℕ
allowance p limits = pos_part (unwrap_or (lookup p limits) (pos 0))

-- After the results of `front`, each partition has given its first messages in range, as many as
-- its limit lets it, and has the rest of its limit left.
pub record Inv (f : Fetch) (limits : List (ℤ × ℤ)) (front : List Polled) (s : Fetching)
    : Type 0 where
  pub taken :
      (p : ℤ)
      → of_partition p s.collected
        ≡ map (topic_message f) (take (allowance p limits) (in_range f p front))
  pub left : (p : ℤ) → allowance p s.remaining ≡ allowance p limits - length (in_range f p front)

-- The budgets and the messages alone matter.
pub same-Inv :
    (f : Fetch) (limits : List (ℤ × ℤ)) (front : List Polled) (s t : Fetching)
    → t.collected ≡ s.collected
    → t.remaining ≡ s.remaining
    → Inv f limits front s
    → Inv f limits front t
same-Inv f limits front s t messages budgets inv = record {
  taken = λ p. ap (of_partition p) messages ∙ inv.taken p;
  left = λ p. ap (allowance p) budgets ∙ inv.left p;
}

pub finish_keeps :
    (p : ℤ) (s : Fetching)
    → ((finish p s).collected ≡ s.collected) × ((finish p s).remaining ≡ s.remaining)
unfolding finish
finish_keeps p s = elim (Bool-cases (is_some (lookup p s.finished))) [
  | inl h ↦ rw h (refl, refl)
  | inr h ↦ rw h (refl, refl)
]

-- A result that is no message in range of any partition.
pub quiet-Inv :
    (f : Fetch) (limits : List (ℤ × ℤ)) (front : List Polled) (e : Polled) (s : Fetching)
    → ((p : ℤ) → in_range f p (e ∷ []) ≡ [])
    → Inv f limits front s
    → Inv f limits (front ++ e ∷ []) s
quiet-Inv f limits front e s quiet inv =
    let same : (p : ℤ) → in_range f p (front ++ e ∷ []) ≡ in_range f p front = λ p.
      in_range-append f p front (e ∷ [])
      ∙ ap (λ ms. in_range f p front ++ ms) (quiet p)
      ∙ append-nil (in_range f p front) in
    record {
      taken = λ p.
          inv.taken p
          ∙ ap (λ ms. map (topic_message f) (take (allowance p limits) ms)) (sym (same p));
      left = λ p. inv.left p ∙ ap (λ ms. allowance p limits - length ms) (sym (same p));
    }

pub in_range_other :
    (f : Fetch) (m : BorrowedMessage) (p : ℤ)
    → (m.partition == p) ≡ false
    → in_range f p (message m ∷ []) ≡ []
in_range_other f m p h = rw h refl

pub in_range_past :
    (f : Fetch) (m : BorrowedMessage) (p : ℤ)
    → is_past f m ≡ true
    → in_range f p (message m ∷ []) ≡ []
in_range_past f m p h = elim (Bool-cases (m.partition == p)) [
  | inl e ↦ rw (e, h) refl
  | inr e ↦ rw e refl
]

pub in_range_own :
    (f : Fetch) (m : BorrowedMessage) (p : ℤ)
    → (m.partition == p) ≡ true
    → is_past f m ≡ false
    → in_range f p (message m ∷ []) ≡ m ∷ []
in_range_own f m p h e = rw (h, e) refl

module _ (f : Fetch) (limits : List (ℤ × ℤ)) (front : List Polled) (m : BorrowedMessage)
    (s : Fetching) where
  pub unchanged :
      (p : ℤ)
      → in_range f p (message m ∷ []) ≡ []
      → in_range f p (front ++ message m ∷ []) ≡ in_range f p front
  unchanged p quiet =
      in_range-append f p front (message m ∷ [])
      ∙ ap (λ ms. in_range f p front ++ ms) quiet
      ∙ append-nil (in_range f p front)

  pub extended :
      (p : ℤ)
      → (m.partition == p) ≡ true
      → is_past f m ≡ false
      → in_range f p (front ++ message m ∷ []) ≡ in_range f p front ++ m ∷ []
  extended p own inside =
      in_range-append f p front (message m ∷ [])
      ∙ ap (λ ms. in_range f p front ++ ms) (in_range_own f m p own inside)

  -- A partition that has given all that its limit lets it.
  pub full_taken :
      allowance m.partition s.remaining ≡ 0
      → Inv f limits front s
      → (p : ℤ)
      → (of_partition p s.collected
          ≡ map
              (topic_message f)
              (take (allowance p limits) (in_range f p (front ++ message m ∷ []))))
        × (allowance p s.remaining
            ≡ allowance p limits - length (in_range f p (front ++ message m ∷ [])))
  full_taken full inv p = elim (Bool-cases (m.partition == p)) [
    | inr other ↦
        let same = unchanged p (in_range_other f m p other) in rw same (inv.taken p, inv.left p)
    | inl own ↦ elim (Bool-cases (is_past f m)) [
      | inl past ↦
          let same = unchanged p (in_range_past f m p past) in rw same (inv.taken p, inv.left p)
      | inr inside ↦
          let here : allowance p s.remaining ≡ 0 =
            ap (λ q. allowance q s.remaining) (sym ((eqb_ℤ_iff m.partition p).0 own)) ∙ full in
          let enough : allowance p limits ≤ length (in_range f p front) =
            omega (arith, here, inv.left p) in
          rw (extended p own inside) (
            inv.taken p
                ∙ ap (map (topic_message f))
                    (sym (take_full (allowance p limits) (in_range f p front) m enough)),
            omega (arith, here, enough, length-append (in_range f p front) (m ∷ [])),
          )
    ]
  ]

  pub full-Inv :
      allowance m.partition s.remaining ≡ 0
      → Inv f limits front s
      → Inv f limits (front ++ message m ∷ []) s
  full-Inv full inv = record {
    taken = λ p. (full_taken full inv p).0;
    left = λ p. (full_taken full inv p).1;
  }
