-- ===== src/Kafka/Fetch/Collected.antt =====
-- A message that a fetch takes.
use mathlib.Core.List.{append-nil}
use offset_explorer_oxide.Common.{
  ◌-◌, ◌≤◌, ◌<◌, ◌≡◌, refl, sym, ap, ◌∙◌, true, false, some, inl, inr, List, [], ◌∷◌, ◌++◌, map,
  if◌then◌else◌, length, take, unwrap_or, Bool-cases, length-append, arith,
}
use offset_explorer_oxide.Common.Int.{ℤ, pos, pos_part, ◌-ℤ◌, ltb_ℤ, eqb_ℤ_iff}
use offset_explorer_oxide.Common.Equality.{◌==◌, int_eq}
use offset_explorer_oxide.Common.Dict.{lookup, lookup-insert}
use offset_explorer_oxide.Common.Dict.{insert as put}
use offset_explorer_oxide.Kafka.Fetch.{
  BorrowedMessage, TopicMessage, Polled, message, Fetch, Fetching, topic_message, is_past, collect,
}
use offset_explorer_oxide.Kafka.Fetch.Taken.{
  in_range, of_partition, keep_if-append, take_room, map-append, allowance, Inv, finish_keeps,
  in_range_other, unchanged, extended,
}

pub collect_keeps :
    (f : Fetch) (m : BorrowedMessage) (budget : ℤ) (s : Fetching)
    → ((collect f m budget s).collected ≡ s.collected ++ topic_message f m ∷ [])
      × ((collect f m budget s).remaining ≡ put m.partition (budget -ℤ pos 1) s.remaining)
unfolding collect
collect_keeps f m budget s = elim (Bool-cases (ltb_ℤ (pos 0) (budget -ℤ pos 1))) [
  | inl h ↦ rw h (refl, refl)
  | inr h ↦ rw h (finish_keeps m.partition _)
]

pub topic_partition :
    (f : Fetch) (m : BorrowedMessage) → (topic_message f m).partition ≡ m.partition
unfolding topic_message
topic_partition f m = refl

pub of_partition_last :
    (f : Fetch) (m : BorrowedMessage) (p : ℤ) (ms : List TopicMessage)
    → of_partition p (ms ++ topic_message f m ∷ [])
      ≡ of_partition p ms ++ (if m.partition == p then topic_message f m ∷ [] else [])
of_partition_last f m p ms =
    keep_if-append (λ (t : TopicMessage). t.partition == p) ms (topic_message f m ∷ [])
    ∙ ap (λ q. of_partition p ms ++ (if q == p then topic_message f m ∷ [] else []))
        (topic_partition f m)

pub spent :
    (budget : ℤ) → ltb_ℤ (pos 0) budget ≡ true → pos_part (budget -ℤ pos 1) ≡ pos_part budget - 1
unfolding ◌-ℤ◌
spent budget h = ground (arith, h)

pub positive : (budget : ℤ) → ltb_ℤ (pos 0) budget ≡ true → 1 ≤ pos_part budget
positive budget h = ground (arith, h)

module _ (f : Fetch) (limits : List (ℤ × ℤ)) (front : List Polled) (m : BorrowedMessage)
    (s : Fetching) (budget : ℤ) (known : lookup m.partition s.remaining ≡ some budget)
    (more : ltb_ℤ (pos 0) budget ≡ true) (inside : is_past f m ≡ false)
    (inv : Inv f limits front s) where
  pub known_allowance : allowance m.partition s.remaining ≡ pos_part budget
  known_allowance = ap (λ o. pos_part (unwrap_or o (pos 0))) known

  pub collected_last :
      (p : ℤ)
      → of_partition p (collect f m budget s).collected
        ≡ of_partition p s.collected ++ (if m.partition == p then topic_message f m ∷ [] else [])
  collected_last p =
      ap (of_partition p) (collect_keeps f m budget s).0 ∙ of_partition_last f m p s.collected

  pub remaining_last :
      (p : ℤ)
      → allowance p (collect f m budget s).remaining
        ≡ (if m.partition == p then pos_part budget - 1 else allowance p s.remaining)
  remaining_last p =
      ap (allowance p) (collect_keeps f m budget s).1
      ∙ ap (λ o. pos_part (unwrap_or o (pos 0)))
          (lookup-insert m.partition p (budget -ℤ pos 1) s.remaining)
      ∙ elim (Bool-cases (m.partition == p)) [
        | inl own ↦ rw own (spent budget more)
        | inr other ↦ rw other refl
      ]

  pub collect_taken :
      (p : ℤ)
      → (of_partition p (collect f m budget s).collected
          ≡ map
              (topic_message f)
              (take (allowance p limits) (in_range f p (front ++ message m ∷ []))))
        × (allowance p (collect f m budget s).remaining
            ≡ allowance p limits - length (in_range f p (front ++ message m ∷ [])))
  collect_taken p = elim (Bool-cases (m.partition == p)) [
    | inr other ↦
        let same = unchanged f limits front m s p (in_range_other f m p other) in
        (
          collected_last p
              ∙ rw (other, same) (append-nil (of_partition p s.collected) ∙ inv.taken p),
          remaining_last p ∙ rw (other, same) (inv.left p),
        )
    | inl own ↦
        let given = in_range f p front in
        let here : allowance p s.remaining ≡ pos_part budget =
          ap (λ q. allowance q s.remaining) (sym ((eqb_ℤ_iff m.partition p).0 own))
          ∙ known_allowance in
        let room : length given < allowance p limits =
          omega (arith, here, positive budget more, inv.left p) in
        let shown = topic_message f m in
        let grown : map (topic_message f) (take (allowance p limits) (given ++ m ∷ []))
            ≡ map (topic_message f) (take (allowance p limits) given) ++ shown ∷ [] =
          ap (map (topic_message f)) (take_room (allowance p limits) given m room)
          ∙ map-append (topic_message f) (take (allowance p limits) given) (m ∷ []) in
        let next = extended f limits front m s p own inside in
        (
          collected_last p ∙ rw (own, next) (ap (λ ms. ms ++ shown ∷ []) (inv.taken p) ∙ sym grown),
          remaining_last p
              ∙ rw (own, next) (omega (arith, here, inv.left p, length-append given (m ∷ []))),
        )
  ]

  pub collect-Inv : Inv f limits (front ++ message m ∷ []) (collect f m budget s)
  collect-Inv = record { taken = λ p. (collect_taken p).0; left = λ p. (collect_taken p).1 }
