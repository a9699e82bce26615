-- ===== src/Kafka/Fetch/Idle.antt =====
-- A broker that has nothing to give.
use native.Mathlib.Nat.{suc-mul}
use offset_explorer_oxide.Common.{
  ℕ, suc, inl, inr, ◌==◌, ◌+◌, ◌*◌, ◌≤◌, ◌≡◌, refl, ap, ◌∙◌, Bool, true, false, not, ◌&&◌, List, [],
  ◌∷◌, length, ltb, is_some, All, Bool-cases, arith,
}
use offset_explorer_oxide.Common.Int.{pos, ltb_ℤ}
use offset_explorer_oxide.Kafka.Fetch.{
  Polled, message, partition_eof, poll_error, nothing, Fetch, Fetching, idle_timeout, step, goes_on,
  poll_loop,
}
use offset_explorer_oxide.Kafka.Fetch.Delivered.{poll_loop_ends, poll_loop_next, poll_loop_stops}

-- A poll that gave nothing, or an error.
abbrev pub IsQuiet : Bool × Polled → Type 0
IsQuiet (c, nothing) = Unit
IsQuiet (c, poll_error why) = Unit
IsQuiet (c, message m) = ⊥
IsQuiet (c, partition_eof p) = ⊥

quiet_step :
    (f : Fetch) (c : Bool) (e : Polled) (s : Fetching)
    → IsQuiet (c, e)
    → (step f e s).idle_elapsed ≡ s.idle_elapsed + f.poll_slice
unfolding step
quiet_step f c nothing s h = refl
quiet_step f c (poll_error why) s h = refl
quiet_step f c (message m) s h = absurd h
quiet_step f c (partition_eof p) s h = absurd h

and_false : (a b c : Bool) → a && b && false && c ≡ false
and_false true true c = refl
and_false true false c = refl
and_false false b c = refl

one_more : (a n t : ℕ) → a + suc n * t ≡ a + t + n * t
one_more a n t = omega (arith, suc-mul n t)

idled : (f : Fetch) (s : Fetching) → idle_timeout ≤ s.idle_elapsed → goes_on f s ≡ false
unfolding goes_on
idled f s h =
    let over : ltb s.idle_elapsed idle_timeout ≡ false = ground (arith, h) in
    rw over (
      and_false (not (s.unfinished == 0)) (ltb_ℤ (pos (length s.collected)) f.total_target)
        (not s.stopped_at_byte_budget))

-- Polls that give nothing or an error end the loop once they have taken ten seconds together with
-- the idle time before them, whatever the loop has read before.
pub poll_loop_idles :
    (f : Fetch) (events : List (Bool × Polled)) (s : Fetching)
    → All IsQuiet events
    → idle_timeout ≤ s.idle_elapsed + length events * f.poll_slice
    → is_some (poll_loop f events s) ≡ true
poll_loop_idles f [] s quiet long =
    ap is_some (poll_loop_ends f s (idled f s (omega (arith, long))))
poll_loop_idles f ((c, e) ∷ events) s (h, quiet) long = elim (Bool-cases (goes_on f s && not c)) [
  | inr off ↦ ap is_some (poll_loop_stops f s c e events off)
  | inl on ↦
      let longer = one_more s.idle_elapsed (length events) f.poll_slice in
      ap is_some (poll_loop_next f s c e events on)
      ∙ poll_loop_idles f events (step f e s) quiet
          (omega (arith, long, longer, quiet_step f c e s h))
]
