-- ===== src/Core/Stream/Progress.antt =====
-- When progress is reported: at every multiple of the interval, counted over messages.
use Prim.Native.Nat.{zero}
use mathlib.Core.Bool.{◌&&◌}
use native.Mathlib.Nat.{
  div-mul-le_self, lt-div-mul-add, div-eq_of_lt-le, div-zero, zero-div, add-zero,
}
use offset_explorer_oxide.Common.{
  ℕ, suc, ◌+◌, ◌-◌, ◌*◌, ◌/◌, ◌≤◌, ◌<◌, max, ◌≡◌, refl, sym, ap, ◌∙◌, Bool, true, false, List, [],
  ◌∷◌, ◌++◌, arith, leb, ltb, if◌then◌else◌, length, length-append, inl, inr, Bool-cases, dec_lt,
}
use offset_explorer_oxide.Core.Stream.{
  Input, message, elapsed, Stream, start, is_empty, flush, report, take_message, send_rest, loop,
  forward_in_batches,
}
use offset_explorer_oxide.Core.Stream.Order.{accepted}

-- k, 2k, …, nk
abbrev pub multiples : ℕ → ℕ → List ℕ
multiples k zero = []
multiples k (suc n) = multiples k n ++ ((suc n * k) ∷ [])

suc-div_same : (n k : ℕ) → suc n < suc (n / k) * k → suc n / k ≡ n / k
suc-div_same n k h = div-eq_of_lt-le k (omega (arith, div-mul-le_self n k)) (omega (arith, h))

suc-div_next : (n k : ℕ) → 0 < k → suc (n / k) * k ≤ suc n → suc n / k ≡ suc (n / k)
suc-div_next n k h g = div-eq_of_lt-le k g (omega (arith, lt-div-mul-add {a = n} h))

-- The counters after `n` messages.
record HasReported {ℓ} {M : Type ℓ} (every n : ℕ) (s : Stream M) : Type 0 where
  seen : s.emitted + length s.batch ≡ n
  last : s.reported_at ≡ n / every * every
  reports : s.progress ≡ multiples every (n / every)

suc-div_zero : (n k : ℕ) → k ≡ 0 → suc n / k ≡ n / k
suc-div_zero n k h = rw h (div-zero (suc n) ∙ sym (div-zero n))

abbrev due : ℕ → ℕ → ℕ → Bool
due k seen at = ltb 0 k && leb k (seen - at)

due_next : (n k : ℕ) → due k (suc n) (n / k * k) ≡ true → suc n / k ≡ suc (n / k)
due_next n k h = suc-div_next n k (ground (arith, h)) (ground (arith, h, div-mul-le_self n k))

due_exact : (n k : ℕ) → due k (suc n) (n / k * k) ≡ true → suc n ≡ suc (n / k) * k
due_exact n k h =
    let p : 0 < k = ground (arith, h) in
    let g : suc (n / k) * k ≤ suc n = ground (arith, h, div-mul-le_self n k) in
    omega (arith, g, lt-div-mul-add {a = n} p)

due_same : (n k : ℕ) → due k (suc n) (n / k * k) ≡ false → suc n / k ≡ n / k
due_same zero k h = elim (dec_lt 0 k) [
  | yes g ↦ suc-div_same zero k (ground (arith, h, div-mul-le_self zero k))
  | no g ↦ suc-div_zero zero k (omega arith)
]
due_same n k h = elim (dec_lt 0 k) [
  | yes g ↦ suc-div_same n k (ground (arith, h, div-mul-le_self n k))
  | no g ↦ suc-div_zero n k (omega arith)
]

module _ {ℓ} {M : Type ℓ} where
  start-HasReported : (every : ℕ) → HasReported every 0 (start {M = M})
  start-HasReported every = record {
    seen = refl;
    last = rw (zero-div every) (omega arith);
    reports = rw (zero-div every) refl;
  }

  -- One more message: a report exactly when the next multiple is reached.
  report-HasReported :
      (every n : ℕ) (s : Stream M)
      → s.emitted + length s.batch ≡ suc n
      → s.reported_at ≡ n / every * every
      → s.progress ≡ multiples every (n / every)
      → HasReported every (suc n) (report every s)
  unfolding report
  report-HasReported every n s e l r =
      elim (Bool-cases (due every (s.emitted + length s.batch) s.reported_at)) [
        | inl h ↦
            let q : suc n / every ≡ suc (n / every) = due_next n every (rw (e, l) at h) in
            rw h (record {
              seen = e;
              last = rw q (e ∙ due_exact n every (rw (e, l) at h));
              reports =
                  rw (q, r, e)
                    (ap (λ t. multiples every (n / every) ++ (t ∷ []))
                      (due_exact n every (rw (e, l) at h)));
            })
        | inr h ↦
            let q : suc n / every ≡ n / every = due_same n every (rw (e, l) at h) in
            rw h (record { seen = e; last = rw q l; reports = rw q r })
      ]

  length-snoc : (b : List M) (m : M) → length (b ++ (m ∷ [])) ≡ suc (length b)
  length-snoc b m = omega (arith, length-append b (m ∷ []))

  take_message-HasReported :
      (size every n : ℕ) (s : Stream M) (m : M)
      → HasReported every n s
      → HasReported every (suc n) (take_message size every s m)
  unfolding take_message flush
  take_message-HasReported size every n s m v =
      report-HasReported every n next (kept.0) (kept.1) (kept.2)
    where
      next : Stream M
      next =
          let s' : Stream M = record s { batch = s.batch ++ (m ∷ []) } in
          if leb size (length s'.batch) then flush s' else s'

      kept :
          (next.emitted + length next.batch ≡ suc n)
          × (next.reported_at ≡ n / every * every)
          × (next.progress ≡ multiples every (n / every))
      kept = elim (Bool-cases (leb size (length (s.batch ++ (m ∷ []))))) [
        | inl h ↦ rw h (omega (arith, v.seen, length-snoc s.batch m), v.last, v.reports)
        | inr h ↦ rw h (omega (arith, v.seen, length-snoc s.batch m), v.last, v.reports)
      ]

  flush-HasReported :
      (every n : ℕ) (s : Stream M) → HasReported every n s → HasReported every n (flush s)
  unfolding flush
  flush-HasReported every n s v = record {
    seen = omega (arith, v.seen);
    last = v.last;
    reports = v.reports;
  }

  elapse-HasReported :
      (every n : ℕ) (s : Stream M)
      → HasReported every n s
      → HasReported every n (if is_empty s.batch then s else flush s)
  elapse-HasReported every n s v = elim (Bool-cases (is_empty s.batch)) [
    | inl h ↦ rw h v
    | inr h ↦ rw h (flush-HasReported every n s v)
  ]

  progress-send_rest : (s : Stream M) → (send_rest s).progress ≡ s.progress
  unfolding send_rest flush
  progress-send_rest s = ground arith

  loop-progress :
      (size every : ℕ) (inputs : List (Input M)) (n : ℕ) (s : Stream M)
      → HasReported every n s
      → (loop size every inputs s).progress
        ≡ multiples every ((n + length (accepted inputs)) / every)
  unfolding loop
  loop-progress size every [] n s v = rw (progress-send_rest s, add-zero n) v.reports
  loop-progress size every (elapsed ∷ rest) n s v =
      loop-progress size every rest n (if is_empty s.batch then s else flush s)
        (elapse-HasReported every n s v)
  loop-progress size every (message m true ∷ rest) n s v = rw (add-zero n) v.reports
  loop-progress size every (message m false ∷ rest) n s v =
      loop-progress size every rest (suc n) (take_message size every s m)
        (take_message-HasReported size every n s m v)
      ∙ ap (λ t. multiples every (t / every)) (omega arith)

  -- Progress is reported at each multiple of the interval up to the number of messages that arrived
  -- before the cancel flag was seen, once each and in order; an interval of 0 reports nothing.
  pub forward_in_batches-progress :
      (batch_size every : ℕ) (inputs : List (Input M))
      → (forward_in_batches batch_size every inputs).progress
        ≡ multiples every (length (accepted inputs) / every)
  unfolding forward_in_batches
  forward_in_batches-progress batch_size every inputs =
      loop-progress (max batch_size 1) every inputs 0 start (start-HasReported every)
      ∙ ap (λ n. multiples every (n / every)) (omega arith)
