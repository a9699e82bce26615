-- ===== src/Core/Stream/Order.antt =====
-- What is emitted: every message once, in order, in batches of the right size.
use mathlib.Core.Bool.{◌&&◌}
use offset_explorer_oxide.Common.{
  ℕ, ◌+◌, ◌-◌, ◌≤◌, ◌<◌, max, ◌≡◌, refl, sym, ap, ◌∙◌, Bool, true, false, List, [], ◌∷◌, ◌++◌,
  arith, leb, ltb, if◌then◌else◌, length, length-append, concat, concat-append, All, All-append,
  inl, inr, Bool-cases,
}
use offset_explorer_oxide.Core.Stream.{
  Input, message, elapsed, Stream, start, is_empty, flush, report, take_message, send_rest, loop,
  forward_in_batches,
}
use mathlib.Core.List.{append_assoc, append-nil}

module _ {ℓ} {M : Type ℓ} where
  -- The messages that reach the loop before it sees the cancel flag set.
  abbrev pub accepted : List (Input M) → List M
  accepted [] = []
  accepted (elapsed ∷ rest) = accepted rest
  accepted (message m true ∷ rest) = []
  accepted (message m false ∷ rest) = m ∷ accepted rest

  -- Whether the loop ever sees the flag set.
  abbrev pub stopped : List (Input M) → Bool
  stopped [] = false
  stopped (elapsed ∷ rest) = stopped rest
  stopped (message m true ∷ rest) = true
  stopped (message m false ∷ rest) = stopped rest

  abbrev pub IsBatch : ℕ → List M → Type 0
  IsBatch size b = (1 ≤ length b) × (length b ≤ size)

  -- The state after the messages `ms`.
  pub record IsFaithful (size : ℕ) (ms : List M) (s : Stream M) : Type ℓ where
    pub order : concat s.emits ++ s.batch ≡ ms
    pub count : s.emitted ≡ length (concat s.emits)
    pub room : length s.batch < size
    pub sizes : All (IsBatch size) s.emits

  concat-snoc : (xss : List (List M)) (xs : List M) → concat (xss ++ (xs ∷ [])) ≡ concat xss ++ xs
  concat-snoc xss xs = concat-append xss (xs ∷ []) ∙ ap (◌++◌ (concat xss)) (append-nil xs)

  flush-IsFaithful :
      (size : ℕ) (ms : List M) (s : Stream M)
      → concat s.emits ++ s.batch ≡ ms
      → s.emitted ≡ length (concat s.emits)
      → All (IsBatch size) s.emits
      → IsBatch size s.batch
      → IsFaithful size ms (flush s)
  unfolding flush
  flush-IsFaithful size ms s o c z b = record {
    order = append-nil (concat (s.emits ++ (s.batch ∷ []))) ∙ concat-snoc s.emits s.batch ∙ o;
    count = rw (concat-snoc s.emits s.batch, length-append (concat s.emits) s.batch) (omega arith);
    room = omega arith;
    sizes = All-append (IsBatch size) s.emits (s.batch ∷ []) z (b, tt);
  }

  report-IsFaithful :
      (size every : ℕ) (ms : List M) (s : Stream M)
      → IsFaithful size ms s
      → IsFaithful size ms (report every s)
  unfolding report
  report-IsFaithful size every ms s v =
      elim (Bool-cases (ltb 0 every && leb every (s.emitted + length s.batch - s.reported_at))) [
        | inl h ↦ rw h (record { order = v.order; count = v.count; room = v.room; sizes = v.sizes })
        | inr h ↦ rw h v
      ]

  take_message-IsFaithful :
      (size every : ℕ) (ms : List M) (s : Stream M) (m : M)
      → IsFaithful size ms s
      → IsFaithful size (ms ++ (m ∷ [])) (take_message size every s m)
  unfolding take_message
  take_message-IsFaithful size every ms s m v =
      report-IsFaithful size every _ _
        (elim (Bool-cases (leb size (length (s.batch ++ (m ∷ []))))) [
          | inl h ↦ rw h (
              flush-IsFaithful size _ _ order v.count v.sizes
                (omega (arith, v.room, length-append s.batch (m ∷ []))))
          | inr h ↦
              rw h (record {
                order = order;
                count = v.count;
                room = ground (arith, h);
                sizes = v.sizes;
              })
        ])
    where
      order : concat s.emits ++ (s.batch ++ (m ∷ [])) ≡ ms ++ (m ∷ [])
      order = sym (append_assoc (concat s.emits) s.batch (m ∷ [])) ∙ ap (λ l. l ++ (m ∷ [])) v.order

  is_empty-length : (b : List M) → is_empty b ≡ false → 1 ≤ length b
  is_empty-length [] h = cc
  is_empty-length (m ∷ b) h = omega arith

  flush_partial-IsFaithful :
      (size : ℕ) (ms : List M) (s : Stream M)
      → IsFaithful size ms s
      → is_empty s.batch ≡ false
      → IsFaithful size ms (flush s)
  flush_partial-IsFaithful size ms s v h =
      flush-IsFaithful size ms s v.order v.count v.sizes
        (omega (arith, v.room, is_empty-length s.batch h))

  elapse-IsFaithful :
      (size : ℕ) (ms : List M) (s : Stream M)
      → IsFaithful size ms s
      → IsFaithful size ms (if is_empty s.batch then s else flush s)
  elapse-IsFaithful size ms s v = elim (Bool-cases (is_empty s.batch)) [
    | inl h ↦ rw h v
    | inr h ↦ rw h (flush_partial-IsFaithful size ms s v h)
  ]

  send_rest-IsFaithful :
      (size : ℕ) (ms : List M) (s : Stream M)
      → IsFaithful size ms s
      → IsFaithful size ms (send_rest s) × ((send_rest s).batch ≡ [])
  unfolding send_rest
  send_rest-IsFaithful size ms s v = elim (Bool-cases (is_empty s.batch)) [
    | inl h ↦
        let e : s.batch ≡ [] = ground (arith, h) in
        rw h (
          record {
            order = v.order;
            count = omega (arith, v.count, ap length e);
            room = v.room;
            sizes = v.sizes;
          },
          e,
        )
    | inr h ↦ rw h (flush_partial-IsFaithful size ms s v h, unfold flush in refl)
  ]

  loop-IsFaithful :
      (size every : ℕ) (inputs : List (Input M)) (ms : List M) (s : Stream M)
      → IsFaithful size ms s
      → IsFaithful size (ms ++ accepted inputs) (loop size every inputs s)
        × (stopped inputs ≡ false → (loop size every inputs s).batch ≡ [])
  unfolding loop
  loop-IsFaithful size every [] ms s v =
      let (w, e) = send_rest-IsFaithful size ms s v in (rw append-nil w, λ _. e)
  loop-IsFaithful size every (elapsed ∷ rest) ms s v =
      loop-IsFaithful size every rest ms (if is_empty s.batch then s else flush s)
        (elapse-IsFaithful size ms s v)
  loop-IsFaithful size every (message m true ∷ rest) ms s v = (rw append-nil v, λ h. cc)
  loop-IsFaithful size every (message m false ∷ rest) ms s v =
      rw (← append_assoc ms (m ∷ []) (accepted rest)) (
        loop-IsFaithful size every rest (ms ++ (m ∷ [])) (take_message size every s m)
          (take_message-IsFaithful size every ms s m v))

  -- The returned count is the number of messages handed to `emit`; no batch is empty or larger than
  -- the batch size; the messages emitted, followed by those still buffered, are those that arrived
  -- before the cancel flag was seen, each once and in order; fewer than a batch are buffered at the
  -- end, and none if the flag was never seen.
  pub forward_in_batches-IsFaithful :
      (batch_size every : ℕ) (inputs : List (Input M))
      → let s = forward_in_batches batch_size every inputs in
        IsFaithful (max batch_size 1) (accepted inputs) s × (stopped inputs ≡ false → s.batch ≡ [])
  unfolding forward_in_batches
  forward_in_batches-IsFaithful batch_size every inputs =
      loop-IsFaithful (max batch_size 1) every inputs [] start
        (record { order = refl; count = refl; room = omega arith; sizes = tt })
