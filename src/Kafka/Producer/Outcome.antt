-- ===== src/Kafka/Producer/Outcome.antt =====
-- What a publish reports of each record, told as a run of sends.
use offset_explorer_oxide.Common.{
  ℕ, ◌+◌, String, ◌≡◌, refl, sym, ap, ◌∙◌, ◌⊎◌, inl, inr, Option, none, some, List, [], ◌∷◌, ◌++◌,
  arith, length,
}
use offset_explorer_oxide.Common.Int.{ℤ}
use offset_explorer_oxide.Core.Publish.{
  EncodedRecord, DeliveredRecord, PublishFailure, PublishOutcome, default,
}
use offset_explorer_oxide.Kafka.Auth.{KafkaError}
use offset_explorer_oxide.Kafka.Producer.{
  ProducerErrorContext, future_record, Answer, delivered_at, rejected_with, Client, error_each,
  failure_of, send_each, no_errors, publish_messages,
}
use mathlib.Core.List.{append_assoc, append-nil}

Answer-cases :
    (a : Answer)
    → ((p : ℤ) × (o : ℤ) × (a ≡ delivered_at p o)) ⊎ ((e : KafkaError) × (a ≡ rejected_with e))
Answer-cases (delivered_at p o) = inl (p, o, refl)
Answer-cases (rejected_with e) = inr (e, refl)

abbrev pub failed : Option PublishFailure → ℕ
failed none = 0
failed (some f) = 1

module _ (client : Client) (to_lowercase : String → String) (topic : String) (partition : ℤ) where
  open client use {Cluster, create, send, flush}

  abbrev pub after : Cluster → EncodedRecord → Cluster
  after c r = (send c (future_record topic partition r)).0

  abbrev pub answer : Cluster → EncodedRecord → Answer
  answer c r = (send c (future_record topic partition r)).2

  abbrev pub errors_after : ProducerErrorContext → Cluster → EncodedRecord → ProducerErrorContext
  errors_after errors c r =
      error_each to_lowercase errors (send c (future_record topic partition r)).1

  -- Sending the records in order from a cluster is acknowledged each time, the first at the given
  -- index of the batch, and leads to the last cluster with the last errors.
  abbrev pub Acknowledged :
      ℕ
      → Cluster
      → ProducerErrorContext
      → List EncodedRecord
      → List DeliveredRecord
      → Cluster
      → ProducerErrorContext
      → Type 0
  Acknowledged i c errors [] [] c' errors' = (c' ≡ c) × (errors' ≡ errors)
  Acknowledged i c errors (r ∷ rs) (d ∷ ds) c' errors' =
      (d.index ≡ i)
      × (answer c r ≡ delivered_at d.partition d.offset)
      × Acknowledged (i + 1) (after c r) (errors_after errors c r) rs ds c' errors'
  Acknowledged i c errors [] (_ ∷ _) c' errors' = ⊥
  Acknowledged i c errors (_ ∷ _) [] c' errors' = ⊥

  -- What the report says of the records that were not acknowledged: there are none, or the first
  -- of them was sent and rejected and the others were not sent.
  abbrev pub Stopped :
      ℕ → Cluster → ProducerErrorContext → List EncodedRecord → Cluster → PublishOutcome → Type 0
  Stopped i c errors [] c' out = (c' ≡ c) × (out.failure ≡ none) × (out.not_attempted ≡ 0)
  Stopped i c errors (r ∷ rest) c' out =
      (e : KafkaError) × (answer c r ≡ rejected_with e)
      × (c' ≡ after c r)
      × (out.failure
          ≡ some (failure_of client to_lowercase topic partition i e (errors_after errors c r)))
      × (out.not_attempted ≡ length rest)

  -- A run from an index: some records acknowledged, and what stopped it.
  pub record Run (i : ℕ) (c : Cluster) (errors : ProducerErrorContext) (rs : List EncodedRecord)
      (before : List DeliveredRecord) (c' : Cluster) (out : PublishOutcome) : Type 0 where
    pub front : List EncodedRecord
    pub rest : List EncodedRecord
    pub ds : List DeliveredRecord
    pub between : Cluster
    pub errors_between : ProducerErrorContext
    pub split : rs ≡ front ++ rest
    pub acknowledged : Acknowledged i c errors front ds between errors_between
    pub position : ℕ
    pub position_lem : position ≡ i + length front
    pub stopped : Stopped position between errors_between rest c' out
    pub delivered : out.delivered ≡ before ++ ds

  send_each-Run :
      (count i : ℕ) (rs : List EncodedRecord) (c : Cluster) (errors : ProducerErrorContext)
      (out : PublishOutcome)
      → count ≡ i + length rs
      → out.failure ≡ none
      → out.not_attempted ≡ 0
      → let end = send_each client to_lowercase topic partition count i rs c errors out in
        Run i c errors rs out.delivered end.0 end.1
  unfolding send_each
  send_each-Run count i [] c errors out n fine all_left = record {
    front = [];
    rest = [];
    ds = [];
    between = c;
    errors_between = errors;
    split = refl;
    acknowledged = (refl, refl);
    position = i;
    position_lem = omega arith;
    stopped = (refl, fine, all_left);
    delivered = sym (append-nil out.delivered);
  }
  send_each-Run count i (r ∷ rs) c errors out n fine all_left = elim (Answer-cases (answer c r)) [
    | inl (p, o, h) ↦
        let d : DeliveredRecord = record { index = i; partition = p; offset = o } in
        let more =
          send_each-Run count (i + 1) rs (after c r) (errors_after errors c r)
            (record out { delivered = out.delivered ++ d ∷ [] }) (omega arith) fine all_left in
        rw h (record {
          front = r ∷ more.front;
          rest = more.rest;
          ds = d ∷ more.ds;
          between = more.between;
          errors_between = more.errors_between;
          split = ap (◌∷◌ r) more.split;
          acknowledged = (refl, h, more.acknowledged);
          position = more.position;
          position_lem = omega (arith, more.position_lem);
          stopped = more.stopped;
          delivered = more.delivered ∙ append_assoc out.delivered (d ∷ []) more.ds;
        })
    | inr (e, h) ↦ rw h (record {
      front = [];
      rest = r ∷ rs;
      ds = [];
      between = c;
      errors_between = errors;
      split = refl;
      acknowledged = (refl, refl);
      position = i;
      position_lem = omega arith;
      stopped = (e, h, refl, refl, omega arith);
      delivered = sym (append-nil out.delivered);
    })
  ]

  -- Reports of a whole batch.
  abbrev pub Reported : List EncodedRecord → Cluster → Cluster → PublishOutcome → Type 0
  Reported records c c' out =
      (front : List EncodedRecord) × (rest : List EncodedRecord) × (between : Cluster)
      × (errors : ProducerErrorContext) × (records ≡ front ++ rest)
      × Acknowledged 0 c no_errors front out.delivered between errors
      × Stopped (length front) between errors rest c' out

  -- When the producer can be created, a publish reports an outcome: for some split of the batch the
  -- records of the first part were sent in order, each acknowledged, and `delivered` lists their
  -- indices with the partitions and offsets of the acknowledgements; and either nothing is left, with
  -- no failure and none unattempted, or the next record was sent and rejected, `failure` has its
  -- index and the rejection's kind and text, and the others were not sent and are counted in
  -- `not_attempted`. The cluster is that after these sends and the flush.
  pub publish_messages-Reported :
      (records : List EncodedRecord) (c : Cluster)
      → create c ≡ none
      → (c' : Cluster) × (out : PublishOutcome) × (publish_messages client to_lowercase topic
            partition records c
          ≡ (flush c', inr out))
        × Reported records c c' out
  unfolding publish_messages
  publish_messages-Reported records c made =
      let run =
        send_each-Run (length records) 0 records c no_errors default (omega arith) refl refl in
      let here : run.position ≡ length run.front = omega (arith, run.position_lem) in
      let end =
        send_each client to_lowercase topic partition (length records) 0 records c no_errors
          default in
      (
        end.0,
        end.1,
        rw made refl,
        (
          run.front,
          run.rest,
          run.between,
          run.errors_between,
          run.split,
          rw run.delivered run.acknowledged,
          rw (sym here) run.stopped,
        ),
      )
