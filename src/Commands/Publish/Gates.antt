-- ===== src/Commands/Publish/Gates.antt =====
-- Which publishes reach the cluster.
use offset_explorer_oxide.Common.{
  Bool, String, Option-cases, ◌↔◌, ◌≡◌, refl, ◌⊎◌, inl, inr, true, Option, none, List, arith,
}
use offset_explorer_oxide.Core.Connection.{Connection}
use offset_explorer_oxide.Core.Registry.{is_connected, auth_block_reason, write_denied_reason}
use offset_explorer_oxide.Core.Publish.{
  NewPublishMessage, EncodedRecord, for_max_message_size, Result, ok, err, encode_messages,
  publish_refusal, Reason,
}
use offset_explorer_oxide.Kafka.Producer.{publish_messages}
use offset_explorer_oxide.Commands.Publish.{
  CommandError, auth_blocked, not_loaded, refused, invalid, error, Setting, State, answered,
  connection_publish_messages,
}

Sum-cases : {A B : Type 0} (x : A ⊎ B) → ((a : A) × (x ≡ inl a)) ⊎ ((b : B) × (x ≡ inr b))
Sum-cases (inl a) = inl (a, refl)
Sum-cases (inr b) = inr (b, refl)

Result-cases : {A : Type 0} (x : Result A) → ((a : A) × (x ≡ ok a)) ⊎ ((e : Reason) × (x ≡ err e))
Result-cases (ok a) = inl (a, refl)
Result-cases (err e) = inr (e, refl)

-- A publish is refused by no gate exactly when it is connected, allowed and not denied.
publish_refusal-none :
    (connected allowed : Bool) (denial : Option String)
    → publish_refusal connected allowed denial ≡ none
      ↔ (connected ≡ true) × (allowed ≡ true) × (denial ≡ none)
unfolding publish_refusal
publish_refusal-none connected allowed denial = ground arith

module _ (setting : Setting) where
  open setting use {
    codecs, to_lowercase, client, saved, id, topic, partition, max_message_size_bytes,
  }

  -- The credentials are not blocked, the saved connection loads and allows publishing, it is
  -- connected, no denial of this topic is remembered, and the messages encode to these records.
  pub record MayPublish (s : State setting) (messages : List NewPublishMessage)
      (records : List EncodedRecord) : Type 0 where
    pub unblocked : auth_block_reason s.connections id ≡ none
    pub connection : Connection
    pub loads : saved id ≡ inr connection
    pub allows : connection.allow_publishing ≡ true
    pub connected : is_connected s.connections id ≡ true
    pub not_denied : write_denied_reason s.connections id topic ≡ none
    pub encoded :
        encode_messages codecs messages (for_max_message_size max_message_size_bytes) ≡ ok records

  -- Either the messages may be published as some records and the command does publish them, or there
  -- are no such records and the command answers an error and changes nothing: not the cluster, nor
  -- the registry, nor the pool.
  pub connection_publish_messages-MayPublish :
      (s : State setting) (messages : List NewPublishMessage)
      → ((records : List EncodedRecord) × MayPublish s messages records
          × (connection_publish_messages setting s messages
              ≡ answered setting s
                  (publish_messages client to_lowercase topic partition records s.cluster)))
        ⊎ (((e : CommandError) × (connection_publish_messages setting s messages ≡ (s, error e)))
            × ((records : List EncodedRecord) → MayPublish s messages records → ⊥))
  unfolding connection_publish_messages
  connection_publish_messages-MayPublish s messages =
      elim (Option-cases (auth_block_reason s.connections id)) [
        | inr (why, blocked) ↦
            inr ((auth_blocked why, rw blocked refl), λ records may. ground (arith, may.unblocked))
        | inl unblocked ↦ elim (Sum-cases (saved id)) [
          | inl (e, missing) ↦ inr (
            (not_loaded e, rw (unblocked, missing) refl),
            λ records may. ground (arith, may.loads),
          )
          | inr (connection, loads) ↦
              let gate =
                publish_refusal (is_connected s.connections id) connection.allow_publishing
                  (write_denied_reason s.connections id topic) in
              elim (Option-cases gate) [
                | inr (refusal, closed) ↦ inr (
                  (refused refusal, rw (unblocked, loads, closed) refl),
                  λ records may.
                      let allows : connection.allow_publishing ≡ true =
                        ground (arith, may.allows, may.loads, loads) in
                      let through =
                        (publish_refusal-none (is_connected s.connections id)
                            connection.allow_publishing
                            (write_denied_reason s.connections id topic)).1
                          (may.connected, allows, may.not_denied) in
                      ground (arith, through, closed),
                )
                | inl through ↦
                    let (connected, allows, not_denied) =
                      (publish_refusal-none (is_connected s.connections id)
                          connection.allow_publishing
                          (write_denied_reason s.connections id topic)).0
                        through in
                    elim (Result-cases (
                      encode_messages codecs messages
                        (for_max_message_size max_message_size_bytes))) [
                          | inl (records, encoded) ↦ inl (
                            records,
                            record {
                              unblocked = unblocked;
                              connection = connection;
                              loads = loads;
                              allows = allows;
                              connected = connected;
                              not_denied = not_denied;
                              encoded = encoded;
                            },
                            rw (unblocked, loads, through, encoded) refl,
                          )
                          | inr (e, broken) ↦ inr (
                            (invalid e, rw (unblocked, loads, through, broken) refl),
                            λ records may. ground (arith, may.encoded),
                          )
                        ]
              ]
        ]
      ]
