-- ===== src/Kafka/Assignment/Examples.antt =====
-- The round trip of an assignment of two topics, one without partitions.
use offset_explorer_oxide.Common.{◌≡◌, refl, inr, [], ◌∷◌, arith}
use offset_explorer_oxide.Common.Int.{pos}
use offset_explorer_oxide.Common.Utf8.{as_bytes, encode_char}
use offset_explorer_oxide.Kafka.Assignment.{decode_consumer_protocol_assignment}
use offset_explorer_oxide.Kafka.Assignment.RoundTrip.{
  Topic, IsTopic, encode_assignment, decode_consumer_protocol_assignment-encode_assignment,
}

abbrev orders : Topic
orders = record { name = 111 ∷ 233 ∷ []; partitions = pos 0 ∷ pos 7 ∷ [] }

abbrev empty : Topic
empty = record { name = 101 ∷ []; partitions = [] }

orders-IsTopic : IsTopic orders
unfolding as_bytes encode_char
orders-IsTopic = record {
  scalars = (refl, (refl, tt));
  short = omega arith;
  few = omega arith;
  partitions_fit = (omega arith, (omega arith, tt));
}

empty-IsTopic : IsTopic empty
unfolding as_bytes encode_char
empty-IsTopic = record {
  scalars = (refl, tt);
  short = omega arith;
  few = omega arith;
  partitions_fit = tt;
}

decode_consumer_protocol_assignment-encode_assignment_example :
    decode_consumer_protocol_assignment (encode_assignment 1 (orders ∷ empty ∷ []) (9 ∷ []))
    ≡ inr ((111 ∷ 233 ∷ [], pos 0) ∷ (111 ∷ 233 ∷ [], pos 7) ∷ [])
decode_consumer_protocol_assignment-encode_assignment_example =
    decode_consumer_protocol_assignment-encode_assignment 1 (orders ∷ empty ∷ []) (9 ∷ [])
      (omega arith) (omega arith) (orders-IsTopic, (empty-IsTopic, tt))
