-- ===== src/Kafka/Assignment.antt =====
-- backend/kafka/src/assignment.rs: the topics and partitions in a consumer's assignment. A cursor is
-- the bytes from its position on; each error is an `AppError.kafka`, with its attachment as data.
pub mod RoundTrip
mod Examples
use offset_explorer_oxide.Common.{
  ℕ, zero, suc, ◌+◌, ◌*◌, ◌^◌, String, Bool, Option, none, some, List, [], ◌∷◌, ◌++◌, leb, ltb,
  if◌then◌else◌, length, take, drop, ◌⊎◌, inl, inr,
}
use offset_explorer_oxide.Common.Int.{ℤ, pos, negsuc, signed16, signed32}
use offset_explorer_oxide.Common.Utf8.{Text, Bytes}
use offset_explorer_oxide.Common.Utf8Decoding.{from_utf8}

pub data Truncation : Type 0 where
  expected_i16 expected_i32 null_topic_name expected_topic_name not_utf8 : Truncation

pub data Read {ℓ} (A : Type ℓ) : Type ℓ where
  ok : A → Bytes → Read A
  err : Truncation → Read A

abbrev pub and_then {ℓ κ} : {A : Type ℓ} {B : Type κ} → Read A → (A → Bytes → Read B) → Read B
and_then (ok a cursor) f = f a cursor
and_then (err e) f = err e

abbrev pub read_i16 : Bytes → Read ℤ
read_i16 (a ∷ b ∷ cursor) = ok (signed16 (a * 256 + b)) cursor
read_i16 _ = err expected_i16

abbrev pub read_i32 : Bytes → Read ℤ
read_i32 (a ∷ b ∷ c ∷ d ∷ cursor) = ok (signed32 (((a * 256 + b) * 256 + c) * 256 + d)) cursor
read_i32 _ = err expected_i32

abbrev pub as_topic : Option Text → Bytes → Read Text
as_topic none cursor = err not_utf8
as_topic (some name) cursor = ok name cursor

abbrev pub read_name : ℤ → Bytes → Read Text
read_name (negsuc n) cursor = err null_topic_name
read_name (pos n) cursor =
    if leb n (length cursor)
    then as_topic (from_utf8 (take n cursor)) (drop n cursor)
    else err expected_topic_name

abbrev pub read_string : Bytes → Read Text
read_string cursor = and_then (read_i16 cursor) read_name

-- The pairs so far grow at the end, as `result` does.
unfoldable pub read_partitions : ℕ → Text → List (Text × ℤ) → Bytes → Read (List (Text × ℤ))
read_partitions zero topic result cursor = ok result cursor
read_partitions (suc n) topic result cursor =
    and_then (read_i32 cursor) (λ p. read_partitions n topic (result ++ (topic, p) ∷ []))

-- The body of the loop over topics; a negative count is passed over.
abbrev pub read_counted : Text → List (Text × ℤ) → ℤ → Bytes → Read (List (Text × ℤ))
read_counted topic result (negsuc n) cursor = ok result cursor
read_counted topic result (pos n) cursor = read_partitions n topic result cursor

abbrev pub read_topic : List (Text × ℤ) → Bytes → Read (List (Text × ℤ))
read_topic result cursor =
    and_then (read_string cursor)
      (λ topic rest. and_then (read_i32 rest) (read_counted topic result))

unfoldable pub read_topics : ℕ → List (Text × ℤ) → Bytes → Read (List (Text × ℤ))
unfolding read_partitions
read_topics zero result cursor = ok result cursor
read_topics (suc n) result cursor = and_then (read_topic result cursor) (read_topics n)

abbrev pub read_assigned : ℤ → Bytes → Read (List (Text × ℤ))
read_assigned (negsuc n) cursor = ok [] cursor
read_assigned (pos n) cursor = read_topics n [] cursor

-- The cursor that is left over is dropped.
abbrev pub result_of : Read (List (Text × ℤ)) → Truncation ⊎ List (Text × ℤ)
result_of (err e) = inl e
result_of (ok result cursor) = inr result

unfoldable pub decode_consumer_protocol_assignment : Bytes → Truncation ⊎ List (Text × ℤ)
unfolding read_topics
decode_consumer_protocol_assignment bytes =
    result_of
      (and_then (read_i16 bytes) (λ version cursor. and_then (read_i32 cursor) read_assigned))
