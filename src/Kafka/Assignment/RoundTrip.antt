-- ===== src/Kafka/Assignment/RoundTrip.antt =====
-- The decoder against Kafka's `ConsumerProtocolAssignment` format, written from its grammar.
use offset_explorer_oxide.Common.{
  ℕ, ◌-◌, ◌/◌, ◌%◌, ◌^◌, ◌<◌, ◌≡◌, refl, ap, ◌∙◌, inr, true, List, [], ◌∷◌, ◌++◌, map, arith,
  length, take, drop, All, length-append,
}
use offset_explorer_oxide.Common.Int.{ℤ, pos, negsuc}
use offset_explorer_oxide.Common.Utf8.{Text, Bytes, as_bytes}
use offset_explorer_oxide.Common.Utf8Decoding.{is_scalar, from_utf8-as_bytes}
use offset_explorer_oxide.Kafka.Assignment.{
  Read, ok, and_then, read_i16, read_i32, read_name, read_string, read_partitions, read_counted,
  read_topic, read_topics, read_assigned, result_of, decode_consumer_protocol_assignment,
}
use mathlib.Core.List.{append_assoc, append-nil}

-- Big-endian words before the bytes that follow them, and the pattern of an `i32`.
abbrev pub put_i16 : ℕ → Bytes → Bytes
put_i16 n rest = (n / 256) ∷ (n % 256) ∷ rest

abbrev pub put_i32 : ℕ → Bytes → Bytes
put_i32 n rest = (n / 16777216) ∷ (n / 65536 % 256) ∷ (n / 256 % 256) ∷ (n % 256) ∷ rest

abbrev pub bits32 : ℤ → ℕ
bits32 (pos n) = n
bits32 (negsuc n) = 2 ^ 32 - 1 - n

abbrev pub IsI32 : ℤ → Type 0
IsI32 (pos n) = n < 2 ^ 31
IsI32 (negsuc n) = n < 2 ^ 31

pub record Topic : Type 0 where
  pub name : Text
  pub partitions : List ℤ

abbrev pub put_string : Text → Bytes → Bytes
put_string name rest = put_i16 (length (as_bytes name)) (as_bytes name ++ rest)

abbrev pub put_partitions : List ℤ → Bytes → Bytes
put_partitions [] rest = rest
put_partitions (p ∷ ps) rest = put_i32 (bits32 p) (put_partitions ps rest)

abbrev pub put_topics : List Topic → Bytes → Bytes
put_topics [] rest = rest
put_topics (t ∷ ts) rest =
    put_string t.name
      (put_i32 (length t.partitions) (put_partitions t.partitions (put_topics ts rest)))

-- An assignment of any version, with any user data after the topics.
abbrev pub encode_assignment : ℕ → List Topic → Bytes → Bytes
encode_assignment version topics user_data =
    put_i16 version (put_i32 (length topics) (put_topics topics user_data))

abbrev pub pairs : List Topic → List (Text × ℤ)
pairs [] = []
pairs (t ∷ ts) = map (λ p. (t.name, p)) t.partitions ++ pairs ts

-- A topic that the format can hold.
pub record IsTopic (t : Topic) : Type 0 where
  pub scalars : All (λ c. is_scalar c ≡ true) t.name
  pub short : length (as_bytes t.name) < 2 ^ 15
  pub few : length t.partitions < 2 ^ 31
  pub partitions_fit : All IsI32 t.partitions

read_i16-put_i16 : (n : ℕ) (rest : Bytes) → n < 2 ^ 15 → read_i16 (put_i16 n rest) ≡ ok (pos n) rest
read_i16-put_i16 n rest h = ground arith

read_i32-put_i32 : (p : ℤ) (rest : Bytes) → IsI32 p → read_i32 (put_i32 (bits32 p) rest) ≡ ok p rest
read_i32-put_i32 (pos n) rest h = ground arith
read_i32-put_i32 (negsuc n) rest h = ground arith

take-append {ℓ} : {A : Type ℓ} (xs ys : List A) → take (length xs) (xs ++ ys) ≡ xs
take-append [] ys = refl
take-append (x ∷ xs) ys = ap (◌∷◌ x) (take-append xs ys)

drop-append {ℓ} : {A : Type ℓ} (xs ys : List A) → drop (length xs) (xs ++ ys) ≡ ys
drop-append [] ys = refl
drop-append (x ∷ xs) ys = drop-append xs ys

-- What follows a read that is known.
and_then_ok {ℓ κ} :
    {A : Type ℓ} {B : Type κ} {r : Read A} {a : A} {rest : Bytes} (f : A → Bytes → Read B)
    → r ≡ ok a rest
    → and_then r f ≡ f a rest
and_then_ok f h = ap (λ r. and_then r f) h

read_name_lem :
    (name : Text) (rest : Bytes)
    → All (λ c. is_scalar c ≡ true) name
    → read_name (pos (length (as_bytes name))) (as_bytes name ++ rest) ≡ ok name rest
read_name_lem name rest scalars = ground (
  arith,
  length-append (as_bytes name) rest,
  take-append (as_bytes name) rest,
  drop-append (as_bytes name) rest,
  from_utf8-as_bytes name scalars,
)

read_string-put_string :
    (name : Text) (rest : Bytes)
    → All (λ c. is_scalar c ≡ true) name
    → length (as_bytes name) < 2 ^ 15
    → read_string (put_string name rest) ≡ ok name rest
read_string-put_string name rest scalars short =
    and_then_ok read_name (read_i16-put_i16 (length (as_bytes name)) (as_bytes name ++ rest) short)
    ∙ read_name_lem name rest scalars

read_partitions-put_partitions :
    (topic : Text) (result : List (Text × ℤ)) (ps : List ℤ) (rest : Bytes)
    → All IsI32 ps
    → read_partitions (length ps) topic result (put_partitions ps rest)
      ≡ ok (result ++ map (λ p. (topic, p)) ps) rest
unfolding read_partitions
read_partitions-put_partitions topic result [] rest h = rw (append-nil result) refl
read_partitions-put_partitions topic result (p ∷ ps) rest (fit, fits) =
    and_then_ok (λ q. read_partitions (length ps) topic (result ++ (topic, q) ∷ []))
      (read_i32-put_i32 p (put_partitions ps rest) fit)
    ∙ read_partitions-put_partitions topic (result ++ (topic, p) ∷ []) ps rest fits
    ∙ rw (append_assoc result ((topic, p) ∷ []) (map (λ q. (topic, q)) ps)) refl

read_topic-put_topic :
    (result : List (Text × ℤ)) (t : Topic) (rest : Bytes)
    → IsTopic t
    → read_topic result
        (put_string t.name (put_i32 (length t.partitions) (put_partitions t.partitions rest)))
      ≡ ok (result ++ map (λ p. (t.name, p)) t.partitions) rest
read_topic-put_topic result t rest w =
    let after = put_i32 (length t.partitions) (put_partitions t.partitions rest) in
    and_then_ok (λ topic cursor. and_then (read_i32 cursor) (read_counted topic result))
      (read_string-put_string t.name after w.scalars w.short)
    ∙ and_then_ok (read_counted t.name result)
        (read_i32-put_i32 (pos (length t.partitions)) (put_partitions t.partitions rest) w.few)
    ∙ read_partitions-put_partitions t.name result t.partitions rest w.partitions_fit

read_topics-put_topics :
    (result : List (Text × ℤ)) (ts : List Topic) (rest : Bytes)
    → All IsTopic ts
    → read_topics (length ts) result (put_topics ts rest) ≡ ok (result ++ pairs ts) rest
unfolding read_topics
read_topics-put_topics result [] rest h = rw (append-nil result) refl
read_topics-put_topics result (t ∷ ts) rest (w, ws) =
    let more = map (λ (p : ℤ). (t.name, p)) t.partitions in
    and_then_ok (read_topics (length ts)) (read_topic-put_topic result t (put_topics ts rest) w)
    ∙ read_topics-put_topics (result ++ more) ts rest ws
    ∙ rw (append_assoc result more (pairs ts)) refl

-- Decoding the bytes of an assignment, of any version below 2^15 and with any user data after it,
-- gives its topics' names with each of their partitions, in order: for names of Unicode scalar
-- values, below 2^15 bytes each, fewer than 2^31 topics and partitions, and partitions of 32 bits.
pub decode_consumer_protocol_assignment-encode_assignment :
    (version : ℕ) (ts : List Topic) (user_data : Bytes)
    → version < 2 ^ 15
    → length ts < 2 ^ 31
    → All IsTopic ts
    → decode_consumer_protocol_assignment (encode_assignment version ts user_data) ≡ inr (pairs ts)
unfolding decode_consumer_protocol_assignment
decode_consumer_protocol_assignment-encode_assignment version ts user_data v few fits =
    ap result_of (
      and_then_ok (λ v cursor. and_then (read_i32 cursor) read_assigned)
        (read_i16-put_i16 version (put_i32 (length ts) (put_topics ts user_data)) v)
      ∙ and_then_ok read_assigned (read_i32-put_i32 (pos (length ts)) (put_topics ts user_data) few)
      ∙ read_topics-put_topics [] ts user_data fits)
