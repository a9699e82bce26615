-- ===== src/Protobuf/Wire/Fields/RoundTrip.antt =====
-- What is read of a message that was put together.
use mathlib.Core.List.{append_assoc}
use offset_explorer_oxide.Common.{
  ℕ, zero, suc, ◌+◌, ◌*◌, ◌/◌, ◌%◌, ◌^◌, ◌≤◌, ◌<◌, true, false, ◌==◌, Option, some, List, [], ◌∷◌,
  ◌++◌, map, inl, inr, ◌≡◌, sym, ap, ◌∙◌, arith, Bool-cases, All, leb, ltb, length, length-append,
}
use offset_explorer_oxide.Common.Digits.{decimal}
use offset_explorer_oxide.Common.Options.{◌>>=◌}
use offset_explorer_oxide.Common.Utf8.{Bytes}
use offset_explorer_oxide.Protobuf.Json.{object, Fields, end, push_value}
use offset_explorer_oxide.Protobuf.Wire.{read_varint}
use offset_explorer_oxide.Protobuf.Wire.Varint.{put_varint, put_digits, read_varint-put_varint}
use offset_explorer_oxide.Protobuf.Wire.Fields.{
  FloatTexts, from_bits, decode_value, decode_field, decode_loop, decode_fields, decode_raw,
}
use offset_explorer_oxide.Protobuf.Wire.Fields.Advance.{decode_field_step, decode_field_bounds}
use offset_explorer_oxide.Protobuf.Wire.Fields.Fuel.{
  decode_loop_turn, decode_loop_end, decode_fields_step,
}
use offset_explorer_oxide.Protobuf.Wire.Fields.Gather.{push_all}
use offset_explorer_oxide.Protobuf.Wire.Fields.Message.{
  Payload, varint_payload, fixed64_payload, fixed32_payload, content_payload, wire_type, wire_bits,
  put_payload, put_field, put_message, IsField, payload_value, field_value,
  decode_value-put_payload,
}

from_bits-wire_bits :
    (n : ℕ) (p : Payload) → from_bits ((n * 8 + wire_bits p) % 8) ≡ some (wire_type p)
unfolding from_bits
from_bits-wire_bits n (varint_payload v) = ground arith
from_bits-wire_bits n (fixed64_payload v) = ground arith
from_bits-wire_bits n (fixed32_payload v) = ground arith
from_bits-wire_bits n (content_payload c) = ground arith

key_number : (n : ℕ) (p : Payload) → (n * 8 + wire_bits p) / 8 ≡ n
key_number n (varint_payload v) = omega arith
key_number n (fixed64_payload v) = omega arith
key_number n (fixed32_payload v) = omega arith
key_number n (content_payload c) = omega arith

key_fits : (n : ℕ) (p : Payload) → n < 2 ^ 61 → n * 8 + wire_bits p < 2 ^ 64
key_fits n (varint_payload v) h = omega (arith, h)
key_fits n (fixed64_payload v) h = omega (arith, h)
key_fits n (fixed32_payload v) h = omega (arith, h)
key_fits n (content_payload c) h = omega (arith, h)

not_over : (size index : ℕ) → index < size → leb size index ≡ false
not_over size index h = ground arith

module _ (texts : FloatTexts) (decode : Bytes → Option Fields) where
  decode_field-put_field :
      (front : Bytes) (n : ℕ) (p : Payload) (rest : Bytes)
      → IsField (n, p)
      → length (front ++ (put_field (n, p) ++ rest)) < 2 ^ 64
      → decode_field texts decode (front ++ (put_field (n, p) ++ rest)) (length front)
        ≡ some ((n, payload_value texts decode p), length (front ++ put_field (n, p)))
  decode_field-put_field front n p rest (least, most, h) room =
      let key = n * 8 + wire_bits p in
      let head = put_varint key in
      let bytes = front ++ (put_field (n, p) ++ rest) in
      let behind = length front + length head + length (put_payload p) in
      let flat : bytes ≡ front ++ (head ++ (put_payload p ++ rest)) =
        ap (◌++◌ front) (append_assoc head (put_payload p) rest) in
      let split : bytes ≡ (front ++ head) ++ (put_payload p ++ rest) =
        flat ∙ sym (append_assoc front head (put_payload p ++ rest)) in
      let read : read_varint bytes (length front) ≡ some (key, length head) =
        ap (λ bs. read_varint bs (length front)) flat
        ∙ read_varint-put_varint front key (put_payload p ++ rest) (key_fits n p most) in
      let named : (key / 8 == 0) ≡ false = ground (arith, key_number n p, least) in
      let value : decode_value texts decode (wire_type p) bytes (length front + length head)
          ≡ some (payload_value texts decode p, behind) =
        ap (λ bs. decode_value texts decode (wire_type p) bs (length front + length head)) split
        ∙ ap
            (λ k.
              decode_value texts decode (wire_type p) ((front ++ head) ++ (put_payload p ++ rest))
                k)
            (sym (length-append front head))
        ∙ decode_value-put_payload texts decode (front ++ head) p rest h (rw (← split) room)
        ∙ ap (λ k. some (payload_value texts decode p, k + length (put_payload p)))
            (length-append front head) in
      let total : behind ≡ length (front ++ put_field (n, p)) =
        omega (arith, length-append front (put_field (n, p)), length-append head (put_payload p)) in
      decode_field_step texts decode bytes (length front) key (length head) behind (wire_type p)
        (payload_value texts decode p) read (from_bits-wire_bits n p) named value
      ∙ ap (λ k. some ((k, payload_value texts decode p), behind)) (key_number n p)
      ∙ ap (λ k. some ((n, payload_value texts decode p), k)) total

  decode_loop-put_message :
      (fs : List (ℕ × Payload)) (turns : ℕ) (front : Bytes) (fields : Fields)
      → All IsField fs
      → length fs ≤ turns
      → length (front ++ put_message fs) < 2 ^ 64
      → decode_loop texts decode turns (front ++ put_message fs) (length front) fields
        ≡ some (push_all fields (map (field_value texts decode) fs))
  decode_loop-put_message [] turns front fields valid enough room =
      let over : leb (length (front ++ [])) (length front) ≡ true =
        ground (arith, length-append front []) in
      decode_loop_end texts decode turns (front ++ []) (length front) fields over
  decode_loop-put_message ((n, p) ∷ fs) zero front fields valid enough room = ground (arith, enough)
  decode_loop-put_message ((n, p) ∷ fs) (suc turns) front fields (ok, valid) enough room =
      let rest = put_message fs in
      let bytes = front ++ (put_field (n, p) ++ rest) in
      let v = payload_value texts decode p in
      let behind = length (front ++ put_field (n, p)) in
      let read = decode_field-put_field front n p rest ok room in
      let bounds = decode_field_bounds texts decode bytes (length front) behind n v read in
      let more : leb (length bytes) (length front) ≡ false =
        not_over (length bytes) (length front) (omega (arith, bounds)) in
      let flat : bytes ≡ (front ++ put_field (n, p)) ++ rest =
        sym (append_assoc front (put_field (n, p)) rest) in
      decode_loop_turn texts decode turns bytes (length front) behind n v fields more read
      ∙ ap (λ bs. decode_loop texts decode turns bs behind (push_value fields (decimal n) v)) flat
      ∙ decode_loop-put_message fs turns (front ++ put_field (n, p))
          (push_value fields (decimal n) v) valid (omega (arith, enough)) (rw (← flat) room)

put_digits_positive : (n v : ℕ) → 1 ≤ length (put_digits (suc n) v)
put_digits_positive n v = elim (Bool-cases (ltb v 128)) [
  | inl h ↦ rw h (omega arith)
  | inr h ↦ rw h (omega arith)
]

pub length-put_message : (fs : List (ℕ × Payload)) → length fs ≤ length (put_message fs)
length-put_message [] = omega arith
length-put_message ((n, p) ∷ fs) =
    let head = put_varint (n * 8 + wire_bits p) in
    omega (
      arith,
      put_digits_positive 9 (n * 8 + wire_bits p),
      length-append head (put_payload p),
      length-append (put_field (n, p)) (put_message fs),
      length-put_message fs,
    )

module _ (texts : FloatTexts) where
  -- Reading a message at a depth that is not refused gives back its fields.
  pub decode_fields-put_message :
      (levels depth : ℕ) (fs : List (ℕ × Payload))
      → depth ≤ 32
      → All IsField fs
      → length (put_message fs) < 2 ^ 64
      → decode_fields texts (suc levels) (put_message fs) depth
        ≡ some (
            push_all end (
              map
                (field_value texts (λ content. decode_fields texts levels content (depth + 1)))
                fs))
  decode_fields-put_message levels depth fs shallow valid room =
      decode_fields_step texts levels (put_message fs) depth shallow
      ∙ decode_loop-put_message texts (λ content. decode_fields texts levels content (depth + 1)) fs
          (length (put_message fs)) [] end valid (length-put_message fs) room

  -- Reading a message gives back its fields: a payload made of fields with positive numbers below
  -- 2^61, each with a number that fits its wire type or a run of bytes, of fewer than 2^64 bytes
  -- altogether, is read as the object to which the values of the fields are written one after
  -- another, in their order; the messages inside are read one level deeper.
  pub decode_raw-put_message :
      (fs : List (ℕ × Payload))
      → All IsField fs
      → length (put_message fs) < 2 ^ 64
      → decode_raw texts (put_message fs)
        ≡ some (
            object (
              push_all end
                (map (field_value texts (λ content. decode_fields texts 33 content 1)) fs)))
  unfolding decode_raw
  decode_raw-put_message fs valid room =
      ap (λ o. o >>= (λ fields. some (object fields)))
        (decode_fields-put_message 33 0 fs (omega arith) valid room)
