-- ===== src/Protobuf/Wire/Fields/Message.antt =====
-- Messages that a writer of the wire format puts together, and what they are read as.
use mathlib.Core.List.{append_assoc}
use offset_explorer_oxide.Common.{
  ℕ, zero, suc, ◌+◌, ◌*◌, ◌/◌, ◌%◌, ◌^◌, ◌≤◌, ◌<◌, false, ◌||◌, Option, some, List, [], ◌∷◌, ◌++◌,
  map, ◌≡◌, refl, sym, ap, ◌∙◌, arith, ltb, leb, length, length-append, take, drop, concat,
}
use native.Mathlib.Numerals.{towards_suc}
use offset_explorer_oxide.Common.Digits.{decimal}
use offset_explorer_oxide.Common.Utf8.{Text, Bytes}
use offset_explorer_oxide.Protobuf.Json.{Value, Fields}
use offset_explorer_oxide.Protobuf.Wire.{read_varint}
use offset_explorer_oxide.Protobuf.Wire.Varint.{put_varint, read_varint-put_varint, drop-append}
use offset_explorer_oxide.Protobuf.Wire.Fields.{
  FloatTexts, WireType, varint, fixed64, length_delimited, fixed32, from_le_bytes, varint_value,
  fixed64_value, fixed32_value, content_value, decode_value,
}
use offset_explorer_oxide.Protobuf.Wire.Fields.Advance.{decode_varint, decode_content}

-- What a field carries, by its wire type.
pub data Payload : Type 0 where
  varint_payload : ℕ → Payload
  fixed64_payload : ℕ → Payload
  fixed32_payload : ℕ → Payload
  content_payload : Bytes → Payload

-- The lowest bytes of a number first.
abbrev pub le_bytes : ℕ → ℕ → Bytes
le_bytes zero v = []
le_bytes (suc n) v = v % 256 ∷ le_bytes n (v / 256)

abbrev pub wire_type : Payload → WireType
wire_type (varint_payload v) = varint
wire_type (fixed64_payload v) = fixed64
wire_type (fixed32_payload v) = fixed32
wire_type (content_payload c) = length_delimited

abbrev pub wire_bits : Payload → ℕ
wire_bits (varint_payload v) = 0
wire_bits (fixed64_payload v) = 1
wire_bits (fixed32_payload v) = 5
wire_bits (content_payload c) = 2

abbrev pub put_payload : Payload → Bytes
put_payload (varint_payload v) = put_varint v
put_payload (fixed64_payload v) = le_bytes 8 v
put_payload (fixed32_payload v) = le_bytes 4 v
put_payload (content_payload c) = put_varint (length c) ++ c

abbrev pub put_field : ℕ × Payload → Bytes
put_field (n, p) = put_varint (n * 8 + wire_bits p) ++ put_payload p

abbrev pub put_message : List (ℕ × Payload) → Bytes
put_message fs = concat (map put_field fs)

-- Field numbers are positive, the numbers fit their machine words, a run of bytes its length.
abbrev pub IsPayload : Payload → Type 0
IsPayload (varint_payload v) = v < 2 ^ 64
IsPayload (fixed64_payload v) = v < 2 ^ 64
IsPayload (fixed32_payload v) = v < 2 ^ 32
IsPayload (content_payload c) = length c < 2 ^ 64

abbrev pub IsField : ℕ × Payload → Type 0
IsField (n, p) = (1 ≤ n) × (n < 2 ^ 61) × IsPayload p

-- What a payload is shown as, `decode` reading the messages in it.
abbrev pub payload_value : FloatTexts → (Bytes → Option Fields) → Payload → Value
payload_value texts decode (varint_payload v) = varint_value v
payload_value texts decode (fixed64_payload v) = fixed64_value texts v
payload_value texts decode (fixed32_payload v) = fixed32_value texts v
payload_value texts decode (content_payload c) = content_value decode c

abbrev pub field_value : FloatTexts → (Bytes → Option Fields) → ℕ × Payload → Text × Value
field_value texts decode (n, p) = (decimal n, payload_value texts decode p)

times_256 : (n : ℕ) → 256 ^ (n + 1) ≡ 256 * 256 ^ n
times_256 n = simp towards_suc (omega arith)

from_le_bytes-le_bytes : (n v w : ℕ) → w ≡ 256 ^ n → v < w → from_le_bytes (le_bytes n v) ≡ v
unfolding from_le_bytes
from_le_bytes-le_bytes zero v w e h = omega (arith, e, h)
from_le_bytes-le_bytes (suc n) v w e h =
    let power = times_256 n in
    omega (
      arith,
      power,
      e,
      h,
      from_le_bytes-le_bytes n (v / 256) (256 ^ n) refl (omega (arith, power, e, h)),
    )

length-le_bytes : (n v : ℕ) → length (le_bytes n v) ≡ n
length-le_bytes zero v = refl
length-le_bytes (suc n) v = omega (arith, length-le_bytes n (v / 256))

take-append : (xs ys : Bytes) → take (length xs) (xs ++ ys) ≡ xs
take-append [] ys = refl
take-append (x ∷ xs) ys = ap (◌∷◌ x) (take-append xs ys)

-- The bytes behind the ones in front.
slice :
    (front xs rest : Bytes) (n : ℕ)
    → n ≡ length xs
    → take n (drop (length front) (front ++ (xs ++ rest))) ≡ xs
slice front xs rest n h =
    ap (λ bs. take n bs) (drop-append front (xs ++ rest))
    ∙ ap (λ k. take k (xs ++ rest)) h
    ∙ take-append xs rest

pub inside :
    (front xs rest : Bytes)
    → length (front ++ (xs ++ rest)) ≡ length front + length xs + length rest
inside front xs rest = omega (arith, length-append front (xs ++ rest), length-append xs rest)

some_value :
    (v w : Value) (a b : ℕ)
    → v ≡ w
    → a ≡ b
    → ◌≡◌ {A = Option (Value × ℕ)} (some (v, a)) (some (w, b))
some_value v w a b hv ha = rw (hv, ha) refl

module _ (texts : FloatTexts) (decode : Bytes → Option Fields) where
  decode_fixed64 :
      (front : Bytes) (v : ℕ) (rest : Bytes)
      → v < 2 ^ 64
      → decode_value texts decode fixed64 (front ++ (le_bytes 8 v ++ rest)) (length front)
        ≡ some (fixed64_value texts v, length front + length (le_bytes 8 v))
  unfolding decode_value
  decode_fixed64 front v rest h =
      let here = inside front (le_bytes 8 v) rest in
      let fits : ltb (length (front ++ (le_bytes 8 v ++ rest))) (length front + 8) ≡ false =
        ground (arith, here, length-le_bytes 8 v) in
      let value : from_le_bytes (take 8 (drop (length front) (front ++ (le_bytes 8 v ++ rest))))
          ≡ v =
        ap from_le_bytes (slice front (le_bytes 8 v) rest 8 (sym (length-le_bytes 8 v)))
        ∙ from_le_bytes-le_bytes 8 v (2 ^ 64) refl h in
      rw fits
        (some_value _ _ _ _ (ap (fixed64_value texts) value) (omega (arith, length-le_bytes 8 v)))

  decode_fixed32 :
      (front : Bytes) (v : ℕ) (rest : Bytes)
      → v < 2 ^ 32
      → decode_value texts decode fixed32 (front ++ (le_bytes 4 v ++ rest)) (length front)
        ≡ some (fixed32_value texts v, length front + length (le_bytes 4 v))
  unfolding decode_value
  decode_fixed32 front v rest h =
      let here = inside front (le_bytes 4 v) rest in
      let fits : ltb (length (front ++ (le_bytes 4 v ++ rest))) (length front + 4) ≡ false =
        ground (arith, here, length-le_bytes 4 v) in
      let value : from_le_bytes (take 4 (drop (length front) (front ++ (le_bytes 4 v ++ rest))))
          ≡ v =
        ap from_le_bytes (slice front (le_bytes 4 v) rest 4 (sym (length-le_bytes 4 v)))
        ∙ from_le_bytes-le_bytes 4 v (2 ^ 32) refl h in
      rw fits
        (some_value _ _ _ _ (ap (fixed32_value texts) value) (omega (arith, length-le_bytes 4 v)))

  decode_run :
      (front c rest : Bytes)
      → length c < 2 ^ 64
      → length (front ++ ((put_varint (length c) ++ c) ++ rest)) < 2 ^ 64
      → decode_value texts decode length_delimited
          (front ++ ((put_varint (length c) ++ c) ++ rest))
          (length front)
        ≡ some (content_value decode c, length front + length (put_varint (length c) ++ c))
  decode_run front c rest h room =
      let size = put_varint (length c) in
      let bytes = front ++ ((size ++ c) ++ rest) in
      let start = length front + length size in
      let flat : bytes ≡ (front ++ size) ++ (c ++ rest) =
        ap (◌++◌ front) (append_assoc size c rest) ∙ sym (append_assoc front size (c ++ rest)) in
      let read : read_varint bytes (length front) ≡ some (length c, length size) =
        ap (λ bs. read_varint (front ++ bs) (length front)) (append_assoc size c rest)
        ∙ read_varint-put_varint front (length c) (c ++ rest) h in
      let total = inside front (size ++ c) rest in
      let parts = length-append size c in
      let fits : leb (2 ^ 64) (start + length c) || ltb (length bytes) (start + length c) ≡ false =
        ground (arith, room, total, parts) in
      let content : take (length c) (drop start bytes) ≡ c =
        ap (λ bs. take (length c) (drop start bs)) flat
        ∙ ap (λ k. take (length c) (drop k ((front ++ size) ++ (c ++ rest))))
            (sym (length-append front size))
        ∙ slice (front ++ size) c rest (length c) refl in
      decode_content texts decode bytes (length front) (length c) (length size) read
      ∙ rw fits (some_value _ _ _ _ (ap (content_value decode) content) (omega (arith, parts)))

  pub decode_value-put_payload :
      (front : Bytes) (p : Payload) (rest : Bytes)
      → IsPayload p
      → length (front ++ (put_payload p ++ rest)) < 2 ^ 64
      → decode_value texts decode (wire_type p) (front ++ (put_payload p ++ rest)) (length front)
        ≡ some (payload_value texts decode p, length front + length (put_payload p))
  decode_value-put_payload front (varint_payload v) rest h room =
      decode_varint texts decode (front ++ (put_varint v ++ rest)) (length front) v
        (length (put_varint v)) (read_varint-put_varint front v rest h)
  decode_value-put_payload front (fixed64_payload v) rest h room = decode_fixed64 front v rest h
  decode_value-put_payload front (fixed32_payload v) rest h room = decode_fixed32 front v rest h
  decode_value-put_payload front (content_payload c) rest h room = decode_run front c rest h room
