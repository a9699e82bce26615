-- ===== src/Protobuf/Wire/Fields/Repeated.antt =====
-- The entry of a field number in what a message is read as.
use offset_explorer_oxide.Common.{
  ℕ, ◌<◌, ◌^◌, false, ◌==◌, Option, none, some, List, [], ◌∷◌, map, inl, inr, ◌≡◌, refl, ap, ◌∙◌,
  arith, if◌then◌else◌, Bool-cases, Option-cases, All, length,
}
use offset_explorer_oxide.Common.Digits.{decimal, decimal_injective}
use offset_explorer_oxide.Common.Utf8.{Text, Bytes, same_text, same_text_agrees}
use offset_explorer_oxide.Common.Utf8Decoding.{from_utf8}
use offset_explorer_oxide.Protobuf.Json.{Value, number, string, array, object, Fields, end}
use offset_explorer_oxide.Protobuf.Wire.Fields.{
  FloatTexts, varint_value, fixed64_value, fixed32_value, text_or_bytes, content_value,
  parse_nested, decode_fields, decode_raw,
}
use offset_explorer_oxide.Protobuf.Wire.Fields.Gather.{
  get_field, push_all, values_of, together, is_array, get_field-push_all_lem,
}
use offset_explorer_oxide.Protobuf.Wire.Fields.Message.{
  Payload, varint_payload, fixed64_payload, fixed32_payload, content_payload, put_message, IsField,
  payload_value, field_value,
}
use offset_explorer_oxide.Protobuf.Wire.Fields.RoundTrip.{decode_raw-put_message}

-- The payloads of a field number, in their order.
abbrev pub payloads_of : ℕ → List (ℕ × Payload) → List Payload
payloads_of n [] = []
payloads_of n ((m, p) ∷ fs) = if m == n then p ∷ payloads_of n fs else payloads_of n fs

varint_value_plain : (v : ℕ) → is_array (varint_value v) ≡ false
unfolding varint_value
varint_value_plain v = ground arith

fixed_values_plain :
    (texts : FloatTexts) (v : ℕ)
    → (is_array (fixed64_value texts v) ≡ false) × (is_array (fixed32_value texts v) ≡ false)
unfolding fixed64_value fixed32_value
fixed_values_plain texts v = (refl, refl)

text_or_bytes_plain : (c : Bytes) → is_array (text_or_bytes c) ≡ false
unfolding text_or_bytes
text_or_bytes_plain c = elim (Option-cases (from_utf8 c)) [
  | inl e ↦ rw e refl
  | inr (t, e) ↦ rw e refl
]

content_value_plain :
    (decode : Bytes → Option Fields) (c : Bytes) → is_array (content_value decode c) ≡ false
unfolding content_value
content_value_plain decode c = elim (Option-cases (parse_nested decode c)) [
  | inl e ↦ rw e (text_or_bytes_plain c)
  | inr (fs, e) ↦ rw e refl
]

-- `get` on what a payload is read as.
abbrev pub read_under : Option Value → Text → Option Value
read_under none k = none
read_under (some (object fs)) k = get_field fs k
read_under (some (number n)) k = none
read_under (some (string t)) k = none
read_under (some (array vs)) k = none

module _ (texts : FloatTexts) (decode : Bytes → Option Fields) where
  payload_value_plain : (p : Payload) → is_array (payload_value texts decode p) ≡ false
  payload_value_plain (varint_payload v) = varint_value_plain v
  payload_value_plain (fixed64_payload v) = (fixed_values_plain texts v).0
  payload_value_plain (fixed32_payload v) = (fixed_values_plain texts v).1
  payload_value_plain (content_payload c) = content_value_plain decode c

  all_plain :
      (fs : List (ℕ × Payload))
      → All (λ kv. is_array kv.1 ≡ false) (map (field_value texts decode) fs)
  all_plain [] = tt
  all_plain ((n, p) ∷ fs) = (payload_value_plain p, all_plain fs)

  same_number : (m n : ℕ) → m < 2 ^ 61 → n < 2 ^ 61 → same_text (decimal m) (decimal n) ≡ (m == n)
  same_number m n hm hn =
      ground (arith, same_text_agrees (decimal m) (decimal n), decimal_injective m n, ap decimal)

  values_of-field_value :
      (fs : List (ℕ × Payload)) (n : ℕ)
      → All IsField fs
      → n < 2 ^ 61
      → values_of (decimal n) (map (field_value texts decode) fs)
        ≡ map (payload_value texts decode) (payloads_of n fs)
  values_of-field_value [] n valid h = refl
  values_of-field_value ((m, p) ∷ fs) n ((least, most, ok), valid) h =
      let ih = values_of-field_value fs n valid h in
      elim (Bool-cases (m == n)) [
        | inl e ↦ rw (same_number m n most h, e) (ap (λ vs. payload_value texts decode p ∷ vs) ih)
        | inr e ↦ rw (same_number m n most h, e) ih
      ]

read_under-together :
    (kvs : List (Text × Value)) (o : Option Value) (k : Text)
    → All (λ kv. is_array kv.1 ≡ false) kvs
    → o ≡ some (object (push_all end kvs))
    → read_under o k ≡ together (values_of k kvs)
read_under-together kvs o k plain h =
    ap (λ r. read_under r k) h ∙ get_field-push_all_lem kvs k plain

-- What a message is read as has, under each field number, nothing when the message has no such
-- field, the value when it has one, and the array of all the values in their order when it has
-- several; for a message of valid fields and a number below 2^61.
pub decode_raw_repeated :
    (texts : FloatTexts) (fs : List (ℕ × Payload)) (n : ℕ)
    → All IsField fs
    → n < 2 ^ 61
    → length (put_message fs) < 2 ^ 64
    → read_under (decode_raw texts (put_message fs)) (decimal n)
      ≡ together (
          map
            (payload_value texts (λ content. decode_fields texts 33 content 1))
            (payloads_of n fs))
decode_raw_repeated texts fs n valid h room =
    let decode : Bytes → Option Fields = λ content. decode_fields texts 33 content 1 in
    let kvs = map (field_value texts decode) fs in
    let read = decode_raw-put_message texts fs valid room in
    read_under-together kvs (decode_raw texts (put_message fs)) (decimal n)
      (all_plain texts decode fs) read
    ∙ ap together (values_of-field_value texts decode fs n valid h)
