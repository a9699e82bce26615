-- ===== src/Protobuf/Wire/Fields/Examples.antt =====
-- Messages of a few bytes.
use offset_explorer_oxide.Common.{
  ℕ, List, ◌≤◌, ◌<◌, ◌^◌, All, map, length, arith, ◌≡◌, refl, some, [], ◌∷◌,
}
use offset_explorer_oxide.Common.Digits.{digits, decimal}
use offset_explorer_oxide.Common.Options.{◌>>=◌}
use offset_explorer_oxide.Common.Utf8.{same_text}
use offset_explorer_oxide.Protobuf.Json.{number, object, array, nil, cons, end, field}
use offset_explorer_oxide.Protobuf.Wire.Fields.{FloatTexts, decode_loop, decode_fields, decode_raw}
use offset_explorer_oxide.Protobuf.Wire.Fields.Fuel.{decode_raw_ends}
use offset_explorer_oxide.Protobuf.Wire.Fields.Depth.{nesting, nesting-decode_raw}
use offset_explorer_oxide.Protobuf.Wire.Fields.Gather.{push_all, together}
use offset_explorer_oxide.Protobuf.Wire.Fields.Message.{
  Payload, varint_payload, content_payload, put_message, IsField, payload_value, field_value,
}
use offset_explorer_oxide.Protobuf.Wire.Fields.RoundTrip.{decode_raw-put_message}
use offset_explorer_oxide.Protobuf.Wire.Fields.Repeated.{
  read_under, payloads_of, decode_raw_repeated,
}

abbrev texts : FloatTexts
texts = record { double = λ bits. 63 ∷ []; float = λ bits. 63 ∷ [] }

decode_repeated :
    decode_raw texts (8 ∷ 1 ∷ 8 ∷ 2 ∷ 18 ∷ 2 ∷ 8 ∷ 5 ∷ [])
    ≡ some (
        object (
          field
            (49 ∷ [])
            (array (cons (number 1) (cons (number 2) nil)))
            (field (50 ∷ []) (object (field (49 ∷ []) (number 5) end)) end)))
unfolding decode_raw same_text digits
decode_repeated = refl

-- Two numbers under field 1, and a message under field 2.
abbrev outer : List (ℕ × Payload)
outer = (1, varint_payload 1) ∷ (1, varint_payload 2) ∷ (2, content_payload (8 ∷ 5 ∷ [])) ∷ []

outer-IsField : All IsField outer
outer-IsField = (
  (omega arith, omega arith, omega arith),
  ((omega arith, omega arith, omega arith), ((omega arith, omega arith, omega arith), tt)),
)

outer_fits : length (put_message outer) < 2 ^ 64
outer_fits = omega arith

decode_raw_ends_example :
    (decode_loop texts (λ content. decode_fields texts 40 content 1) 9 (8 ∷ 1 ∷ 8 ∷ 2 ∷ []) 0 end
      >>= (λ fields. some (object fields)))
    ≡ decode_raw texts (8 ∷ 1 ∷ 8 ∷ 2 ∷ [])
decode_raw_ends_example =
    decode_raw_ends texts 40 9 (8 ∷ 1 ∷ 8 ∷ 2 ∷ []) (omega arith) (omega arith)

decode_small :
    decode_raw texts (18 ∷ 2 ∷ 8 ∷ 5 ∷ [])
    ≡ some (object (field (50 ∷ []) (object (field (49 ∷ []) (number 5) end)) end))
unfolding decode_raw same_text digits
decode_small = refl

nesting-decode_raw_example :
    nesting (object (field (50 ∷ []) (object (field (49 ∷ []) (number 5) end)) end)) ≤ 33
nesting-decode_raw_example = nesting-decode_raw texts (18 ∷ 2 ∷ 8 ∷ 5 ∷ []) _ decode_small

decode_raw-put_message_example :
    decode_raw texts (put_message outer)
    ≡ some (
        object (
          push_all end
            (map (field_value texts (λ content. decode_fields texts 33 content 1)) outer)))
decode_raw-put_message_example = decode_raw-put_message texts outer outer-IsField outer_fits

decode_raw_repeated_example :
    read_under (decode_raw texts (put_message outer)) (decimal 1)
    ≡ together (
        map
          (payload_value texts (λ content. decode_fields texts 33 content 1))
          (payloads_of 1 outer))
decode_raw_repeated_example =
    decode_raw_repeated texts outer 1 outer-IsField (omega arith) outer_fits
