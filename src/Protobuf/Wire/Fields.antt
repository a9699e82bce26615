-- ===== src/Protobuf/Wire/Fields.antt =====
-- backend/protobuf/src/wire.rs: the fields of a message, read without a schema. The text of a
-- floating-point number (`Display` of an `f64` and of an `f32`) is a parameter.
pub mod Advance
pub mod Fuel
pub mod Depth
pub mod Gather
pub mod Message
pub mod RoundTrip
pub mod Repeated
mod Examples
use offset_explorer_oxide.Common.{
  ℕ, zero, suc, ◌+◌, ◌*◌, ◌/◌, ◌%◌, ◌^◌, Bool, true, false, Option, none, some, List, [], ◌∷◌, ◌++◌,
  map, ◌||◌, ltb, leb, ◌==◌, if◌then◌else◌, length, take, drop,
}
use offset_explorer_oxide.Common.Int.{signed64}
use offset_explorer_oxide.Common.Options.{◌>>=◌}
use offset_explorer_oxide.Common.Digits.{decimal, signed_decimal, hex_digits}
use offset_explorer_oxide.Common.Utf8.{Text, Bytes}
use offset_explorer_oxide.Common.Utf8Decoding.{from_utf8}
use offset_explorer_oxide.Protobuf.Json.{Value, number, string, object, Fields, end, push_value}
use offset_explorer_oxide.Protobuf.Wire.{read_varint}

pub data WireType : Type 0 where
  varint : WireType
  fixed64 : WireType
  length_delimited : WireType
  fixed32 : WireType

unfoldable pub from_bits : ℕ → Option WireType
from_bits bits =
    if bits == 0
    then some varint
    else if bits == 1
    then some fixed64
    else if bits == 2
    then some length_delimited
    else if bits == 5
    then some fixed32
    else none

-- The texts of the numbers with the given bits.
pub record FloatTexts : Type 0 where
  pub double : ℕ → Text
  pub float : ℕ → Text

unfoldable pub from_le_bytes : Bytes → ℕ
from_le_bytes [] = 0
from_le_bytes (b ∷ bs) = b + 256 * from_le_bytes bs

-- `join(" ")`
unfoldable pub join_spaced : List Text → Text
join_spaced [] = []
join_spaced (t ∷ []) = t
join_spaced (t ∷ u ∷ ts) = t ++ 32 ∷ join_spaced (u ∷ ts)

-- At most 32 bytes, and "…" behind them when there are more.
unfoldable pub hex_preview : Bytes → Text
unfolding join_spaced hex_digits
hex_preview bytes =
    let shown = join_spaced (map (hex_digits 2) (take 32 bytes)) in
    if ltb 32 (length bytes) then shown ++ 0x2026 ∷ [] else shown

-- Past 2^53 a number is written out, with the signed reading: "… (signed …)".
unfoldable pub varint_value : ℕ → Value
varint_value raw =
    if ltb raw (2 ^ 53)
    then number raw
    else string (
        decimal raw
        ++ (32 ∷ 40 ∷ 115 ∷ 105 ∷ 103 ∷ 110 ∷ 101 ∷ 100 ∷ 32 ∷ [])
        ++ signed_decimal (signed64 raw)
        ++ 41 ∷ [])

-- What an eight-byte and a four-byte field are shown as: "0x… (double …)", "0x… (float …)".
unfoldable pub fixed64_value : FloatTexts → ℕ → Value
unfolding hex_digits
fixed64_value texts raw = string (
    (48 ∷ 120 ∷ [])
    ++ hex_digits 16 raw
    ++ (32 ∷ 40 ∷ 100 ∷ 111 ∷ 117 ∷ 98 ∷ 108 ∷ 101 ∷ 32 ∷ [])
    ++ texts.double raw
    ++ 41 ∷ [])

unfoldable pub fixed32_value : FloatTexts → ℕ → Value
unfolding hex_digits
fixed32_value texts raw = string (
    (48 ∷ 120 ∷ [])
    ++ hex_digits 8 raw
    ++ (32 ∷ 40 ∷ 102 ∷ 108 ∷ 111 ∷ 97 ∷ 116 ∷ 32 ∷ [])
    ++ texts.float raw
    ++ 41 ∷ [])

-- The reading of a run of bytes that is not a message: text, else "… bytes: …".
unfoldable pub text_value : Bytes → Option Text → Value
unfolding hex_preview
text_value content (some text) = string text
text_value content none = string (
    decimal (length content)
    ++ (32 ∷ 98 ∷ 121 ∷ 116 ∷ 101 ∷ 115 ∷ 58 ∷ 32 ∷ [])
    ++ hex_preview content)

unfoldable pub text_or_bytes : Bytes → Value
unfolding text_value
text_or_bytes content = text_value content (from_utf8 content)

unfoldable pub parse_nested : (Bytes → Option Fields) → Bytes → Option Fields
parse_nested decode [] = none
parse_nested decode (b ∷ bs) = decode (b ∷ bs)

-- What a length-delimited field is shown as: a message if it can be read as one.
abbrev pub nested_value : Bytes → Option Fields → Value
nested_value content (some fields) = object fields
nested_value content none = text_or_bytes content

unfoldable pub content_value : (Bytes → Option Fields) → Bytes → Value
unfolding parse_nested text_or_bytes
content_value decode content = nested_value content (parse_nested decode content)

-- The value at an index, and the index behind it. `decode` reads the messages one level deeper.
unfoldable pub decode_value :
    FloatTexts → (Bytes → Option Fields) → WireType → Bytes → ℕ → Option (Value × ℕ)
unfolding read_varint varint_value fixed64_value fixed32_value content_value from_le_bytes
decode_value texts decode varint bytes index = do
  (raw, used) ← read_varint bytes index
  some (varint_value raw, index + used)
decode_value texts decode fixed64 bytes index =
    if ltb (length bytes) (index + 8)
    then none
    else some (fixed64_value texts (from_le_bytes (take 8 (drop index bytes))), index + 8)
decode_value texts decode fixed32 bytes index =
    if ltb (length bytes) (index + 4)
    then none
    else some (fixed32_value texts (from_le_bytes (take 4 (drop index bytes))), index + 4)
decode_value texts decode length_delimited bytes index = do
  (size, used) ← read_varint bytes index
  let start = index + used
  if leb (2 ^ 64) (start + size) || ltb (length bytes) (start + size)
      then none
      else some (content_value decode (take size (drop start bytes)), start + size)

-- One turn of the loop: the field's number and value, and the index behind it.
unfoldable pub decode_field :
    FloatTexts → (Bytes → Option Fields) → Bytes → ℕ → Option ((ℕ × Value) × ℕ)
unfolding read_varint from_bits decode_value
decode_field texts decode bytes index = do
  (key, used) ← read_varint bytes index
  wire_type ← from_bits (key % 8)
  if key / 8 == 0 then none else do
    (value, behind) ← decode_value texts decode wire_type bytes (index + used)
    some ((key / 8, value), behind)

-- The loop, with fuel for its turns.
unfoldable pub decode_loop :
    FloatTexts → (Bytes → Option Fields) → ℕ → Bytes → ℕ → Fields → Option Fields
unfolding decode_field push_value
decode_loop texts decode zero bytes index fields =
    if leb (length bytes) index then some fields else none
decode_loop texts decode (suc turns) bytes index fields =
    if leb (length bytes) index then some fields else do
      ((field_number, value), behind) ← decode_field texts decode bytes index
      decode_loop texts decode turns bytes behind (push_value fields (decimal field_number) value)

-- The fields of a message at a depth, none past depth 32; `levels` is the fuel for the nesting.
unfoldable pub decode_fields : FloatTexts → ℕ → Bytes → ℕ → Option Fields
unfolding decode_loop
decode_fields texts zero bytes depth = none
decode_fields texts (suc levels) bytes depth =
    if ltb 32 depth
    then none
    else decode_loop texts (λ content. decode_fields texts levels content (depth + 1))
        (length bytes) bytes 0 end

-- The first message has depth 0, the first one refused depth 33.
unfoldable pub decode_raw : FloatTexts → Bytes → Option Value
unfolding decode_fields
decode_raw texts bytes = do fields ← decode_fields texts 34 bytes 0; some (object fields)
