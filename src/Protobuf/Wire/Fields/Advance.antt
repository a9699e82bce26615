-- ===== src/Protobuf/Wire/Fields/Advance.antt =====
-- A field that is read ends behind its first byte and inside the message.
use offset_explorer_oxide.Common.{
  ℕ, ◌+◌, ◌%◌, ◌/◌, ◌^◌, ◌≤◌, ◌<◌, Option, none, some, inl, inr, ◌≡◌, sym, ap, ◌∙◌, false, ◌||◌,
  ◌==◌, arith, ltb, leb, length, Option-cases, if◌then◌else◌, take, drop,
}
use offset_explorer_oxide.Common.Utf8.{Bytes}
use offset_explorer_oxide.Common.Options.{>>=_some, >>=_read, guard_passed}
use offset_explorer_oxide.Protobuf.Json.{Value, Fields}
use offset_explorer_oxide.Protobuf.Wire.{read_varint}
use offset_explorer_oxide.Protobuf.Wire.Varint.{read_varint_bounds}
use offset_explorer_oxide.Protobuf.Wire.Fields.{
  FloatTexts, WireType, varint, fixed64, length_delimited, fixed32, from_bits, varint_value,
  content_value, decode_value, decode_field,
}

abbrev unnumbered : Option ((ℕ × Value) × ℕ) → Option (Value × ℕ)
unnumbered none = none
unnumbered (some ((n, v), behind)) = some (v, behind)

module _ (texts : FloatTexts) (decode : Bytes → Option Fields) where
  pub decode_varint :
      (bytes : Bytes) (index raw used : ℕ)
      → read_varint bytes index ≡ some (raw, used)
      → decode_value texts decode varint bytes index ≡ some (varint_value raw, index + used)
  unfolding decode_value
  decode_varint bytes index raw used e = >>=_some (read_varint bytes index) (raw, used) _ e

  pub decode_content :
      (bytes : Bytes) (index size used : ℕ)
      → read_varint bytes index ≡ some (size, used)
      → decode_value texts decode length_delimited bytes index ≡ (
          if leb (2 ^ 64) (index + used + size) || ltb (length bytes) (index + used + size)
          then none
          else some
              (content_value decode (take size (drop (index + used) bytes)), index + used + size))
  unfolding decode_value
  decode_content bytes index size used e = >>=_some (read_varint bytes index) (size, used) _ e

  -- No value without the number in front of it.
  decode_value_unread :
      (w : WireType) (bytes : Bytes) (index behind : ℕ) (v : Value)
      → read_varint bytes index ≡ none
      → decode_value texts decode w bytes index ≡ some (v, behind)
      → (index ≤ behind) × (behind ≤ length bytes)
  unfolding decode_value
  decode_value_unread fixed64 bytes index behind v e h = ground arith
  decode_value_unread fixed32 bytes index behind v e h = ground arith
  decode_value_unread varint bytes index behind v e h = ground (arith, e)
  decode_value_unread length_delimited bytes index behind v e h = ground (arith, e)

  read_bounds :
      (w : WireType) (bytes : Bytes) (index behind : ℕ) (v : Value) (raw used : ℕ)
      → read_varint bytes index ≡ some (raw, used)
      → index + used ≤ length bytes
      → decode_value texts decode w bytes index ≡ some (v, behind)
      → (index ≤ behind) × (behind ≤ length bytes)
  unfolding decode_value
  read_bounds fixed64 bytes index behind v raw used e inside h = ground arith
  read_bounds fixed32 bytes index behind v raw used e inside h = ground arith
  read_bounds varint bytes index behind v raw used e inside h =
      let step = sym (decode_varint bytes index raw used e) ∙ h in ground (arith, step, inside)
  read_bounds length_delimited bytes index behind v raw used e inside h =
      let step = sym (decode_content bytes index raw used e) ∙ h in ground (arith, step, inside)

  decode_value_bounds :
      (w : WireType) (bytes : Bytes) (index behind : ℕ) (v : Value)
      → decode_value texts decode w bytes index ≡ some (v, behind)
      → (index ≤ behind) × (behind ≤ length bytes)
  decode_value_bounds w bytes index behind v h = elim (Option-cases (read_varint bytes index)) [
    | inl e ↦ decode_value_unread w bytes index behind v e h
    | inr ((raw, used), e) ↦
        let (least, most, inside) = read_varint_bounds bytes index raw used e in
        read_bounds w bytes index behind v raw used e inside h
  ]

  -- A field is its key, with a wire type and a number that is not zero, and the value behind it.
  pub decode_field_step :
      (bytes : Bytes) (index key used behind : ℕ) (w : WireType) (v : Value)
      → read_varint bytes index ≡ some (key, used)
      → from_bits (key % 8) ≡ some w
      → (key / 8 == 0) ≡ false
      → decode_value texts decode w bytes (index + used) ≡ some (v, behind)
      → decode_field texts decode bytes index ≡ some ((key / 8, v), behind)
  unfolding decode_field
  decode_field_step bytes index key used behind w v read wire named value =
      >>=_some (read_varint bytes index) (key, used) _ read
      ∙ >>=_some (from_bits (key % 8)) w _ wire
      ∙ rw named (>>=_some (decode_value texts decode w bytes (index + used)) (v, behind) _ value)

  pub decode_field_read :
      (bytes : Bytes) (index behind n : ℕ) (v : Value)
      → decode_field texts decode bytes index ≡ some ((n, v), behind)
      → (w : WireType) × ((start : ℕ) × (index < start)
          × (decode_value texts decode w bytes start ≡ some (v, behind)))
  unfolding decode_field
  decode_field_read bytes index behind n v h =
      let ((key, used), read, h') = >>=_read (read_varint bytes index) _ ((n, v), behind) h in
      let (w, wire, h'') = >>=_read (from_bits (key % 8)) _ ((n, v), behind) h' in
      let (least, most, inside) = read_varint_bounds bytes index key used read in
      let (named, rest) = guard_passed (key / 8 == 0) _ ((n, v), behind) h'' in
      let ((v', behind'), value, same) =
        >>=_read (decode_value texts decode w bytes (index + used)) _ ((n, v), behind) rest in
      (w, (index + used, omega (arith, least), value ∙ ap unnumbered same))

  -- A field that is read takes bytes, and none past the end.
  pub decode_field_bounds :
      (bytes : Bytes) (index behind n : ℕ) (v : Value)
      → decode_field texts decode bytes index ≡ some ((n, v), behind)
      → (index < behind) × (behind ≤ length bytes)
  decode_field_bounds bytes index behind n v h =
      let (w, (start, later, value)) = decode_field_read bytes index behind n v h in
      let (on, inside) = decode_value_bounds w bytes start behind v value in
      (omega (arith, later, on), inside)
