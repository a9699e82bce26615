-- ===== src/Protobuf/Wire/Fields/Depth.antt =====
-- How deep the values of a payload nest.
use offset_explorer_oxide.Common.{
  ℕ, zero, suc, ◌+◌, ◌≤◌, ◌-◌, ◌^◌, ◌||◌, refl, ltb, take, drop, max, Option, none, some, inl, inr,
  ◌≡◌, sym, ◌∙◌, ap, arith, length, leb, Bool-cases, Option-cases, [], ◌∷◌,
}
use offset_explorer_oxide.Common.Digits.{decimal}
use offset_explorer_oxide.Common.Options.{>>=_read, guard_passed}
use offset_explorer_oxide.Common.Utf8.{Bytes, Text}
use offset_explorer_oxide.Protobuf.Json.{
  Value, number, string, array, object, Values, nil, cons, Fields, end, field, push, append_value,
  push_value,
}
use offset_explorer_oxide.Common.Utf8Decoding.{from_utf8}
use offset_explorer_oxide.Protobuf.Wire.{read_varint}
use offset_explorer_oxide.Protobuf.Wire.Fields.{
  FloatTexts, from_le_bytes, WireType, varint, fixed64, length_delimited, fixed32, text_or_bytes,
  content_value, varint_value, fixed64_value, fixed32_value, decode_value, decode_field,
  decode_loop, decode_fields, decode_raw,
}
use offset_explorer_oxide.Protobuf.Wire.Fields.Advance.{decode_field_read}
use offset_explorer_oxide.Protobuf.Wire.Fields.Fuel.{
  decode_loop_turn, decode_loop_end, decode_loop_refused,
}

-- The number of objects that stand inside each other.
abbrev mutual
  pub nesting : Value → ℕ
  nesting (number n) = 0
  nesting (string t) = 0
  nesting (array vs) = nesting_values vs
  nesting (object fs) = suc (nesting_fields fs)

  pub nesting_values : Values → ℕ
  nesting_values nil = 0
  nesting_values (cons v vs) = max (nesting v) (nesting_values vs)

  pub nesting_fields : Fields → ℕ
  nesting_fields end = 0
  nesting_fields (field k v fs) = max (nesting v) (nesting_fields fs)

nesting-push :
    (vs : Values) (v : Value) → nesting_values (push vs v) ≤ max (nesting_values vs) (nesting v)
unfolding push
nesting-push nil v = omega arith
nesting-push (cons w vs) v = omega (arith, nesting-push vs v)

nesting-append_value : (w v : Value) → nesting (append_value w v) ≤ max (nesting w) (nesting v)
unfolding append_value
nesting-append_value (number n) v = omega arith
nesting-append_value (string t) v = omega arith
nesting-append_value (array vs) v = nesting-push vs v
nesting-append_value (object fs) v = omega arith

nesting-push_value :
    (fs : Fields) (k : Text) (v : Value)
    → nesting_fields (push_value fs k v) ≤ max (nesting_fields fs) (nesting v)
unfolding push_value
nesting-push_value end k v = omega arith
nesting-push_value (field j w fs) k v =
    ground (arith, nesting-push_value fs k v, nesting-append_value w v)

nesting-text_or_bytes : (content : Bytes) → nesting (text_or_bytes content) ≡ 0
unfolding text_or_bytes
nesting-text_or_bytes content = elim (Option-cases (from_utf8 content)) [
  | inl e ↦ rw e refl
  | inr (t, e) ↦ rw e refl
]

nesting-varint_value : (raw : ℕ) → nesting (varint_value raw) ≡ 0
unfolding varint_value
nesting-varint_value raw = ground arith

nesting-fixed64_value : (texts : FloatTexts) (raw : ℕ) → nesting (fixed64_value texts raw) ≡ 0
unfolding fixed64_value
nesting-fixed64_value texts raw = refl

nesting-fixed32_value : (texts : FloatTexts) (raw : ℕ) → nesting (fixed32_value texts raw) ≡ 0
unfolding fixed32_value
nesting-fixed32_value texts raw = refl

abbrev nesting_of : Option Value → ℕ
nesting_of none = 0
nesting_of (some v) = nesting v

abbrev fields_of : Option Fields → Fields
fields_of none = end
fields_of (some fs) = fs

same_fields : (gs fs : Fields) → some gs ≡ some fs → nesting_fields fs ≡ nesting_fields gs
same_fields gs fs h = sym (ap (λ o. nesting_fields (fields_of o)) h)

ge_of : (n depth : ℕ) → n + (depth + 1) ≤ 32 → suc n ≤ 32 - depth
ge_of n depth h = omega (arith, h)

abbrev value_of : Option (Value × ℕ) → Value
value_of none = number 0
value_of (some (v, behind)) = v

same_nesting :
    (w v : Value) (a b : ℕ)
    → ◌≡◌ {A = Option (Value × ℕ)} (some (w, a)) (some (v, b))
    → nesting v ≡ nesting w
same_nesting w v a b h = sym (ap (λ o. nesting (value_of o)) h)

module _ (texts : FloatTexts) (decode : Bytes → Option Fields) (bound : ℕ)
    (deeper : (content : Bytes) (fs : Fields)
      → decode content ≡ some fs
      → suc (nesting_fields fs) ≤ bound) where
  nesting-content_value : (content : Bytes) → nesting (content_value decode content) ≤ bound
  unfolding content_value
  nesting-content_value [] = omega (arith, nesting-text_or_bytes [])
  nesting-content_value (b ∷ bs) = elim (Option-cases (decode (b ∷ bs))) [
    | inl e ↦ rw e (omega (arith, nesting-text_or_bytes (b ∷ bs)))
    | inr (fs, e) ↦ rw e (deeper (b ∷ bs) fs e)
  ]

  nesting-decode_value :
      (w : WireType) (bytes : Bytes) (index behind : ℕ) (v : Value)
      → decode_value texts decode w bytes index ≡ some (v, behind)
      → nesting v ≤ bound
  unfolding decode_value
  nesting-decode_value varint bytes index behind v h =
      let ((raw, used), read, h') = >>=_read (read_varint bytes index) _ (v, behind) h in
      omega (
        arith,
        nesting-varint_value raw,
        same_nesting (varint_value raw) v (index + used) behind h',
      )
  nesting-decode_value fixed64 bytes index behind v h =
      let raw = from_le_bytes (take 8 (drop index bytes)) in
      let (room, h') = guard_passed (ltb (length bytes) (index + 8)) _ (v, behind) h in
      omega (
        arith,
        nesting-fixed64_value texts raw,
        same_nesting (fixed64_value texts raw) v (index + 8) behind h',
      )
  nesting-decode_value fixed32 bytes index behind v h =
      let raw = from_le_bytes (take 4 (drop index bytes)) in
      let (room, h') = guard_passed (ltb (length bytes) (index + 4)) _ (v, behind) h in
      omega (
        arith,
        nesting-fixed32_value texts raw,
        same_nesting (fixed32_value texts raw) v (index + 4) behind h',
      )
  nesting-decode_value length_delimited bytes index behind v h =
      let ((size, used), read, h') = >>=_read (read_varint bytes index) _ (v, behind) h in
      let start = index + used in
      let content = take size (drop start bytes) in
      let (room, h'') =
        guard_passed (leb (2 ^ 64) (start + size) || ltb (length bytes) (start + size)) _
          (v, behind) h' in
      omega (
        arith,
        nesting-content_value content,
        same_nesting (content_value decode content) v (start + size) behind h'',
      )

  nesting-decode_loop :
      (turns : ℕ) (bytes : Bytes) (index : ℕ) (fields fs : Fields)
      → nesting_fields fields ≤ bound
      → decode_loop texts decode turns bytes index fields ≡ some fs
      → nesting_fields fs ≤ bound
  unfolding decode_loop
  nesting-decode_loop zero bytes index fields fs few h =
      elim (Bool-cases (leb (length bytes) index)) [
        | inl over ↦
            let same = sym (decode_loop_end texts decode zero bytes index fields over) ∙ h in
            omega (arith, few, same_fields fields fs same)
        | inr more ↦ ground (arith, more)
      ]
  nesting-decode_loop (suc turns) bytes index fields fs few h =
      elim (Bool-cases (leb (length bytes) index)) [
        | inl over ↦
            let same = sym (decode_loop_end texts decode (suc turns) bytes index fields over) ∙ h in
            omega (arith, few, same_fields fields fs same)
        | inr more ↦ elim (Option-cases (decode_field texts decode bytes index)) [
          | inl e ↦
              let refused =
                sym (decode_loop_refused texts decode (suc turns) bytes index fields more e) ∙ h in
              ground (arith, refused)
          | inr (((n, v), behind), e) ↦
              let (w, (start, later, value)) =
                decode_field_read texts decode bytes index behind n v e in
              let flat = nesting-decode_value w bytes start behind v value in
              let rest =
                sym (decode_loop_turn texts decode turns bytes index behind n v fields more e)
                ∙ h in
              let still : nesting_fields (push_value fields (decimal n) v) ≤ bound =
                omega (arith, nesting-push_value fields (decimal n) v, flat, few) in
              nesting-decode_loop turns bytes behind (push_value fields (decimal n) v) fs still rest
        ]
      ]

module _ (texts : FloatTexts) where
  nesting-decode_fields :
      (levels : ℕ) (bytes : Bytes) (depth : ℕ) (fs : Fields)
      → decode_fields texts levels bytes depth ≡ some fs
      → nesting_fields fs + depth ≤ 32
  unfolding decode_fields
  nesting-decode_fields zero bytes depth fs h = ground (arith, h)
  nesting-decode_fields (suc levels) bytes depth fs h =
      let (shallow, h') = guard_passed (ltb 32 depth) _ fs h in
      let deeper =
        λ (content : Bytes) (inner : Fields)
            (e : decode_fields texts levels content (depth + 1) ≡ some inner).
          ge_of (nesting_fields inner) depth
            (nesting-decode_fields levels content (depth + 1) inner e) in
      let few =
        nesting-decode_loop texts (λ content. decode_fields texts levels content (depth + 1))
          (32 - depth) deeper (length bytes) bytes 0 end fs (omega arith) h' in
      ground (arith, shallow, few)

  -- No payload, however deep the lengths in it nest, is read as more than 33 objects inside each
  -- other: the recursion of the reader is bounded.
  pub nesting-decode_raw :
      (bytes : Bytes) (v : Value) → decode_raw texts bytes ≡ some v → nesting v ≤ 33
  unfolding decode_raw
  nesting-decode_raw bytes v h =
      let (fs, read, same) = >>=_read (decode_fields texts 34 bytes 0) _ v h in
      omega (arith, nesting-decode_fields 34 bytes 0 fs read, ap nesting_of same)
