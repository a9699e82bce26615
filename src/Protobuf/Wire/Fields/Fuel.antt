-- ===== src/Protobuf/Wire/Fields/Fuel.antt =====
-- Turns and levels: enough of them, and more of them change nothing.
use offset_explorer_oxide.Common.{
  ℕ, zero, suc, ◌+◌, ◌≤◌, Option, none, some, inl, inr, ◌≡◌, refl, sym, ap, ◌∙◌, true, false, arith,
  ltb, leb, length, Bool-cases, Option-cases, leb→le,
}
use mathlib.Core.Path.{fun_ext}
use offset_explorer_oxide.Common.Digits.{decimal}
use offset_explorer_oxide.Common.Options.{◌>>=◌, >>=_some}
use offset_explorer_oxide.Common.Utf8.{Bytes}
use offset_explorer_oxide.Protobuf.Json.{Value, object, Fields, end, push_value}
use offset_explorer_oxide.Protobuf.Wire.Fields.{
  FloatTexts, decode_field, decode_loop, decode_fields, decode_raw,
}
use offset_explorer_oxide.Protobuf.Wire.Fields.Advance.{decode_field_bounds}

module _ (texts : FloatTexts) (decode : Bytes → Option Fields) where
  pub decode_loop_end :
      (turns : ℕ) (bytes : Bytes) (index : ℕ) (fields : Fields)
      → leb (length bytes) index ≡ true
      → decode_loop texts decode turns bytes index fields ≡ some fields
  unfolding decode_loop
  decode_loop_end zero bytes index fields h = rw h refl
  decode_loop_end (suc turns) bytes index fields h = rw h refl

  pub decode_loop_refused :
      (turns : ℕ) (bytes : Bytes) (index : ℕ) (fields : Fields)
      → leb (length bytes) index ≡ false
      → decode_field texts decode bytes index ≡ none
      → decode_loop texts decode turns bytes index fields ≡ none
  unfolding decode_loop
  decode_loop_refused zero bytes index fields h e = rw h refl
  decode_loop_refused (suc turns) bytes index fields h e = rw h (rw e refl)

  pub decode_loop_turn :
      (turns : ℕ) (bytes : Bytes) (index behind n : ℕ) (v : Value) (fields : Fields)
      → leb (length bytes) index ≡ false
      → decode_field texts decode bytes index ≡ some ((n, v), behind)
      → decode_loop texts decode (suc turns) bytes index fields
        ≡ decode_loop texts decode turns bytes behind (push_value fields (decimal n) v)
  unfolding decode_loop
  decode_loop_turn turns bytes index behind n v fields h e =
      rw h (>>=_some (decode_field texts decode bytes index) ((n, v), behind) _ e)

  ended :
      (turns more : ℕ) (bytes : Bytes) (index : ℕ) (fields : Fields)
      → length bytes ≤ index
      → decode_loop texts decode turns bytes index fields
        ≡ decode_loop texts decode more bytes index fields
  ended turns more bytes index fields h =
      let over : leb (length bytes) index ≡ true = ground (arith, h) in
      decode_loop_end turns bytes index fields over
      ∙ sym (decode_loop_end more bytes index fields over)

  -- Any number of turns that reaches the end of the bytes gives the same.
  pub decode_loop_turns :
      (turns more : ℕ) (bytes : Bytes) (index : ℕ) (fields : Fields)
      → length bytes ≤ index + turns
      → length bytes ≤ index + more
      → decode_loop texts decode turns bytes index fields
        ≡ decode_loop texts decode more bytes index fields
  decode_loop_turns zero more bytes index fields enough also =
      ended zero more bytes index fields (omega (arith, enough))
  decode_loop_turns (suc turns) zero bytes index fields enough also =
      ended (suc turns) zero bytes index fields (omega (arith, also))
  decode_loop_turns (suc turns) (suc more) bytes index fields enough also =
      elim (Bool-cases (leb (length bytes) index)) [
        | inl h ↦ ended (suc turns) (suc more) bytes index fields (leb→le (length bytes) index h)
        | inr h ↦ elim (Option-cases (decode_field texts decode bytes index)) [
          | inl e ↦
              decode_loop_refused (suc turns) bytes index fields h e
              ∙ sym (decode_loop_refused (suc more) bytes index fields h e)
          | inr (((n, v), behind), e) ↦
              let (on, inside) = decode_field_bounds texts decode bytes index behind n v e in
              let ih =
                decode_loop_turns turns more bytes behind (push_value fields (decimal n) v)
                  (omega (arith, enough, on)) (omega (arith, also, on)) in
              decode_loop_turn turns bytes index behind n v fields h e
              ∙ ih
              ∙ sym (decode_loop_turn more bytes index behind n v fields h e)
        ]
      ]

module _ (texts : FloatTexts) where
  pub too_deep :
      (levels : ℕ) (bytes : Bytes) (depth : ℕ)
      → 33 ≤ depth
      → decode_fields texts levels bytes depth ≡ none
  unfolding decode_fields
  too_deep zero bytes depth h = refl
  too_deep (suc levels) bytes depth h =
      let deep : ltb 32 depth ≡ true = ground (arith, h) in rw deep refl

  pub decode_fields_step :
      (levels : ℕ) (bytes : Bytes) (depth : ℕ)
      → depth ≤ 32
      → decode_fields texts (suc levels) bytes depth
        ≡ decode_loop texts
            (λ content. decode_fields texts levels content (depth + 1))
            (length bytes)
            bytes
            0
            end
  unfolding decode_fields
  decode_fields_step levels bytes depth h =
      let shallow : ltb 32 depth ≡ false = ground (arith, h) in rw shallow refl

  -- Any number of levels that reaches depth 33 gives the same.
  pub decode_fields_levels :
      (levels more : ℕ) (bytes : Bytes) (depth : ℕ)
      → 33 ≤ levels + depth
      → 33 ≤ more + depth
      → decode_fields texts levels bytes depth ≡ decode_fields texts more bytes depth
  decode_fields_levels zero more bytes depth enough also =
      too_deep zero bytes depth (omega (arith, enough))
      ∙ sym (too_deep more bytes depth (omega (arith, enough)))
  decode_fields_levels (suc levels) zero bytes depth enough also =
      too_deep (suc levels) bytes depth (omega (arith, also))
      ∙ sym (too_deep zero bytes depth (omega (arith, also)))
  decode_fields_levels (suc levels) (suc more) bytes depth enough also =
      elim (Bool-cases (leb depth 32)) [
        | inl h ↦
            let shallow = leb→le depth 32 h in
            let same : (λ (content : Bytes). decode_fields texts levels content (depth + 1))
                ≡ (λ content. decode_fields texts more content (depth + 1)) =
              fun_ext (λ content.
                decode_fields_levels levels more content (depth + 1) (omega (arith, enough))
                  (omega (arith, also))) in
            decode_fields_step levels bytes depth shallow
            ∙ ap (λ decode. decode_loop texts decode (length bytes) bytes 0 end) same
            ∙ sym (decode_fields_step more bytes depth shallow)
        | inr h ↦
            let deep : 33 ≤ depth = ground (arith, h) in
            too_deep (suc levels) bytes depth deep ∙ sym (too_deep (suc more) bytes depth deep)
      ]

  -- Reading a payload ends: with any number of levels from 33 on for the nesting, and any number of
  -- turns from the number of bytes on for the loop over the outermost message, the answer is the
  -- one that `decode_raw` gives, so it never comes from having run out of either.
  pub decode_raw_ends :
      (levels turns : ℕ) (bytes : Bytes)
      → 33 ≤ levels
      → length bytes ≤ turns
      → (decode_loop texts (λ content. decode_fields texts levels content 1) turns bytes 0 end
          >>= (λ fields. some (object fields)))
        ≡ decode_raw texts bytes
  unfolding decode_raw
  decode_raw_ends levels turns bytes deep long =
      let decode : Bytes → Option Fields = λ content. decode_fields texts levels content 1 in
      let short : length bytes ≤ 0 + length bytes = omega arith in
      let fields : decode_loop texts decode turns bytes 0 end ≡ decode_fields texts 34 bytes 0 =
        decode_loop_turns texts decode turns (length bytes) bytes 0 end (omega (arith, long)) short
        ∙ sym (decode_fields_step levels bytes 0 (omega arith))
        ∙ decode_fields_levels (suc levels) 34 bytes 0 (omega (arith, deep)) (omega arith) in
      ap (λ o. o >>= (λ fs. some (object fs))) fields
