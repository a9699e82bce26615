-- ===== src/Core/Publish/Messages.antt =====
-- What a message's fields stand for, and that its encoding is that.
use offset_explorer_oxide.Common.{ℕ, ◌≡◌, refl, ◌≢◌, true, Option, none, some, List, [], ◌∷◌, arith}
use offset_explorer_oxide.Common.Utf8.{Text, Bytes, as_bytes, trim}
use offset_explorer_oxide.Core.Publish.{
  Place, key_of, value_of, header_of, PayloadEncoding, null, text, json, base64, PublishHeaderInput,
  NewPublishMessage, EncodedRecord, ok, Codecs, encode_as, encode_field, encode_headers,
  encode_record,
}

module _ (codecs : Codecs) where
  -- What a field's text stands for under the encoding that was chosen.
  abbrev pub Encodes : PayloadEncoding → Text → Option Bytes → Type 0
  Encodes null t b = b ≡ none
  Encodes text t b = b ≡ some (as_bytes t)
  Encodes json t b = (codecs.is_json t ≡ true) × (b ≡ some (as_bytes t))
  Encodes base64 t b = (b ≢ none) × (b ≡ codecs.base64_decode (trim t))

  abbrev pub EncodesHeaders : List PublishHeaderInput → List (Text × Option Bytes) → Type 0
  EncodesHeaders [] [] = Unit
  EncodesHeaders (h ∷ hs) ((name, b) ∷ r) =
      (trim h.key ≢ [])
      × (name ≡ h.key)
      × Encodes h.value.encoding h.value.content b
      × EncodesHeaders hs r
  EncodesHeaders [] (_ ∷ _) = ⊥
  EncodesHeaders (_ ∷ _) [] = ⊥

  abbrev pub EncodesMessage : NewPublishMessage → EncodedRecord → Type 0
  EncodesMessage m r =
      Encodes m.key.encoding m.key.content r.key
      × Encodes m.value.encoding m.value.content r.value
      × EncodesHeaders m.headers r.headers

  -- Message by message, in the same order.
  abbrev pub EncodesAll : List NewPublishMessage → List EncodedRecord → Type 0
  EncodesAll [] [] = Unit
  EncodesAll (m ∷ ms) (r ∷ rs) = EncodesMessage m r × EncodesAll ms rs
  EncodesAll [] (_ ∷ _) = ⊥
  EncodesAll (_ ∷ _) [] = ⊥

  encode_field_sound :
      (e : PayloadEncoding) (t : Text) (b : Option Bytes) (what : Place)
      → encode_as codecs e t what ≡ ok b
      → Encodes e t b
  encode_field_sound null t b what h = ground arith
  encode_field_sound text t b what h = ground arith
  encode_field_sound json t b what h = ground arith
  encode_field_sound base64 t b what h = ground arith

  encode_field_complete :
      (e : PayloadEncoding) (t : Text) (b : Option Bytes) (what : Place)
      → Encodes e t b
      → encode_as codecs e t what ≡ ok b
  encode_field_complete null t b what h = ground arith
  encode_field_complete text t b what h = ground arith
  encode_field_complete json t b what h = ground arith
  encode_field_complete base64 t b what h = ground arith

  encode_headers_sound :
      (position : ℕ) (hs : List PublishHeaderInput) (r : List (Text × Option Bytes))
      → encode_headers codecs position hs ≡ ok r
      → EncodesHeaders hs r
  unfolding encode_headers encode_field
  encode_headers_sound position [] r h = ground arith
  encode_headers_sound position (x ∷ hs) [] h = ground arith
  encode_headers_sound position (x ∷ hs) ((name, b) ∷ r) h = (
    ground arith,
    ground arith,
    encode_field_sound x.value.encoding x.value.content b (header_of x.key position) (ground arith),
    encode_headers_sound position hs r (ground arith),
  )

  encode_headers_complete :
      (position : ℕ) (hs : List PublishHeaderInput) (r : List (Text × Option Bytes))
      → EncodesHeaders hs r
      → encode_headers codecs position hs ≡ ok r
  unfolding encode_headers encode_field
  encode_headers_complete position [] [] h = refl
  encode_headers_complete position (x ∷ hs) ((name, b) ∷ r) (named, same, one, more) = ground (
    arith,
    encode_field_complete x.value.encoding x.value.content b (header_of x.key position) one,
    encode_headers_complete position hs r more,
  )
  encode_headers_complete position [] (_ ∷ _) h = elim h [ ]
  encode_headers_complete position (_ ∷ _) [] h = elim h [ ]

  pub encode_record_sound :
      (position : ℕ) (m : NewPublishMessage) (r : EncodedRecord)
      → encode_record codecs position m ≡ ok r
      → EncodesMessage m r
  unfolding encode_record encode_field
  encode_record_sound position m r h = (
    encode_field_sound m.key.encoding m.key.content r.key (key_of position) (ground arith),
    encode_field_sound m.value.encoding m.value.content r.value (value_of position) (ground arith),
    encode_headers_sound position m.headers r.headers (ground arith),
  )

  pub encode_record_complete :
      (position : ℕ) (m : NewPublishMessage) (r : EncodedRecord)
      → EncodesMessage m r
      → encode_record codecs position m ≡ ok r
  unfolding encode_record encode_field
  encode_record_complete position m r (k, v, hs) = ground (
    arith,
    encode_field_complete m.key.encoding m.key.content r.key (key_of position) k,
    encode_field_complete m.value.encoding m.value.content r.value (value_of position) v,
    encode_headers_complete position m.headers r.headers hs,
  )
