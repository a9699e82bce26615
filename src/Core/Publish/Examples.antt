-- ===== src/Core/Publish/Examples.antt =====
-- The encoding theorems at a batch of two messages, with a toy JSON parser and base64 decoder.
use offset_explorer_oxide.Common.{
  ◌≡◌, refl, ◌↔◌, ◌≤◌, ◌==◌, Bool, false, none, some, [], ◌∷◌, arith,
}
use offset_explorer_oxide.Common.Utf8.{Text, as_bytes, encode_char, trim, trim_start, is_whitespace}
use offset_explorer_oxide.Core.Publish.{
  null, text, json, base64, NewPublishMessage, EncodedRecord, size_bytes, PublishLimits,
  for_max_message_size, unnamed_header, ok, err, Codecs, encode_field, encode_headers,
  encode_record, encode_messages,
}
use offset_explorer_oxide.Core.Publish.Messages.{EncodesAll}
use offset_explorer_oxide.Core.Publish.Encoding.{
  Publishable, encode_messages-Publishable, encode_messages-first_fault,
}

abbrev begins_with_brace : Text → Bool
begins_with_brace [] = false
begins_with_brace (c ∷ t) = c == 123

-- Codecs for which JSON is what begins with a brace, and base64 is the text itself.
abbrev toy : Codecs
toy = record { is_json = begins_with_brace; base64_decode = λ t. some t }

-- A message with a null key, the value `{}` and a header `é` with no value.
abbrev good : NewPublishMessage
good = record {
  key = record { encoding = null; content = [] };
  value = record { encoding = json; content = 123 ∷ 125 ∷ [] };
  headers = record { key = 233 ∷ []; value = record { encoding = null; content = [] } } ∷ [];
}

-- A message whose header has a blank name.
abbrev unnamed : NewPublishMessage
unnamed = record {
  key = record { encoding = base64; content = 65 ∷ 32 ∷ [] };
  value = record { encoding = text; content = 98 ∷ [] };
  headers = record { key = 32 ∷ 32 ∷ []; value = record { encoding = null; content = [] } } ∷ [];
}

abbrev good_record : EncodedRecord
good_record = record { key = none; value = some (123 ∷ 125 ∷ []); headers = (233 ∷ [], none) ∷ [] }

abbrev limits : PublishLimits
limits = for_max_message_size 1000

encode_good : encode_messages toy (good ∷ good ∷ []) limits ≡ ok (good_record ∷ good_record ∷ [])
unfolding encode_messages encode_record encode_field encode_headers size_bytes trim as_bytes
encode_good = refl

encode_messages-Publishable_example :
    encode_messages toy (good ∷ good ∷ []) limits ≡ ok (good_record ∷ good_record ∷ [])
    ↔ Publishable toy limits (good ∷ good ∷ []) (good_record ∷ good_record ∷ [])
encode_messages-Publishable_example =
    encode_messages-Publishable toy limits (omega arith) (good ∷ good ∷ [])
      (good_record ∷ good_record ∷ [])

fault : encode_record toy 2 unnamed ≡ err (unnamed_header 2)
unfolding encode_record encode_field encode_headers trim trim_start is_whitespace as_bytes
    encode_char
fault = refl

good_fits : size_bytes good_record ≤ 1000
unfolding size_bytes as_bytes encode_char
good_fits = omega arith

good_encodes : EncodesAll toy (good ∷ []) (good_record ∷ [])
unfolding trim trim_start is_whitespace as_bytes
good_encodes = ((refl, (refl, refl), (ground arith, refl, refl, tt)), tt)

encode_messages-first_fault_example :
    encode_messages toy (good ∷ unnamed ∷ good ∷ []) limits ≡ err (unnamed_header 2)
encode_messages-first_fault_example =
    encode_messages-first_fault toy limits (omega arith) (good ∷ []) unnamed (good ∷ [])
      (good_record ∷ []) (unnamed_header 2) (omega arith) good_encodes (good_fits, tt)
      (omega (arith, good_fits)) fault
