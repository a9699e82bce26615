-- ===== src/Core/Publish.antt =====
-- backend/core/src/publish.rs: what the entered messages become, and whether a publish may proceed.
-- A report is its `AppError`, here always `validation`, with the reason as data where the source
-- formats a sentence. serde_json's parser and the base64 decoder are parameters.
pub mod Messages
pub mod Encoding
mod Examples
use Prim.Native.Nat.{zero}
use offset_explorer_oxide.Common.{
  String, ℕ, suc, ◌+◌, ◌-◌, ◌*◌, ◌^◌, min, Bool, true, false, Option, none, some, List, [], ◌∷◌,
  ltb, ◌==◌, if◌then◌else◌, length,
}
use offset_explorer_oxide.Common.Int.{ℤ}
use offset_explorer_oxide.Common.Utf8.{Text, Bytes, as_bytes, trim}
use offset_explorer_oxide.Core.Errors.{
  AppError, db, kafka, secrets, validation, not_found, zookeeper, schema_registry, decode,
  authentication, authorization,
}

pub data PayloadEncoding : Type 0 where
  null text json base64 : PayloadEncoding

pub record PublishField : Type 0 where
  pub encoding : PayloadEncoding
  pub content : Text

pub record PublishHeaderInput : Type 0 where
  pub key : Text
  pub value : PublishField

pub record NewPublishMessage : Type 0 where
  pub key : PublishField
  pub value : PublishField
  pub headers : List PublishHeaderInput

pub record EncodedRecord : Type 0 where
  pub key : Option Bytes
  pub value : Option Bytes
  pub headers : List (Text × Option Bytes)

abbrev pub bytes_len : Option Bytes → ℕ
bytes_len none = 0
bytes_len (some b) = length b

abbrev pub headers_len : List (Text × Option Bytes) → ℕ
headers_len [] = 0
headers_len ((name, value) ∷ hs) = length (as_bytes name) + bytes_len value + headers_len hs

-- The sizes are those of bytes held in memory, so their sum does not wrap.
unfoldable pub size_bytes : EncodedRecord → ℕ
size_bytes r = bytes_len r.key + bytes_len r.value + headers_len r.headers

pub record PublishLimits : Type 0 where
  pub max_message_size_bytes : ℕ
  pub max_batch_messages : ℕ
  pub max_batch_bytes : ℕ

abbrev pub max_publish_batch_messages : ℕ
max_publish_batch_messages = 100

abbrev pub max_publish_batch_bytes : ℕ
max_publish_batch_bytes = 64 * 1024 * 1024

abbrev pub for_max_message_size : ℕ → PublishLimits
for_max_message_size max_message_size_bytes = record {
  max_message_size_bytes = max_message_size_bytes;
  max_batch_messages = max_publish_batch_messages;
  max_batch_bytes = max_publish_batch_bytes;
}

-- The field that an error is about, with the one-based position of its message.
pub data Place : Type 0 where
  key_of value_of : ℕ → Place
  header_of : Text → ℕ → Place

pub data Reason : Type 0 where
  no_messages : Reason
  too_many : ℕ → ℕ → Reason
  invalid_json invalid_base64 : Place → Reason
  unnamed_header : ℕ → Reason
  too_large : ℕ → ℕ → ℕ → Reason
  batch_too_large : ℕ → Reason

pub data Result {ℓ} (A : Type ℓ) : Type ℓ where
  ok : A → Result A
  err : Reason → Result A

infixl 5 ◌>>=◌
abbrev pub ◌>>=◌ {ℓ κ} : {A : Type ℓ} {B : Type κ} → Result A → (A → Result B) → Result B
ok a >>= f = f a
err e >>= f = err e

-- Whether serde_json parses a text, and what the standard base64 alphabet decodes it to.
pub record Codecs : Type 0 where
  pub is_json : Text → Bool
  pub base64_decode : Text → Option Bytes

abbrev pub is_empty_text : Text → Bool
is_empty_text [] = true
is_empty_text (c ∷ t) = false

module _ (codecs : Codecs) where
  abbrev pub decoded : Option Bytes → Place → Result (Option Bytes)
  decoded none what = err (invalid_base64 what)
  decoded (some b) what = ok (some b)

  abbrev pub encode_as : PayloadEncoding → Text → Place → Result (Option Bytes)
  encode_as null t what = ok none
  encode_as text t what = ok (some (as_bytes t))
  encode_as json t what =
      if codecs.is_json t then ok (some (as_bytes t)) else err (invalid_json what)
  encode_as base64 t what = decoded (codecs.base64_decode (trim t)) what

  unfoldable pub encode_field : PublishField → Place → Result (Option Bytes)
  encode_field field what = encode_as field.encoding field.content what

  unfoldable pub encode_headers : ℕ → List PublishHeaderInput → Result (List (Text × Option Bytes))
  unfolding encode_field
  encode_headers position [] = ok []
  encode_headers position (h ∷ hs) =
      let rest = encode_headers position hs in
      if is_empty_text (trim h.key) then err (unnamed_header position) else do
        bytes ← encode_field h.value (header_of h.key position)
        others ← rest
        ok ((h.key, bytes) ∷ others)

  unfoldable pub encode_record : ℕ → NewPublishMessage → Result EncodedRecord
  unfolding encode_headers encode_field
  encode_record position m = do
    key ← encode_field m.key (key_of position)
    value ← encode_field m.value (value_of position)
    headers ← encode_headers position m.headers
    ok (record { key = key; value = value; headers = headers })

  -- The checks on one record, with the batch's bytes so far (`saturating_add` on a `u64`).
  unfoldable pub admit : PublishLimits → ℕ → ℕ → EncodedRecord → Result ℕ
  admit limits position total_bytes r =
      let size = size_bytes r in
      let total = min (total_bytes + size) (2 ^ 64 - 1) in
      if ltb limits.max_message_size_bytes size
      then err (too_large position size limits.max_message_size_bytes)
      else if ltb limits.max_batch_bytes total
      then err (batch_too_large limits.max_batch_bytes)
      else ok total

  unfoldable pub encode_each :
      PublishLimits → ℕ → ℕ → List NewPublishMessage → Result (List EncodedRecord)
  unfolding encode_record admit
  encode_each limits index total_bytes [] = ok []
  encode_each limits index total_bytes (m ∷ ms) = do
    r ← encode_record (index + 1) m
    total ← admit limits (index + 1) total_bytes r
    records ← encode_each limits (index + 1) total ms
    ok (r ∷ records)

  unfoldable pub encode_messages :
      List NewPublishMessage → PublishLimits → Result (List EncodedRecord)
  unfolding encode_each
  encode_messages [] limits = err no_messages
  encode_messages (m ∷ ms) limits =
      let count = length (m ∷ ms) in
      let records = encode_each limits 0 0 (m ∷ ms) in
      if ltb limits.max_batch_messages count
      then err (too_many limits.max_batch_messages count)
      else records

pub data PublishFailureKind : Type 0 where
  authorization_failure authentication_failure validation_failure transient : PublishFailureKind

unfoldable pub from_error : AppError → PublishFailureKind
from_error authorization = authorization_failure
from_error authentication = authentication_failure
from_error validation = validation_failure
from_error e = transient

pub record DeliveredRecord : Type 0 where
  pub index : ℕ
  pub partition : ℤ
  pub offset : ℤ

pub record PublishFailure : Type 0 where
  pub index : ℕ
  pub kind : PublishFailureKind
  pub reason : String

pub record PublishOutcome : Type 0 where
  pub delivered : List DeliveredRecord
  pub failure : Option PublishFailure
  pub not_attempted : ℕ

abbrev pub default : PublishOutcome
default = record { delivered = []; failure = none; not_attempted = 0 }

pub data PublishRefusal : Type 0 where
  not_connected not_allowed : PublishRefusal
  broker_denied : String → PublishRefusal

abbrev pub denied_by : Option String → Option PublishRefusal
denied_by none = none
denied_by (some why) = some (broker_denied why)

unfoldable pub publish_refusal : Bool → Bool → Option String → Option PublishRefusal
publish_refusal connected allow_publishing broker_denial =
    if connected
    then if allow_publishing then denied_by broker_denial else some not_allowed
    else some not_connected

unfoldable pub refusal_error : PublishRefusal → AppError
refusal_error not_connected = validation
refusal_error not_allowed = validation
refusal_error (broker_denied why) = authorization
