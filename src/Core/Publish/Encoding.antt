-- ===== src/Core/Publish/Encoding.antt =====
-- Which batches encode, and to what, told without the order in which the code looks.
use offset_explorer_oxide.Common.{
  ℕ, ◌+◌, ◌-◌, ◌^◌, ◌≤◌, ◌<◌, ◌≡◌, refl, ◌∙◌, ◌≢◌, ◌↔◌, List, [], ◌∷◌, ◌++◌, arith, length, All,
}
use offset_explorer_oxide.Core.Publish.Messages.{
  EncodesAll, encode_record_sound, encode_record_complete,
}
use offset_explorer_oxide.Core.Publish.{
  NewPublishMessage, EncodedRecord, size_bytes, PublishLimits, Reason, ok, err, Codecs,
  encode_record, admit, encode_each, encode_messages,
}

append_cons_not_nil {ℓ} :
    {A : Type ℓ} (front : List A) (x : A) (back : List A) → front ++ x ∷ back ≢ []
append_cons_not_nil [] x back = ground arith
append_cons_not_nil (y ∷ front) x back = ground arith

module _ (codecs : Codecs) where
  abbrev pub total_size : List EncodedRecord → ℕ
  total_size [] = 0
  total_size (r ∷ rs) = size_bytes r + total_size rs

  abbrev pub Fits : PublishLimits → EncodedRecord → Type 0
  Fits limits r = size_bytes r ≤ limits.max_message_size_bytes

  encode_each_complete :
      (limits : PublishLimits)
      → limits.max_batch_bytes < 2 ^ 64 - 1
      → (index total : ℕ) (ms : List NewPublishMessage) (rs : List EncodedRecord)
      → EncodesAll codecs ms rs
      → All (Fits limits) rs
      → total + total_size rs ≤ limits.max_batch_bytes
      → encode_each codecs limits index total ms ≡ ok rs
  unfolding encode_each admit
  encode_each_complete limits small index total [] [] h fits room = refl
  encode_each_complete limits small index total (m ∷ ms) (r ∷ rs) (one, more) (fit, fits) room =
      ground (
        arith,
        encode_record_complete codecs (index + 1) m r one,
        encode_each_complete limits small (index + 1) (total + size_bytes r) ms rs more fits
            (omega arith),
      )
  encode_each_complete limits small index total [] (_ ∷ _) h fits room = elim h [ ]
  encode_each_complete limits small index total (_ ∷ _) [] h fits room = elim h [ ]

  encode_each_sound :
      (limits : PublishLimits)
      → limits.max_batch_bytes < 2 ^ 64 - 1
      → (index total : ℕ) (ms : List NewPublishMessage) (rs : List EncodedRecord)
      → total ≤ limits.max_batch_bytes
      → encode_each codecs limits index total ms ≡ ok rs
      → EncodesAll codecs ms rs
        × All (Fits limits) rs
        × (total + total_size rs ≤ limits.max_batch_bytes)
  unfolding encode_each admit
  encode_each_sound limits small index total [] [] room h = omega arith
  encode_each_sound limits small index total [] (r ∷ rs) room h = ground arith
  encode_each_sound limits small index total (m ∷ ms) [] room h = ground arith
  encode_each_sound limits small index total (m ∷ ms) (r ∷ rs) room h =
      let one : encode_record codecs (index + 1) m ≡ ok r = ground arith in
      let fit : size_bytes r ≤ limits.max_message_size_bytes = ground (arith, one) in
      let fits : total + size_bytes r ≤ limits.max_batch_bytes = ground (arith, one) in
      let more : encode_each codecs limits (index + 1) (total + size_bytes r) ms ≡ ok rs =
        ground (arith, one, fit, fits) in
      let (all, each, sum) =
        encode_each_sound limits small (index + 1) (total + size_bytes r) ms rs fits more in
      ((encode_record_sound codecs (index + 1) m r one, all), (fit, each), omega (arith, sum))

  -- The batches that may be published: neither empty nor too long, with every record and their sum
  -- within the limits.
  abbrev pub Publishable : PublishLimits → List NewPublishMessage → List EncodedRecord → Type 0
  Publishable limits ms rs =
      (ms ≢ [])
      × (length ms ≤ limits.max_batch_messages)
      × EncodesAll codecs ms rs
      × All (Fits limits) rs
      × (total_size rs ≤ limits.max_batch_bytes)

  encode_messages-passes :
      (limits : PublishLimits) (ms : List NewPublishMessage)
      → ms ≢ []
      → length ms ≤ limits.max_batch_messages
      → encode_messages codecs ms limits ≡ encode_each codecs limits 0 0 ms
  unfolding encode_messages
  encode_messages-passes limits [] some_message few = absurd (some_message refl)
  encode_messages-passes limits (m ∷ ms) some_message few = ground arith

  -- Under a batch limit below the largest 64-bit number, encoding returns some records exactly when
  -- the batch is not empty, has no more messages than the limit, each message encodes to its record
  -- (text verbatim, JSON verbatim if it parses, base64 decoded from the trimmed text, null to
  -- nothing, headers in order and none with a blank name), each record is within the message limit
  -- and all together are within the batch limit. Nothing is returned for a part of a batch.
  pub encode_messages-Publishable :
      (limits : PublishLimits)
      → limits.max_batch_bytes < 2 ^ 64 - 1
      → (ms : List NewPublishMessage) (rs : List EncodedRecord)
      → encode_messages codecs ms limits ≡ ok rs ↔ Publishable limits ms rs
  unfolding encode_messages
  encode_messages-Publishable limits small ms rs = (there ms, back ms)
    where
      there :
          (l : List NewPublishMessage)
          → encode_messages codecs l limits ≡ ok rs
          → Publishable limits l rs
      there [] h = ground arith
      there (m ∷ l) h =
          let few : length (m ∷ l) ≤ limits.max_batch_messages = ground arith in
          let each : encode_each codecs limits 0 0 (m ∷ l) ≡ ok rs = ground arith in
          let (all, fits, room) =
            encode_each_sound limits small 0 0 (m ∷ l) rs (omega arith) each in
          (ground arith, few, all, fits, omega (arith, room))

      back :
          (l : List NewPublishMessage)
          → Publishable limits l rs
          → encode_messages codecs l limits ≡ ok rs
      back l (some_message, few, all, fits, room) =
          encode_messages-passes limits l some_message few
          ∙ encode_each_complete limits small 0 0 l rs all fits (omega arith)

  encode_each-first_fault :
      (limits : PublishLimits)
      → limits.max_batch_bytes < 2 ^ 64 - 1
      → (index total : ℕ) (front : List NewPublishMessage) (m : NewPublishMessage)
        (back : List NewPublishMessage) (rs : List EncodedRecord) (e : Reason)
      → EncodesAll codecs front rs
      → All (Fits limits) rs
      → total + total_size rs ≤ limits.max_batch_bytes
      → encode_record codecs (index + length front + 1) m ≡ err e
      → encode_each codecs limits index total (front ++ m ∷ back) ≡ err e
  unfolding encode_each admit
  encode_each-first_fault limits small index total [] m back [] e h fits room fault =
      ground (arith, fault)
  encode_each-first_fault limits small index total (x ∷ xs) m back (r ∷ rs) e (one, more)
        (fit, fits) room fault =
      ground (
        arith,
        encode_record_complete codecs (index + 1) x r one,
        encode_each-first_fault limits small (index + 1) (total + size_bytes r) xs m back rs e more
            fits (omega arith) (ground (arith, fault)),
      )
  encode_each-first_fault limits small index total [] m back (_ ∷ _) e h fits room fault =
      elim h [ ]
  encode_each-first_fault limits small index total (_ ∷ _) m back [] e h fits room fault =
      elim h [ ]

  -- When the messages before one encode and fit, and that one does not encode, the batch (if it is
  -- not too long, and under a batch limit below the largest 64-bit number) is refused with the error
  -- of that message, which is about its one-based position, whatever the messages after it are.
  pub encode_messages-first_fault :
      (limits : PublishLimits)
      → limits.max_batch_bytes < 2 ^ 64 - 1
      → (front : List NewPublishMessage) (m : NewPublishMessage) (back : List NewPublishMessage)
        (rs : List EncodedRecord) (e : Reason)
      → length (front ++ m ∷ back) ≤ limits.max_batch_messages
      → EncodesAll codecs front rs
      → All (Fits limits) rs
      → total_size rs ≤ limits.max_batch_bytes
      → encode_record codecs (length front + 1) m ≡ err e
      → encode_messages codecs (front ++ m ∷ back) limits ≡ err e
  unfolding encode_messages
  encode_messages-first_fault limits small front m back rs e few all fits room fault =
      encode_messages-passes limits (front ++ m ∷ back) (append_cons_not_nil front m back) few
      ∙ encode_each-first_fault limits small 0 0 front m back rs e all fits (omega arith)
          (ground (arith, fault))
