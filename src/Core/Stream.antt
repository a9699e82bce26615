-- ===== src/Core/Stream.antt =====
-- backend/core/src/message_stream.rs: a fetch's messages sent to the window in batches. What the
-- loop waits for is an input: each message with what the cancel flag reads when the loop has it, and
-- each lapse of `batch_interval`. The end of the inputs is the end of the channel.
pub mod Order
pub mod Progress
mod Examples
use offset_explorer_oxide.Common.{
  ℕ, suc, ◌+◌, ◌-◌, max, ◌≡◌, Bool, true, false, ◌&&◌, List, [], ◌∷◌, ◌++◌, ltb, leb, if◌then◌else◌,
  length,
}

pub data Input {ℓ} (M : Type ℓ) : Type ℓ where
  message : M → Bool → Input M
  elapsed : Input M

-- The variables of the loop, and what its two callbacks were called with, oldest call first.
pub record Stream {ℓ} (M : Type ℓ) : Type ℓ where
  pub emitted : ℕ
  pub batch : List M
  pub reported_at : ℕ
  pub emits : List (List M)
  pub progress : List ℕ

module _ {ℓ} {M : Type ℓ} where
  abbrev pub start : Stream M
  start = record { emitted = 0; batch = []; reported_at = 0; emits = []; progress = [] }

  abbrev pub is_empty : List M → Bool
  is_empty [] = true
  is_empty (m ∷ ms) = false

  -- `emitted += batch.len(); emit(std::mem::take(&mut batch));`
  pub flush : Stream M → Stream M
  flush s = record s {
    emitted = s.emitted + length s.batch;
    emits = s.emits ++ (s.batch ∷ []);
    batch = [];
  }

  pub report : ℕ → Stream M → Stream M
  report progress_every s =
      let seen = s.emitted + length s.batch in
      if ltb 0 progress_every && leb progress_every (seen - s.reported_at)
      then record s { reported_at = seen; progress = s.progress ++ (seen ∷ []) }
      else s

  pub take_message : ℕ → ℕ → Stream M → M → Stream M
  unfolding report flush
  take_message batch_size progress_every s m =
      let s' : Stream M = record s { batch = s.batch ++ (m ∷ []) } in
      report progress_every (if leb batch_size (length s'.batch) then flush s' else s')

  -- What follows the loop when the channel has closed.
  pub send_rest : Stream M → Stream M
  unfolding flush
  send_rest s =
      if is_empty s.batch then record s { emitted = s.emitted + length s.batch } else flush s

  -- With nothing buffered the loop waits for a message alone, and no interval can lapse.
  pub loop : ℕ → ℕ → List (Input M) → Stream M → Stream M
  unfolding flush take_message send_rest
  loop batch_size progress_every [] s = send_rest s
  loop batch_size progress_every (elapsed ∷ rest) s =
      loop batch_size progress_every rest (if is_empty s.batch then s else flush s)
  loop batch_size progress_every (message m true ∷ rest) s = s
  loop batch_size progress_every (message m false ∷ rest) s =
      loop batch_size progress_every rest (take_message batch_size progress_every s m)

  -- The returned count is the field `emitted`.
  pub forward_in_batches : ℕ → ℕ → List (Input M) → Stream M
  unfolding loop
  forward_in_batches batch_size progress_every inputs =
      loop (max batch_size 1) progress_every inputs start
