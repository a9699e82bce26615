-- ===== src/Core/Stream/Examples.antt =====
-- The stream's theorems at concrete inputs.
use offset_explorer_oxide.Common.{ℕ, ◌≡◌, refl, true, false, List, [], ◌∷◌}
use offset_explorer_oxide.Core.Stream.{Input, message, elapsed, forward_in_batches}
use offset_explorer_oxide.Core.Stream.Order.{IsFaithful, forward_in_batches-IsFaithful}
use offset_explorer_oxide.Core.Stream.Progress.{forward_in_batches-progress}

-- Batches of two, an interval that lapses, and a Stop before the message 5.
abbrev inputs : List (Input ℕ)
inputs =
    message 0 false
    ∷ elapsed
    ∷ message 1 false
    ∷ message 2 false
    ∷ message 3 false
    ∷ message 5 true
    ∷ []

batches : (forward_in_batches 2 2 inputs).emits ≡ (0 ∷ []) ∷ (1 ∷ 2 ∷ []) ∷ []
unfolding forward_in_batches
batches = refl

forward_in_batches-IsFaithful_example :
    IsFaithful 2 (0 ∷ 1 ∷ 2 ∷ 3 ∷ []) (forward_in_batches 2 2 inputs)
    × (true ≡ false → (forward_in_batches 2 2 inputs).batch ≡ [])
forward_in_batches-IsFaithful_example = forward_in_batches-IsFaithful 2 2 inputs

forward_in_batches-progress_example : (forward_in_batches 2 2 inputs).progress ≡ 2 ∷ 4 ∷ []
forward_in_batches-progress_example = forward_in_batches-progress 2 2 inputs
