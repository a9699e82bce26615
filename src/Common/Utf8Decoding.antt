-- ===== src/Common/Utf8Decoding.antt =====
-- The standard library's `String::from_utf8`, and that it reads back what `as_bytes` writes.
use Prim.Native.Nat.{ℕ, zero, suc, ◌+◌, ◌-◌, ◌*◌, ◌≤◌}
use mathlib.Core.Path.{◌≡◌, refl, ◌∙◌}
use mathlib.Core.Logic.{inl, inr}
use mathlib.Core.Bool.{Bool, true, ◌&&◌, ◌||◌}
use mathlib.Core.Option.{Option, none, some}
use mathlib.Core.List.{[], ◌∷◌, ◌++◌}
use native.Mathlib.Omega.{arith}
use offset_explorer_oxide.Common.Tests.{ltb, leb, if◌then◌else◌, Bool-cases}
use offset_explorer_oxide.Common.Lists.{length, All, length-append}
use offset_explorer_oxide.Common.Utf8.{Text, Bytes, encode_char, as_bytes}

-- A Unicode scalar value: what a `char` holds.
abbrev pub is_scalar : ℕ → Bool
is_scalar c = ltb c 0xd800 || (leb 0xe000 c && ltb c 0x110000)

abbrev is_continuation : ℕ → Bool
is_continuation b = leb 0x80 b && ltb b 0xc0

-- The character that an encoding of two, three or four bytes stands for, unless it has a shorter one
-- or is no scalar value.
abbrev two : ℕ → Bytes → Option (ℕ × Bytes)
two a [] = none
two a (b ∷ r) =
    let c = (a - 0xc0) * 64 + (b - 0x80) in
    if is_continuation b && leb 0x80 c then some (c, r) else none

abbrev three : ℕ → Bytes → Option (ℕ × Bytes)
three a [] = none
three a (b ∷ []) = none
three a (b ∷ d ∷ r) =
    let c = (a - 0xe0) * 4096 + (b - 0x80) * 64 + (d - 0x80) in
    if is_continuation b && is_continuation d && leb 0x800 c && is_scalar c
    then some (c, r)
    else none

abbrev four : ℕ → Bytes → Option (ℕ × Bytes)
four a [] = none
four a (b ∷ []) = none
four a (b ∷ d ∷ []) = none
four a (b ∷ d ∷ e ∷ r) =
    let c = (a - 0xf0) * 262144 + (b - 0x80) * 4096 + (d - 0x80) * 64 + (e - 0x80) in
    if is_continuation b && is_continuation d && is_continuation e && leb 0x10000 c && is_scalar c
    then some (c, r)
    else none

unfoldable pub decode_char : Bytes → Option (ℕ × Bytes)
decode_char [] = none
decode_char (a ∷ r) =
    if ltb a 0x80
    then some (a, r)
    else if ltb a 0xc0
    then none
    else if ltb a 0xe0
    then two a r
    else if ltb a 0xf0
    then three a r
    else if ltb a 0xf8
    then four a r
    else none

decode_char-encode_char :
    (c : ℕ) (rest : Bytes)
    → is_scalar c ≡ true
    → decode_char (encode_char c ++ rest) ≡ some (c, rest)
unfolding decode_char encode_char
decode_char-encode_char c rest h = elim (Bool-cases (ltb c 0x80)) [
  | inl e ↦ rw e (rw e refl)
  | inr e ↦ elim (Bool-cases (ltb c 0x800)) [
    | inl f ↦ rw (e, f) (ground arith)
    | inr f ↦ elim (Bool-cases (ltb c 0x10000)) [
      | inl g ↦ rw (e, f, g) (ground arith)
      | inr g ↦ rw (e, f, g) (ground arith)
    ]
  ]
]

abbrev cons_some : ℕ → Option Text → Option Text
cons_some c none = none
cons_some c (some t) = some (c ∷ t)

abbrev continue : (Bytes → Option Text) → Option (ℕ × Bytes) → Option Text
continue next none = none
continue next (some (c, rest)) = cons_some c (next rest)

-- The characters of a text, with fuel for one byte at least of each.
unfoldable pub decode_all : ℕ → Bytes → Option Text
unfolding decode_char
decode_all fuel [] = some []
decode_all zero (b ∷ bs) = none
decode_all (suc fuel) (b ∷ bs) = continue (decode_all fuel) (decode_char (b ∷ bs))

unfoldable pub from_utf8 : Bytes → Option Text
unfolding decode_all
from_utf8 bytes = decode_all (length bytes) bytes

decode_all_step :
    (fuel : ℕ) (bs : Bytes) (c : ℕ) (rest : Bytes)
    → decode_char bs ≡ some (c, rest)
    → decode_all (suc fuel) bs ≡ cons_some c (decode_all fuel rest)
unfolding decode_all decode_char
decode_all_step fuel [] c rest h = ground arith
decode_all_step fuel (b ∷ bs) c rest h = rw h refl

length-encode_char : (c : ℕ) → 1 ≤ length (encode_char c)
unfolding encode_char
length-encode_char c = ground arith

decode_all-as_bytes :
    (fuel : ℕ) (t : Text)
    → All (λ c. is_scalar c ≡ true) t
    → length (as_bytes t) ≤ fuel
    → decode_all fuel (as_bytes t) ≡ some t
unfolding as_bytes decode_all
decode_all-as_bytes fuel [] h enough = refl
decode_all-as_bytes zero (c ∷ t) h enough =
    absurd (omega (arith, length-encode_char c, length-append (encode_char c) (as_bytes t)))
decode_all-as_bytes (suc fuel) (c ∷ t) (scalar, scalars) enough =
    let room : length (as_bytes t) ≤ fuel =
      omega (arith, length-encode_char c, length-append (encode_char c) (as_bytes t)) in
    decode_all_step fuel (encode_char c ++ as_bytes t) c (as_bytes t)
      (decode_char-encode_char c (as_bytes t) scalar)
    ∙ rw (decode_all-as_bytes fuel t scalars room) refl

pub from_utf8-as_bytes :
    (t : Text) → All (λ c. is_scalar c ≡ true) t → from_utf8 (as_bytes t) ≡ some t
unfolding from_utf8
from_utf8-as_bytes t h = decode_all-as_bytes (length (as_bytes t)) t h (omega arith)
