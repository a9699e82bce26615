-- ===== src/Common/Digits.antt =====
-- The texts of numbers: decimal, as `to_string` writes an integer, and padded lower-case hex.
use offset_explorer_oxide.Common.Tests.{ltb, if◌then◌else◌, Bool-cases}
use offset_explorer_oxide.Common.Utf8.{Text}
use offset_explorer_oxide.Common.Int.{ℤ, pos, negsuc}
use Prim.Native.String.{String, ◌++◌ as concat_texts}
use Prim.Native.Nat.{ℕ, zero, suc, ◌+◌, ◌-◌, ◌*◌, ◌/◌, ◌%◌, ◌^◌, ◌<◌}
use mathlib.Core.Path.{◌≡◌, refl, sym, ap, ◌∙◌}
use mathlib.Core.Logic.{inl, inr}
use mathlib.Core.List.{[], ◌∷◌, ◌++◌}
use native.Mathlib.Omega.{arith}
use native.Mathlib.Numerals.{towards_suc}

-- Highest digit first, with fuel for as many digits.
unfoldable pub digits : ℕ → ℕ → Text
digits zero v = []
digits (suc n) v =
    let front = digits n (v / 10) in if ltb v 10 then (48 + v) ∷ [] else front ++ (48 + v % 10) ∷ []

-- Twenty digits hold 64 bits.
abbrev pub decimal : ℕ → Text
decimal v = digits 20 v

abbrev pub signed_decimal : ℤ → Text
signed_decimal (pos n) = decimal n
signed_decimal (negsuc n) = 45 ∷ decimal (suc n)

-- The same as a native text.
abbrev pub digit_text : ℕ → String
digit_text d =
    if ltb d 1
    then "0"
    else if ltb d 2
    then "1"
    else if ltb d 3
    then "2"
    else if ltb d 4
    then "3"
    else if ltb d 5
    then "4"
    else if ltb d 6
    then "5"
    else if ltb d 7
    then "6"
    else if ltb d 8
    then "7"
    else if ltb d 9
    then "8"
    else "9"

unfoldable pub native_digits : ℕ → ℕ → String
native_digits zero v = ""
native_digits (suc n) v =
    let front = native_digits n (v / 10) in
    if ltb v 10 then digit_text v else concat_texts front (digit_text (v % 10))

abbrev pub to_string : ℕ → String
to_string v = native_digits 20 v

abbrev pub hex_digit : ℕ → ℕ
hex_digit d = if ltb d 10 then 48 + d else 87 + d

-- The last `n` hex digits.
unfoldable pub hex_digits : ℕ → ℕ → Text
hex_digits zero v = []
hex_digits (suc n) v = hex_digits n (v / 16) ++ hex_digit (v % 16) ∷ []

-- Reading the digits back.
abbrev number : ℕ → Text → ℕ
number acc [] = acc
number acc (c ∷ t) = number (acc * 10 + (c - 48)) t

number_last : (acc : ℕ) (t : Text) (c : ℕ) → number acc (t ++ c ∷ []) ≡ number acc t * 10 + (c - 48)
number_last acc [] c = refl
number_last acc (d ∷ t) c = number_last (acc * 10 + (d - 48)) t c

tenfold : (n : ℕ) → 10 ^ (n + 1) ≡ 10 * 10 ^ n
tenfold n = simp towards_suc (omega arith)

number-digits : (n v : ℕ) → v < 10 ^ n → number 0 (digits n v) ≡ v
unfolding digits
number-digits zero v h = omega (arith, h)
number-digits (suc n) v h = elim (Bool-cases (ltb v 10)) [
  | inl e ↦ rw e (omega arith)
  | inr e ↦
      let ih = number-digits n (v / 10) (omega (arith, h, tenfold n)) in
      rw e (number_last 0 (digits n (v / 10)) (48 + v % 10) ∙ rw ih (omega arith))
]

-- Numbers of 64 bits with the same decimal text are the same.
pub decimal_injective : (a b : ℕ) → a < 2 ^ 64 → b < 2 ^ 64 → decimal a ≡ decimal b → a ≡ b
decimal_injective a b ha hb h =
    sym (number-digits 20 a (omega (arith, ha)))
    ∙ ap (number 0) h
    ∙ number-digits 20 b (omega (arith, hb))
