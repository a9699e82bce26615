-- ===== src/Common/Bits.antt =====
-- The bitwise or of a number with one that is shifted above its bits.
use Prim.Native.Nat.{
  ℕ, zero, suc, ◌+◌, ◌*◌, ◌/◌, ◌%◌, ◌^◌, ◌≤◌, ◌<◌, max, digits, bit_or, bit_or-bitwise,
}
use mathlib.Core.Path.{◌≡◌, ◌∙◌}
use native.Mathlib.Omega.{arith}
use native.Mathlib.Numerals.{unary_clauses}

abbrev or_digits : ℕ → ℕ → ℕ → ℕ
or_digits = digits (λ b. b) max

pub double_power : (s : ℕ) → 2 ^ suc s ≡ 2 * 2 ^ s
double_power s = simp unary_clauses (omega arith)

pub double_shift : (x s : ℕ) → x * 2 ^ suc s ≡ 2 * (x * 2 ^ s)
double_shift x s = rw (double_power s) (omega arith)

or_digits_shifted : (n a s x : ℕ) → a ≤ n → a < 2 ^ s → or_digits n a (x * 2 ^ s) ≡ a + x * 2 ^ s
or_digits_shifted zero a s x h small = omega arith
or_digits_shifted (suc n) zero s x h small = omega arith
or_digits_shifted (suc n) (suc a) zero x h small = omega arith
or_digits_shifted (suc n) (suc a) (suc s) x h small =
    let ih = or_digits_shifted n (suc a / 2) s x (omega arith) (omega (arith, double_power s)) in
    let y = x * 2 ^ s in
    let half : 2 * y / 2 ≡ y = omega arith in
    let even : 2 * y % 2 ≡ 0 = omega arith in rw (double_shift x s, half, even, ih) (omega arith)

pub bit_or_shifted : (s a x : ℕ) → a < 2 ^ s → bit_or a (x * 2 ^ s) ≡ a + x * 2 ^ s
bit_or_shifted s a x small =
    bit_or-bitwise a (x * 2 ^ s) ∙ or_digits_shifted a a s x (omega arith) small
