-- ===== src/Protobuf/Wire/Varint.antt =====
-- Varints against the base-128 encoding, lowest digits first.
use offset_explorer_oxide.Common.{
  ℕ, zero, suc, ◌+◌, ◌-◌, ◌*◌, ◌/◌, ◌%◌, ◌^◌, ◌≤◌, ◌<◌, bit_or, ◌≡◌, refl, ap, ◌∙◌, true, false,
  inl, inr, Option, some, List, [], ◌∷◌, ◌++◌, arith, ltb, leb, if◌then◌else◌, length, drop,
  Bool-cases, length-drop,
}
use offset_explorer_oxide.Common.Bits.{bit_or_shifted}
use offset_explorer_oxide.Common.Utf8.{Bytes}
use offset_explorer_oxide.Protobuf.Wire.{read_loop, read_varint}
use native.Mathlib.Numerals.{towards_suc}

-- At most as many digits as the fuel.
abbrev pub put_digits : ℕ → ℕ → Bytes
put_digits zero v = []
put_digits (suc n) v =
    let rest = put_digits n (v / 128) in if ltb v 128 then v ∷ [] else (128 + v % 128) ∷ rest

-- Ten digits hold 64 bits.
abbrev pub put_varint : ℕ → Bytes
put_varint v = put_digits 10 v

power : (s : ℕ) → 2 ^ (s + 7) ≡ 128 * 2 ^ s
power s = simp towards_suc (omega arith)

module _ (s a v : ℕ) (small : a < 2 ^ s) (fits : a + v * 2 ^ s < 2 ^ 64) where
  last_digit : bit_or a (v * 2 ^ s % 2 ^ 64) ≡ a + v * 2 ^ s
  last_digit =
      let whole : v * 2 ^ s % 2 ^ 64 ≡ v * 2 ^ s = omega (arith, fits) in
      rw whole (bit_or_shifted s a v small)

  split_digits : v * 2 ^ s ≡ 128 * (v / 128 * 2 ^ s) + v % 128 * 2 ^ s
  split_digits =
      let digits : v ≡ 128 * (v / 128) + v % 128 = omega arith in
      omega (arith, ap (λ (t : ℕ). t * 2 ^ s) digits)

  first_digit : bit_or a (v % 128 * 2 ^ s % 2 ^ 64) ≡ a + v % 128 * 2 ^ s
  first_digit =
      let whole : v % 128 * 2 ^ s % 2 ^ 64 ≡ v % 128 * 2 ^ s = omega (arith, fits, split_digits) in
      rw whole (bit_or_shifted s a (v % 128) small)

  still_small : a + v % 128 * 2 ^ s < 2 ^ (s + 7)
  still_small =
      let room : 127 ≡ v % 128 + (127 - v % 128) = omega arith in
      omega (arith, power s, ap (λ (t : ℕ). t * 2 ^ s) room, small)

  same_number : a + v % 128 * 2 ^ s + v / 128 * 2 ^ (s + 7) ≡ a + v * 2 ^ s
  same_number = rw (power s) (omega (arith, split_digits))

length-put_digits : (n v : ℕ) → length (put_digits n v) ≤ n
length-put_digits zero v = omega arith
length-put_digits (suc n) v = ground (arith, length-put_digits n (v / 128))

read_last :
    (n k s a v : ℕ) (rest : Bytes)
    → ltb v 128 ≡ true
    → leb 64 s ≡ false
    → a < 2 ^ s
    → a + v * 2 ^ s < 2 ^ 64
    → read_loop k s a (put_digits (suc n) v ++ rest)
      ≡ some (a + v * 2 ^ s, k + length (put_digits (suc n) v))
unfolding read_loop
read_last n k s a v rest h narrow small fits =
    let same : v % 128 ≡ v = ground (arith, h) in
    let digit : bit_or a (v % 128 * 2 ^ s % 2 ^ 64) ≡ a + v * 2 ^ s =
      rw same (last_digit s a v small fits) in
    rw h (rw (narrow, h, digit) refl)

read_more :
    (m k s a v : ℕ) (rest : Bytes)
    → ltb v 128 ≡ false
    → leb 64 s ≡ false
    → k + 1 < 10
    → a < 2 ^ s
    → a + v * 2 ^ s < 2 ^ 64
    → read_loop k s a (put_digits (suc (suc m)) v ++ rest)
      ≡ read_loop (k + 1) (s + 7) (a + v % 128 * 2 ^ s) (put_digits (suc m) (v / 128) ++ rest)
unfolding read_loop
read_more m k s a v rest h narrow few small fits =
    let same : (128 + v % 128) % 128 ≡ v % 128 = omega arith in
    let long : ltb (128 + v % 128) 128 ≡ false = ground arith in
    let more : leb 10 (k + 1) ≡ false = ground (arith, few) in
    rw h (rw (same, narrow, long, more, first_digit s a v small fits) refl)

read_loop-put_digits :
    (n k s w a v : ℕ) (rest : Bytes)
    → k + suc n ≡ 10
    → s ≡ 7 * k
    → w ≡ 7 * n
    → v < 2 ^ (w + 7)
    → a < 2 ^ s
    → a + v * 2 ^ s < 2 ^ 64
    → read_loop k s a (put_digits (suc n) v ++ rest)
      ≡ some (a + v * 2 ^ s, k + length (put_digits (suc n) v))
read_loop-put_digits zero k s w a v rest ten shift width below small fits =
    let one : 2 ^ w ≡ 1 = rw width refl in
    let short : ltb v 128 ≡ true = ground (arith, power w, one, below) in
    read_last zero k s a v rest short (ground (arith, ten, shift)) small fits
read_loop-put_digits (suc m) k s w a v rest ten shift width below small fits =
    let narrow : leb 64 s ≡ false = ground (arith, ten, shift) in
    elim (Bool-cases (ltb v 128)) [
      | inl h ↦ read_last (suc m) k s a v rest h narrow small fits
      | inr h ↦
          let w' : ℕ = 7 * m in
          let wide : 2 ^ (w + 7) ≡ 128 * 2 ^ (w' + 7) =
            power w ∙ ap (λ (t : ℕ). 128 * 2 ^ t) (omega (arith, width)) in
          let ih =
            read_loop-put_digits m (k + 1) (s + 7) w' (a + v % 128 * 2 ^ s) (v / 128) rest
              (omega (arith, ten)) (omega (arith, shift)) refl (omega (arith, below, wide))
              (still_small s a v small fits) (rw (same_number s a v small fits) fits) in
          let count : k + 1 + length (put_digits (suc m) (v / 128))
              ≡ k + suc (length (put_digits (suc m) (v / 128))) =
            omega arith in
          read_more m k s a v rest h narrow (omega (arith, ten)) small fits
          ∙ ih
          ∙ rw (same_number s a v small fits, h) (ap (λ (t : ℕ). some (a + v * 2 ^ s, t)) count)
    ]

some_pair : (x v n : ℕ) → x ≡ v → ◌≡◌ {A = Option (ℕ × ℕ)} (some (x, 0 + n)) (some (v, n))
some_pair x v n h = ground (arith, h)

read_loop_bounds :
    (bytes : Bytes) (k s a v used : ℕ)
    → read_loop k s a bytes ≡ some (v, used)
    → k < 10
    → (suc k ≤ used) × (used ≤ 10) × (used ≤ k + length bytes)
unfolding read_loop
read_loop_bounds [] k s a v used h few = ground arith
read_loop_bounds (b ∷ bytes) k s a v used h few =
    ground
      (arith, read_loop_bounds bytes (k + 1) (s + 7) (bit_or a (b % 128 * 2 ^ s % 2 ^ 64)) v used)

pub drop-append {ℓ} : {A : Type ℓ} (xs ys : List A) → drop (length xs) (xs ++ ys) ≡ ys
drop-append [] ys = refl
drop-append (x ∷ xs) ys = drop-append xs ys

-- Reading at the position where a number of 64 bits is written in base 128, lowest digit first with
-- the high bit set on all but the last, gives that number and the bytes that it takes, whatever
-- stands before and after it.
pub read_varint-put_varint :
    (front : Bytes) (v : ℕ) (rest : Bytes)
    → v < 2 ^ 64
    → read_varint (front ++ (put_varint v ++ rest)) (length front) ≡ some (v, length (put_varint v))
unfolding read_varint
read_varint-put_varint front v rest h = rw (drop-append front (put_varint v ++ rest)) (
    read_loop-put_digits 9 0 0 63 0 v rest refl refl refl (omega (arith, h)) (omega arith)
      (omega (arith, h))
    ∙ some_pair (0 + v * 2 ^ 0) v (length (put_varint v)) (omega arith))

-- Every varint that is read takes at least one byte, at most ten, and none past the end; so a run of
-- bytes with the high bit set is given up after ten.
pub read_varint_bounds :
    (bytes : Bytes) (start v used : ℕ)
    → read_varint bytes start ≡ some (v, used)
    → (1 ≤ used) × (used ≤ 10) × (start + used ≤ length bytes)
unfolding read_varint
read_varint_bounds bytes start v used h =
    let (least, most, inside) = read_loop_bounds (drop start bytes) 0 0 0 v used h (omega arith) in
    (least, most, omega (arith, inside, length-drop start bytes))
