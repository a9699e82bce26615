-- ===== src/Common/Equality.antt =====
-- Boolean equality of keys, as an instance.
use offset_explorer_oxide.Common.Int.{ℤ, eqb_ℤ, eqb_ℤ_iff}
use offset_explorer_oxide.Common.Utf8.{Text, same_text, same_text_agrees}
use Prim.Native.String.{String}
use mathlib.Core.Path.{◌≡◌}
use mathlib.Core.Logic.{◌↔◌}
use mathlib.Core.Bool.{Bool, true, ◌&&◌}
use native.Mathlib.Omega.{arith}
use text.Mathlib.Text.{◌==◌ as str_eq}
use text.Mathlib.TextEquality.{eq_iff}

abbrev both : String × String → String × String → Bool
both (a, b) (c, d) = str_eq a c && str_eq b d

pub both_agrees : (p q : String × String) → (both p q ≡ true) ↔ (p ≡ q)
both_agrees (a, b) (c, d) = ground (arith, eq_iff a c, eq_iff b d)

-- A type whose values serve as keys of a map: two keys are told apart by a test.
pub record Key {ℓ} (K : Type ℓ) : Type ℓ where
  pub same_key : K → K → Bool
  pub agrees : (j k : K) → (same_key j k ≡ true) ↔ (j ≡ k)

instance abbrev pub int_eq : Key ℤ
int_eq = record { same_key = eqb_ℤ; agrees = eqb_ℤ_iff }

instance abbrev pub pair_eq : Key (String × String)
pair_eq = record { same_key = both; agrees = both_agrees }

instance abbrev pub text_eq : Key Text
text_eq = record { same_key = same_text; agrees = same_text_agrees }

instance abbrev pub string_eq : Key String
string_eq = record { same_key = str_eq; agrees = eq_iff }

infix 50 ◌==◌
abbrev pub ◌==◌ {ℓ} : {K : Type ℓ} ⦃key : Key K⦄ → K → K → Bool
◌==◌ ⦃key⦄ j k = key.same_key j k
