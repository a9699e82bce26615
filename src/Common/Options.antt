-- ===== src/Common/Options.antt =====
-- Chains of fallible reads: the source's `?` on an `Option`.
use mathlib.Core.Path.{◌≡◌, refl, ap}
use mathlib.Core.Bool.{Bool, true, false}
use offset_explorer_oxide.Common.Tests.{if◌then◌else◌}
use mathlib.Core.Option.{Option, none, some}
use native.Mathlib.Omega.{arith}

infixl 5 ◌>>=◌
abbrev pub ◌>>=◌ {ℓ κ} : {A : Type ℓ} {B : Type κ} → Option A → (A → Option B) → Option B
none >>= f = none
some a >>= f = f a

-- A chain goes on with a read whose result is known.
pub >>=_some {ℓ κ} :
    {A : Type ℓ} {B : Type κ} (o : Option A) (a : A) (f : A → Option B)
    → o ≡ some a
    → (o >>= f) ≡ f a
>>=_some o a f h = ap (λ r. r >>= f) h

-- A chain that succeeds has read something.
pub >>=_read {ℓ κ} :
    {A : Type ℓ} {B : Type κ} (o : Option A) (f : A → Option B) (b : B)
    → (o >>= f) ≡ some b
    → (a : A) × (o ≡ some a) × (f a ≡ some b)
>>=_read none f b h = ground (arith, h)
>>=_read (some a) f b h = (a, refl, h)

-- What a guard lets pass.
pub guard_passed {ℓ} :
    {A : Type ℓ} (refused : Bool) (o : Option A) (a : A)
    → (if refused then none else o) ≡ some a
    → (refused ≡ false) × (o ≡ some a)
guard_passed false o a h = (refl, h)
guard_passed true o a h = ground (arith, h)

abbrev pub map_some {ℓ κ} : {A : Type ℓ} {B : Type κ} → (A → B) → Option A → Option B
map_some f none = none
map_some f (some a) = some (f a)
