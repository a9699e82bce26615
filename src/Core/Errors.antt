-- ===== src/Core/Errors.antt =====
-- backend/core/src/error.rs: the kinds of error that the crates report.

use offset_explorer_oxide.Common.{◌⊎◌, inl, inr, ◌≡◌, ap}

pub data AppError : Type 0 where
  db kafka secrets validation not_found zookeeper schema_registry decode : AppError
  authentication authorization : AppError

-- `?` on a result.
infixl 5 ◌>>=◌
abbrev pub ◌>>=◌ {ℓ κ} :
    {A : Type ℓ} {B : Type κ} → AppError ⊎ A → (A → AppError ⊎ B) → AppError ⊎ B
inl e >>= f = inl e
inr a >>= f = f a

-- A chain goes on with a result that is known.
pub >>=_inr {ℓ κ} :
    {A : Type ℓ} {B : Type κ} (o : AppError ⊎ A) (a : A) (f : A → AppError ⊎ B)
    → o ≡ inr a
    → (o >>= f) ≡ f a
>>=_inr o a f h = ap (λ r. r >>= f) h
