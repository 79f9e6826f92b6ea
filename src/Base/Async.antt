-- ===== src/Base/Async.antt =====
-- How an asynchronous call ends: a promise that is resolved with a value, or rejected with what
-- was thrown.
use Prim.Native.String.{String}
use mathlib.Core.Path.{◌≡◌, refl}

-- A thrown value is an `Error` with its message, or anything else.
pub data Thrown : Type 0 where
  error : String → Thrown
  other : Thrown

pub data Outcome {ℓ} (A : Type ℓ) : Type ℓ where
  resolved : A → Outcome A
  rejected : Thrown → Outcome A

-- `await m`, then the rest.
infixl 5 ◌>>=◌
abbrev pub ◌>>=◌ {ℓ κ} : {A : Type ℓ} {B : Type κ} → Outcome A → (A → Outcome B) → Outcome B
resolved a >>= f = f a
rejected e >>= f = rejected e

-- `error instanceof Error ? error.message : fallback`
abbrev pub message_or : String → Thrown → String
message_or fallback (error m) = m
message_or fallback other = fallback

-- A property of the value, if the promise is resolved.
abbrev pub OnResolved {ℓ} : {A : Type ℓ} → (A → Type 0) → Outcome A → Type 0
OnResolved P (resolved a) = P a
OnResolved P (rejected e) = Unit

pub OnResolved-intro {ℓ} :
    {A : Type ℓ} (P : A → Type 0) (o : Outcome A)
    → ((a : A) → o ≡ resolved a → P a)
    → OnResolved P o
OnResolved-intro P (resolved a) f = f a refl
OnResolved-intro P (rejected e) f = tt
