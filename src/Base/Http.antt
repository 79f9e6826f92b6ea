-- ===== src/Base/Http.antt =====
-- `fetch`: a request goes out, and the promise is rejected, or resolved with a response whose body
-- is read as JSON. The body's type is the one that the caller casts it to.
use Prim.Native.Nat.{ℕ}
use Prim.Native.String.{String}
use mathlib.Core.Bool.{Bool, ◌&&◌}
use mathlib.Core.Option.{Option}
use mathlib.Core.List.{List}
use agentic_restaurant.Base.Tests.{leb, if◌then◌else◌, Bool-cases}
use mathlib.Core.Path.{◌≡◌, refl}
use mathlib.Core.Logic.{inl, inr}
use agentic_restaurant.Base.Async.{
  Outcome, resolved, rejected, error, ◌>>=◌, OnResolved, OnResolved-intro,
}
use agentic_restaurant.Base.Json.{Json}

-- A piece of a template literal.
pub data Part : Type 0 where
  text : String → Part
  number : ℕ → Part

pub record Request : Type 0 where
  pub method : String
  pub url : List Part
  pub headers : List (String × List Part)
  pub body : Option Json

pub record Response (A : Type 0) : Type 0 where
  pub status : ℕ
  pub json : Outcome A

abbrev pub Fetch : Type 0 → Type 0
Fetch A = Request → Outcome (Response A)

-- `response.ok`
abbrev pub is_ok : ℕ → Bool
is_ok status = leb 200 status && leb status 299

-- `if (!response.ok) throw new Error(message); return await response.json();`
abbrev pub json_or_throw : {A : Type 0} → String → Response A → Outcome A
json_or_throw message response =
    if is_ok response.status then response.json else rejected (error message)

-- What holds of every body that `fetch` may bring holds of the value that is read.
pub OnResolved-json_or_throw :
    {A : Type 0} (P : A → Type 0) (o : Outcome (Response A)) (message : String)
    → ((response : Response A) (a : A) → o ≡ resolved response → response.json ≡ resolved a → P a)
    → OnResolved P (o >>= json_or_throw message)
OnResolved-json_or_throw P (rejected e) message f = tt
OnResolved-json_or_throw P (resolved response) message f =
    elim (Bool-cases (is_ok response.status)) [
      | inl ok ↦ rw ok (OnResolved-intro P response.json (λ a e. f response a refl e))
      | inr bad ↦ rw bad tt
    ]
