-- ===== src/Base/Lists.antt =====
-- Lists measured by native numbers, and predicates on lists by recursion.
use Prim.Native.Nat.{ℕ, zero, suc, ◌+◌, ◌<◌}
use mathlib.Core.Path.{◌≡◌, refl, ap, subst}
use mathlib.Core.Logic.{◌⊎◌, inl, inr}
use native.Mathlib.Omega.{arith}
use mathlib.Core.Bool.{Bool, true, false}
use mathlib.Core.Option.{Option, none, some}
use mathlib.Core.List.{List, [], ◌∷◌, ◌++◌, map}
use agentic_restaurant.Base.Tests.{if◌then◌else◌, Option-cases}

module _ {ℓ} {A : Type ℓ} where
  abbrev pub length : List A → ℕ
  length [] = 0
  length (_ ∷ xs) = suc (length xs)

  -- `xs.length === 0`
  abbrev pub is_empty : List A → Bool
  is_empty [] = true
  is_empty (_ ∷ _) = false

  -- `xs.find(test)`
  abbrev pub find : (A → Bool) → List A → Option A
  find test [] = none
  find test (x ∷ xs) = if test x then some x else find test xs

  -- `xs.filter(test)`
  abbrev pub keep_if : (A → Bool) → List A → List A
  keep_if test [] = []
  keep_if test (x ∷ xs) = if test x then x ∷ keep_if test xs else keep_if test xs

pub length-append {ℓ} : {A : Type ℓ} (xs ys : List A) → length (xs ++ ys) ≡ length xs + length ys
length-append [] ys = omega arith
length-append (x ∷ xs) ys = omega (arith, length-append xs ys)

pub length-map {ℓ κ} :
    {A : Type ℓ} {B : Type κ} (f : A → B) (xs : List A) → length (map f xs) ≡ length xs
length-map f [] = refl
length-map f (x ∷ xs) = ap suc (length-map f xs)

-- A property of every element.
abbrev pub All {ℓ κ} : {A : Type ℓ} → (A → Type κ) → List A → Type κ
All P [] = Unit
All P (x ∷ xs) = P x × All P xs

pub All-append {ℓ κ} :
    {A : Type ℓ} (P : A → Type κ) (xs ys : List A) → All P xs → All P ys → All P (xs ++ ys)
All-append P [] ys hx hy = hy
All-append P (x ∷ xs) ys hx hy = (hx.0, All-append P xs ys hx.1 hy)

pub All-if {ℓ κ} :
    {A : Type ℓ} (P : A → Type κ) (b : Bool) (xs : List A)
    → (b ≡ true → All P xs)
    → All P (if b then xs else [])
All-if P true xs h = h refl
All-if P false xs h = tt

pub All-unless {ℓ κ} :
    {A : Type ℓ} (P : A → Type κ) (b : Bool) (xs : List A)
    → (b ≡ false → All P xs)
    → All P (if b then [] else xs)
All-unless P true xs h = tt
All-unless P false xs h = h refl

abbrev pub Any {ℓ} : {A : Type ℓ} → (A → Type 0) → List A → Type 0
Any P [] = ⊥
Any P (x ∷ xs) = P x ⊎ Any P xs

-- How many elements pass the test.
abbrev pub count {ℓ} : {A : Type ℓ} → (A → Bool) → List A → ℕ
count test [] = 0
count test (x ∷ xs) = (if test x then 1 else 0) + count test xs

abbrev put_back {ℓ} : {A : Type ℓ} → A → Option (A × List A) → Option (A × List A)
put_back x none = none
put_back x (some (y, ys)) = some (y, x ∷ ys)

-- The element in a place, and the others.
abbrev pub take_out {ℓ} : {A : Type ℓ} → ℕ → List A → Option (A × List A)
take_out n [] = none
take_out zero (x ∷ xs) = some (x, xs)
take_out (suc n) (x ∷ xs) = put_back x (take_out n xs)

pub count-append {ℓ} :
    {A : Type ℓ} (test : A → Bool) (xs ys : List A)
    → count test (xs ++ ys) ≡ count test xs + count test ys
count-append test [] ys = omega arith
count-append test (x ∷ xs) ys = omega (arith, count-append test xs ys)

pub count-take_out {ℓ} :
    {A : Type ℓ} (test : A → Bool) (n : ℕ) (xs : List A) (x : A) (rest : List A)
    → take_out n xs ≡ some (x, rest)
    → count test (x ∷ rest) ≡ count test xs
count-take_out test n [] x rest e = ground arith
count-take_out test zero (y ∷ ys) x rest e = ground arith
count-take_out test (suc n) (y ∷ ys) x rest e = elim (Option-cases (take_out n ys)) [
  | inl f ↦ ground arith
  | inr ((z, zs), f) ↦ ground (arith, count-take_out test n ys z zs f)
]

pub take_out-of_lt {ℓ} :
    {A : Type ℓ} (n : ℕ) (xs : List A)
    → n < length xs
    → (x : A) × (rest : List A) × (take_out n xs ≡ some (x, rest))
take_out-of_lt n [] h = absurd (omega arith)
take_out-of_lt zero (x ∷ xs) h = (x, xs, refl)
take_out-of_lt (suc n) (x ∷ xs) h =
    let (y, ys, e) = take_out-of_lt n xs (omega arith) in (y, x ∷ ys, ap (put_back x) e)

module _ {ℓ κ} {A : Type ℓ} (P : A → Type κ) where
  abbrev AllOut : Option (A × List A) → Type κ
  AllOut none = Unit
  AllOut (some (x, rest)) = P x × All P rest

  put_back-AllOut : (x : A) (o : Option (A × List A)) → P x → AllOut o → AllOut (put_back x o)
  put_back-AllOut x none h v = tt
  put_back-AllOut x (some (y, ys)) h (v, vs) = (v, (h, vs))

  take_out-AllOut : (n : ℕ) (xs : List A) → All P xs → AllOut (take_out n xs)
  take_out-AllOut n [] h = tt
  take_out-AllOut zero (x ∷ xs) h = h
  take_out-AllOut (suc n) (x ∷ xs) (h, hs) =
      put_back-AllOut x (take_out n xs) h (take_out-AllOut n xs hs)

  pub All-take_out :
      (n : ℕ) (xs : List A) (x : A) (rest : List A)
      → take_out n xs ≡ some (x, rest)
      → All P xs
      → All P (x ∷ rest)
  All-take_out n xs x rest e h = subst AllOut e (take_out-AllOut n xs h)
