-- ===== src/Base/Text/Laws.antt =====
-- Trimming.
use Prim.Native.Char.{Char, code}
use Prim.Native.String.{String, [], ◌∷◌}
use mathlib.Core.Path.{◌≡◌, refl, ◌∙◌, ap}
use mathlib.Core.Logic.{inl, inr}
use mathlib.Core.Bool.{false}
use agentic_restaurant.Base.Tests.{Bool-cases}
use agentic_restaurant.Base.Text.{is_space, trim_start, trim_end, cons_end, trim}

-- The text does not begin with white space.
abbrev pub StartsPlain : String → Type 0
StartsPlain [] = Unit
StartsPlain (c ∷ s) = is_space (code c) ≡ false

trim_start-StartsPlain : (s : String) → StartsPlain (trim_start s)
unfolding trim_start
trim_start-StartsPlain [] = tt
trim_start-StartsPlain (c ∷ s) = elim (Bool-cases (is_space (code c))) [
  | inl space ↦ rw space (trim_start-StartsPlain s)
  | inr plain ↦ rw plain plain
]

trim_start-of_StartsPlain : (s : String) → StartsPlain s → trim_start s ≡ s
unfolding trim_start
trim_start-of_StartsPlain [] h = refl
trim_start-of_StartsPlain (c ∷ s) h = rw h

cons_end-StartsPlain :
    (c : Char) (s : String) → is_space (code c) ≡ false → StartsPlain (cons_end c s)
cons_end-StartsPlain c [] h = rw h h
cons_end-StartsPlain c (d ∷ s) h = h

trim_end-StartsPlain : (s : String) → StartsPlain s → StartsPlain (trim_end s)
unfolding trim_end
trim_end-StartsPlain [] h = tt
trim_end-StartsPlain (c ∷ s) h = cons_end-StartsPlain c (trim_end s) h

trim_end-cons_end :
    (c : Char) (s : String) → trim_end s ≡ s → trim_end (cons_end c s) ≡ cons_end c s
unfolding trim_end
trim_end-cons_end c [] e = elim (Bool-cases (is_space (code c))) [
  | inl space ↦ rw space
  | inr plain ↦ rw (plain, plain)
]
trim_end-cons_end c (d ∷ s) e = ap (cons_end c) e

trim_end_idempotent : (s : String) → trim_end (trim_end s) ≡ trim_end s
unfolding trim_end
trim_end_idempotent [] = refl
trim_end_idempotent (c ∷ s) = trim_end-cons_end c (trim_end s) (trim_end_idempotent s)

-- A trimmed text has no white space left to trim at either end.
pub trim_idempotent : (s : String) → trim (trim s) ≡ trim s
unfolding trim
trim_idempotent s =
    ap trim_end (
      trim_start-of_StartsPlain (trim_end (trim_start s))
        (trim_end-StartsPlain (trim_start s) (trim_start-StartsPlain s)))
    ∙ trim_end_idempotent (trim_start s)
