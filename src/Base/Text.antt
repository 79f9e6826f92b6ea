-- ===== src/Base/Text.antt =====
-- `trim` and `length` of a JavaScript text, on texts without lone surrogates.
pub mod Laws
use Prim.Native.Nat.{ℕ, ◌+◌}
use Prim.Native.Char.{Char, code}
use Prim.Native.String.{String, [], ◌∷◌}
use mathlib.Core.Path.{◌≡◌, refl}
use mathlib.Core.Bool.{Bool, true, false, ◌&&◌, ◌||◌}
use native.Mathlib.Omega.{arith}
use agentic_restaurant.Base.Tests.{leb, ltb, ◌==◌, if◌then◌else◌, Bool-cases}

-- White space and line terminators.
abbrev pub is_space : ℕ → Bool
is_space c =
    leb 9 c && leb c 13
    || c == 32
    || c == 160
    || c == 5760
    || leb 8192 c && leb c 8202
    || c == 8232
    || c == 8233
    || c == 8239
    || c == 8287
    || c == 12288
    || c == 65279

pub trim_start : String → String
trim_start [] = []
trim_start (c ∷ s) = if is_space (code c) then trim_start s else c ∷ s

-- Puts a character before what is left of the text behind it.
abbrev pub cons_end : Char → String → String
cons_end c [] = if is_space (code c) then [] else c ∷ []
cons_end c (d ∷ s) = c ∷ d ∷ s

pub trim_end : String → String
trim_end [] = []
trim_end (c ∷ s) = cons_end c (trim_end s)

unfoldable pub trim : String → String
unfolding trim_start trim_end
trim s = trim_end (trim_start s)

-- The number of UTF-16 units.
unfoldable pub utf16_length : String → ℕ
utf16_length [] = 0
utf16_length (c ∷ s) = (if ltb (code c) 65536 then 1 else 2) + utf16_length s
