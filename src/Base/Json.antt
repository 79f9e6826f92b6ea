-- ===== src/Base/Json.antt =====
-- The values that `JSON.parse` returns and `JSON.stringify` prints. Numbers are natural: ids,
-- quantities and versions. The two functions themselves belong to the platform.
use Prim.Native.Nat.{ℕ}
use Prim.Native.String.{String, [], ◌∷◌}
use mathlib.Core.Bool.{Bool, true, false, not}
use mathlib.Core.Option.{Option, none, some}
use text.Mathlib.Text.{◌==◌ as str_eq}
use agentic_restaurant.Base.Tests.{if◌then◌else◌, ◌==◌}
use agentic_restaurant.Base.Async.{Outcome, resolved, rejected, other}

mutual
  pub data Json : Type 0 where
    null : Json
    bool : Bool → Json
    num : ℕ → Json
    str : String → Json
    arr : Items → Json
    obj : Fields → Json

  pub data Items : Type 0 where
    nil : Items
    cons : Json → Items → Items

  pub data Fields : Type 0 where
    end : Fields
    field : String → Json → Fields → Fields

-- `undefined` is the absence of a value.
abbrev pub lookup : String → Fields → Option Json
lookup k end = none
lookup k (field j v fs) = if str_eq j k then some v else lookup k fs

-- `v.k`, which throws a TypeError on `null`.
abbrev pub get : String → Json → Outcome (Option Json)
get k null = rejected other
get k (obj fs) = resolved (lookup k fs)
get k _ = resolved none

-- `v?.k`
abbrev pub get? : String → Option Json → Option Json
get? k (some (obj fs)) = lookup k fs
get? k _ = none

-- `Boolean(s)` of a text.
abbrev pub is_text : String → Bool
is_text [] = false
is_text (c ∷ s) = true

-- `Boolean(v)`
abbrev pub truthy : Option Json → Bool
truthy none = false
truthy (some null) = false
truthy (some (bool b)) = b
truthy (some (num n)) = not (n == 0)
truthy (some (str s)) = is_text s
truthy (some _) = true

-- `v === "s"`
abbrev pub is_str : String → Option Json → Bool
is_str s (some (str t)) = str_eq t s
is_str s _ = false

-- `JSON.stringify` writes no field for a property that is `undefined`.
abbrev pub field? : String → Option Json → Fields → Fields
field? k none fs = fs
field? k (some v) fs = field k v fs
