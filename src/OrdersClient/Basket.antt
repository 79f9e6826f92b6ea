-- ===== src/OrdersClient/Basket.antt =====
-- The basket: features/basket/model.ts, with the menu item of features/menu/api.ts, and the total
-- that App.tsx shows. A price is a whole number of cents, so sums are exact.
pub mod Laws
pub mod Quantities
pub mod Totals
pub mod Refinement
use agentic_restaurant.Base.{
  ℕ, ◌+◌, ◌*◌, String, Bool, List, [], ◌∷◌, ◌++◌, map, not, Option, none, some, ltb, ◌==◌,
  if◌then◌else◌, find, keep_if,
}

pub record MenuItem : Type 0 where
  pub id : ℕ
  pub name : String
  pub description : String
  pub price : ℕ

pub record BasketLine : Type 0 where
  pub item : MenuItem
  pub quantity : ℕ

-- `line.item.id === itemId`
abbrev pub is_line_of : ℕ → BasketLine → Bool
is_line_of id line = line.item.id == id

abbrev pub bump : ℕ → BasketLine → BasketLine
bump id line = if is_line_of id line then record line { quantity = line.quantity + 1 } else line

unfoldable pub upsert_basket_line : List BasketLine → MenuItem → List BasketLine
upsert_basket_line current item = elim (find (is_line_of item.id) current) [
  | none ↦ current ++ record { item = item; quantity = 1 } ∷ []
  | some _ ↦ map (bump item.id) current
]

abbrev pub put : ℕ → ℕ → BasketLine → BasketLine
put id quantity line = if is_line_of id line then record line { quantity = quantity } else line

unfoldable pub update_line_quantity : List BasketLine → ℕ → ℕ → List BasketLine
update_line_quantity current id quantity =
    if ltb quantity 1
    then keep_if (λ line. not (is_line_of id line)) current
    else map (put id quantity) current

-- `basket.reduce((acc, line) => acc + line.item.price * line.quantity, acc)`
total_from : ℕ → List BasketLine → ℕ
total_from acc [] = acc
total_from acc (line ∷ basket) = total_from (acc + line.item.price * line.quantity) basket

unfoldable pub basket_total : List BasketLine → ℕ
unfolding total_from
basket_total basket = total_from 0 basket
