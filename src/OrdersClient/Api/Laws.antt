-- ===== src/OrdersClient/Api/Laws.antt =====
-- The order that is sent is the basket, and the basket is what was clicked.
use agentic_restaurant.Base.{
  ℕ, ◌+◌, ◌≡◌, refl, inl, inr, Bool-cases, ==_iff, Bool, false, Option, some, List, [], ◌∷◌, arith,
  if◌then◌else◌, ◌==◌,
}
use agentic_restaurant.Base.Json.{Json, Items, nil, cons, num, get?}
use agentic_restaurant.OrdersClient.Basket.{MenuItem, BasketLine, is_line_of}
use agentic_restaurant.OrdersClient.Basket.Laws.{
  HasDistinctItems, IsValid, upsert_basket_line-IsValid,
}
use agentic_restaurant.OrdersClient.Basket.Quantities.{
  quantity_of, quantity_of-Absent, add_all, count_item, quantity_of-add_all,
}
use agentic_restaurant.OrdersClient.Api.{order_items}

abbrev is_num : ℕ → Option Json → Bool
is_num n (some (num m)) = m == n
is_num n _ = false

abbrev num_of : Option Json → ℕ
num_of (some (num n)) = n
num_of _ = 0

-- What a reader of the order's `items` adds up for one item.
abbrev pub ordered : ℕ → Items → ℕ
ordered id nil = 0
ordered id (cons v vs) =
    (if is_num id (get? "itemId" (some v)) then num_of (get? "quantity" (some v)) else 0)
    + ordered id vs

ordered-order_items :
    (id : ℕ) (basket : List BasketLine)
    → HasDistinctItems basket
    → ordered id (order_items basket) ≡ quantity_of id basket
ordered-order_items id [] d = refl
ordered-order_items id (line ∷ basket) (a, d) = elim (Bool-cases (is_line_of id line)) [
  | inl same ↦
      let e : line.item.id ≡ id = (==_iff line.item.id id).0 same in
      rw same
        (omega (arith, ordered-order_items id basket d, quantity_of-Absent id basket (rw e at a)))
  | inr other ↦ rw other (omega (arith, ordered-order_items id basket d))
]

add_all-IsValid :
    (items : List MenuItem) (basket : List BasketLine)
    → IsValid basket
    → IsValid (add_all basket items)
add_all-IsValid [] basket v = v
add_all-IsValid (item ∷ items) basket v =
    add_all-IsValid items _ (upsert_basket_line-IsValid basket item v)

-- The items of an order sent after any clicks on "Add", from an empty basket, add up for every
-- item to the number of clicks on it.
pub ordered-add_all :
    (items : List MenuItem) (id : ℕ)
    → ordered id (order_items (add_all [] items)) ≡ count_item id items
ordered-add_all items id = omega (
  arith,
  ordered-order_items id (add_all [] items)
      (add_all-IsValid items [] (record { distinct = tt; positive = tt })).distinct,
  quantity_of-add_all items [] id,
)
