-- ===== src/OrdersClient/Basket/Refinement.antt =====
-- The basket against an abstract store of quantities: a map from item ids to natural numbers, in
-- which an item that is not in the basket has none. The order of the lines is forgotten.
use agentic_restaurant.Base.{
  ℕ, ◌+◌, ◌≡◌, refl, ap, ◌∙◌, inl, inr, ◌&&◌, List, [], ◌∷◌, arith, ltb, ◌==◌, if◌then◌else◌,
  Bool-cases,
}
use agentic_restaurant.OrdersClient.Basket.{
  MenuItem, BasketLine, upsert_basket_line, update_line_quantity,
}
use agentic_restaurant.OrdersClient.Basket.Laws.{
  IsValid, upsert_basket_line-IsValid, update_line_quantity-IsValid,
}
use agentic_restaurant.OrdersClient.Basket.Quantities.{
  quantity_of, has_line, quantity_of-no_line, quantity_of-positive, quantity_of-upsert_basket_line,
  quantity_of-update_line_quantity,
}

-- A call that App.tsx makes on the basket: a click on "Add", or on "-" or "+".
pub data Call : Type 0 where
  upsert : MenuItem → Call
  update : ℕ → ℕ → Call

abbrev pub apply : Call → List BasketLine → List BasketLine
apply (upsert item) basket = upsert_basket_line basket item
apply (update id quantity) basket = update_line_quantity basket id quantity

abbrev pub apply_all : List Call → List BasketLine → List BasketLine
apply_all [] basket = basket
apply_all (c ∷ cs) basket = apply_all cs (apply c basket)

-- What a call means for the quantities: one unit more, or another quantity, if there is any.
abbrev pub meaning : Call → (ℕ → ℕ) → ℕ → ℕ
meaning (upsert item) amounts j = if item.id == j then amounts j + 1 else amounts j
meaning (update id quantity) amounts j =
    if id == j && ltb 0 (amounts id) then quantity else amounts j

abbrev pub meaning_all : List Call → (ℕ → ℕ) → ℕ → ℕ
meaning_all [] amounts = amounts
meaning_all (c ∷ cs) amounts = meaning_all cs (meaning c amounts)

-- The abstraction.
abbrev pub amounts_of : List BasketLine → ℕ → ℕ
amounts_of basket j = quantity_of j basket

has_line-amounts_of :
    (basket : List BasketLine) (id : ℕ)
    → IsValid basket
    → has_line id basket ≡ ltb 0 (amounts_of basket id)
has_line-amounts_of basket id v = elim (Bool-cases (has_line id basket)) [
  | inl h ↦ ground (arith, quantity_of-positive id basket v.positive h)
  | inr h ↦ ground (arith, quantity_of-no_line id basket h)
]

apply-IsValid : (c : Call) (basket : List BasketLine) → IsValid basket → IsValid (apply c basket)
apply-IsValid (upsert item) basket v = upsert_basket_line-IsValid basket item v
apply-IsValid (update id quantity) basket v = update_line_quantity-IsValid basket id quantity v

apply-meaning :
    (c : Call) (basket : List BasketLine)
    → IsValid basket
    → (j : ℕ) → amounts_of (apply c basket) j ≡ meaning c (amounts_of basket) j
apply-meaning (upsert item) basket v j = quantity_of-upsert_basket_line basket item j
apply-meaning (update id quantity) basket v j =
    rw (← has_line-amounts_of basket id v) (quantity_of-update_line_quantity basket id quantity j)

-- Any calls of upsertBasketLine and updateLineQuantity on a well-formed basket are those calls on
-- its quantities, a map from item ids in which adding raises one entry by one and setting replaces
-- an entry that is not zero; and they leave the basket well formed.
pub amounts_of-apply_all :
    (cs : List Call) (basket : List BasketLine)
    → IsValid basket
    → (amounts_of (apply_all cs basket) ≡ meaning_all cs (amounts_of basket))
      × IsValid (apply_all cs basket)
amounts_of-apply_all [] basket v = (refl, v)
amounts_of-apply_all (c ∷ cs) basket v =
    let (e, w) = amounts_of-apply_all cs (apply c basket) (apply-IsValid c basket v) in
    (e ∙ ap (meaning_all cs) (λ i j. apply-meaning c basket v j i), w)
