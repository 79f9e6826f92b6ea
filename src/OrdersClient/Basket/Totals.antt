-- ===== src/OrdersClient/Basket/Totals.antt =====
-- What the basket costs.
use agentic_restaurant.Base.{
  ℕ, ◌+◌, ◌*◌, ◌≡◌, refl, inl, inr, true, false, List, [], ◌∷◌, ◌++◌, map, arith, All, find,
  Bool-cases, Option-cases, ==_iff, ap,
}
use agentic_restaurant.OrdersClient.Basket.{
  MenuItem, BasketLine, is_line_of, bump, upsert_basket_line, total_from, basket_total,
}
use agentic_restaurant.OrdersClient.Basket.Laws.{IsValid, Absent, HasDistinctItems}
use agentic_restaurant.OrdersClient.Basket.Quantities.{has_line}

-- The sum over the lines, without the accumulator.
abbrev pub cost : List BasketLine → ℕ
cost [] = 0
cost (line ∷ basket) = line.item.price * line.quantity + cost basket

total_from-eq-cost :
    (acc : ℕ) (basket : List BasketLine) → total_from acc basket ≡ acc + cost basket
unfolding total_from
total_from-eq-cost acc [] = omega arith
total_from-eq-cost acc (line ∷ basket) =
    omega (arith, total_from-eq-cost (acc + line.item.price * line.quantity) basket)

pub basket_total-eq-cost : (basket : List BasketLine) → basket_total basket ≡ cost basket
unfolding basket_total
basket_total-eq-cost basket = omega (arith, total_from-eq-cost 0 basket)

-- Every line has the price that the menu gives for its item.
abbrev pub IsPriced : (ℕ → ℕ) → List BasketLine → Type 0
IsPriced price = All (λ line. line.item.price ≡ price line.item.id)

cost-append :
    (basket : List BasketLine) (line : BasketLine)
    → cost (basket ++ line ∷ []) ≡ cost basket + line.item.price * line.quantity
cost-append [] line = omega arith
cost-append (l ∷ basket) line = omega (arith, cost-append basket line)

cost-bump-of_Absent :
    (id : ℕ) (basket : List BasketLine)
    → Absent id basket
    → cost (map (bump id) basket) ≡ cost basket
cost-bump-of_Absent id [] a = refl
cost-bump-of_Absent id (l ∷ basket) (n, a) =
    let other : is_line_of id l ≡ false = ground arith in
    rw other (omega (arith, cost-bump-of_Absent id basket a))

cost-bump :
    (price : ℕ → ℕ) (id : ℕ) (basket : List BasketLine)
    → IsPriced price basket
    → HasDistinctItems basket
    → has_line id basket ≡ true
    → cost (map (bump id) basket) ≡ cost basket + price id
cost-bump price id [] p d h = cc
cost-bump price id (l ∷ basket) (p, ps) (a, d) h = elim (Bool-cases (is_line_of id l)) [
  | inl same ↦
      let e : l.item.id ≡ id = (==_iff l.item.id id).0 same in
      rw same (grind (arith, e, ap price e, cost-bump-of_Absent id basket (rw e at a)))
  | inr other ↦ rw other (omega (arith, cost-bump price id basket ps d (ground arith)))
]

-- In a well-formed basket that is priced by the menu, adding an item raises the total by the
-- item's price, whether or not it has a line already.
pub basket_total-upsert_basket_line :
    (price : ℕ → ℕ) (basket : List BasketLine) (item : MenuItem)
    → IsValid basket
    → IsPriced price basket
    → item.price ≡ price item.id
    → basket_total (upsert_basket_line basket item) ≡ basket_total basket + item.price
unfolding upsert_basket_line
basket_total-upsert_basket_line price basket item v p q =
    elim (Option-cases (find (is_line_of item.id) basket)) [
      | inl new ↦
          rw (new, upsert_basket_line, basket_total-eq-cost, basket_total-eq-cost)
            (omega (arith, cost-append basket (record { item = item; quantity = 1 })))
      | inr (l, old) ↦
          rw (old, upsert_basket_line, basket_total-eq-cost, basket_total-eq-cost)
            (omega (arith, cost-bump price item.id basket p v.distinct (rw old)))
    ]
