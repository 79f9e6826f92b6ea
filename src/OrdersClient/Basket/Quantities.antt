-- ===== src/OrdersClient/Basket/Quantities.antt =====
-- The basket as a map from item ids to quantities.
use agentic_restaurant.Base.{
  ℕ, ◌+◌, ◌≤◌, ◌≡◌, refl, inl, inr, Bool, true, false, not, List, [], ◌∷◌, ◌++◌, map, arith, All,
  find, keep_if, Bool-cases, Option-cases, if◌then◌else◌, ◌==◌, ltb, ◌∙◌, ==_iff, ◌&&◌, is_some,
}
use agentic_restaurant.OrdersClient.Basket.{
  MenuItem, BasketLine, is_line_of, bump, put, upsert_basket_line, update_line_quantity,
}
use agentic_restaurant.OrdersClient.Basket.Laws.{
  IsValid, Absent, HasDistinctItems, find-none-Absent,
}

-- How many units of an item are in the basket: 0 where no line is for it.
abbrev pub quantity_of : ℕ → List BasketLine → ℕ
quantity_of id [] = 0
quantity_of id (line ∷ basket) =
    let rest = quantity_of id basket in if is_line_of id line then line.quantity else rest

abbrev pub has_line : ℕ → List BasketLine → Bool
has_line id basket = is_some (find (is_line_of id) basket)

quantity_of-append :
    (j : ℕ) (basket : List BasketLine) (line : BasketLine)
    → Absent line.item.id basket
    → quantity_of j (basket ++ line ∷ [])
      ≡ (if line.item.id == j then line.quantity else quantity_of j basket)
quantity_of-append j [] line a = refl
quantity_of-append j (l ∷ basket) line a = ground (arith, quantity_of-append j basket line a.1)

pub quantity_of-Absent :
    (j : ℕ) (basket : List BasketLine) → Absent j basket → quantity_of j basket ≡ 0
quantity_of-Absent j [] a = refl
quantity_of-Absent j (l ∷ basket) a = ground (arith, quantity_of-Absent j basket a.1)

quantity_of-bump :
    (id j : ℕ) (basket : List BasketLine)
    → quantity_of j (map (bump id) basket)
      ≡ (if id == j && has_line id basket then quantity_of j basket + 1 else quantity_of j basket)
quantity_of-bump id j [] = ground arith
quantity_of-bump id j (l ∷ basket) = elim (Bool-cases (is_line_of id l)) [
  | inl same ↦ rw same (ground (arith, quantity_of-bump id j basket))
  | inr other ↦ rw other (ground (arith, quantity_of-bump id j basket))
]

quantity_of-put :
    (id q j : ℕ) (basket : List BasketLine)
    → quantity_of j (map (put id q) basket)
      ≡ (if id == j && has_line id basket then q else quantity_of j basket)
quantity_of-put id q j [] = ground arith
quantity_of-put id q j (l ∷ basket) = elim (Bool-cases (is_line_of id l)) [
  | inl same ↦ rw same (ground (arith, quantity_of-put id q j basket))
  | inr other ↦ rw other (ground (arith, quantity_of-put id q j basket))
]

quantity_of-remove :
    (id j : ℕ) (basket : List BasketLine)
    → quantity_of j (keep_if (λ line. not (is_line_of id line)) basket)
      ≡ (if id == j then 0 else quantity_of j basket)
quantity_of-remove id j [] = ground arith
quantity_of-remove id j (l ∷ basket) = elim (Bool-cases (is_line_of id l)) [
  | inl same ↦ rw same (ground (arith, quantity_of-remove id j basket))
  | inr other ↦ rw other (ground (arith, quantity_of-remove id j basket))
]

pub quantity_of-no_line :
    (id : ℕ) (basket : List BasketLine) → has_line id basket ≡ false → quantity_of id basket ≡ 0
quantity_of-no_line id [] h = refl
quantity_of-no_line id (l ∷ basket) h = ground (arith, quantity_of-no_line id basket)

-- Adding an item adds one unit of it and changes no other quantity.
pub quantity_of-upsert_basket_line :
    (basket : List BasketLine) (item : MenuItem) (j : ℕ)
    → quantity_of j (upsert_basket_line basket item)
      ≡ (if item.id == j then quantity_of j basket + 1 else quantity_of j basket)
unfolding upsert_basket_line
quantity_of-upsert_basket_line basket item j =
    elim (Option-cases (find (is_line_of item.id) basket)) [
      | inl new ↦
          let a = find-none-Absent item.id basket new in
          rw (new, upsert_basket_line)
            (ground (
              arith,
              quantity_of-append j basket (record { item = item; quantity = 1 }) a,
              quantity_of-Absent item.id basket a,
            ))
      | inr (l, old) ↦
          rw (old, upsert_basket_line) (ground (arith, quantity_of-bump item.id j basket))
    ]

-- Setting a quantity is a map update on an item that has a line, removes the line below 1, and
-- changes no other quantity.
pub quantity_of-update_line_quantity :
    (basket : List BasketLine) (id quantity j : ℕ)
    → quantity_of j (update_line_quantity basket id quantity)
      ≡ (if id == j && has_line id basket then quantity else quantity_of j basket)
unfolding update_line_quantity
quantity_of-update_line_quantity basket id quantity j = elim (Bool-cases (ltb quantity 1)) [
  | inl few ↦
      rw few
        (ground (arith, quantity_of-remove id j basket, quantity_of-no_line id basket, ==_iff id j))
  | inr enough ↦ rw enough (quantity_of-put id quantity j basket)
]

-- The clicks on "Add", in their order.
abbrev pub add_all : List BasketLine → List MenuItem → List BasketLine
add_all basket [] = basket
add_all basket (item ∷ items) = add_all (upsert_basket_line basket item) items

-- How often an item was added.
abbrev pub count_item : ℕ → List MenuItem → ℕ
count_item id [] = 0
count_item id (item ∷ items) =
    let rest = count_item id items in if item.id == id then rest + 1 else rest

-- Whatever items are added, in any order, the quantity of each grows by the number of times that
-- it was added.
pub quantity_of-add_all :
    (items : List MenuItem) (basket : List BasketLine) (j : ℕ)
    → quantity_of j (add_all basket items) ≡ quantity_of j basket + count_item j items
quantity_of-add_all [] basket j = omega arith
quantity_of-add_all (item ∷ items) basket j = ground (
  arith,
  quantity_of-add_all items (upsert_basket_line basket item) j,
  quantity_of-upsert_basket_line basket item j,
)

put-put : (id p q : ℕ) (l : BasketLine) → put id q (put id p l) ≡ put id q l
put-put id p q l = elim (Bool-cases (is_line_of id l)) [
  | inl same ↦ rw (same, same)
  | inr other ↦ rw (other, other)
]

map-put-put :
    (id p q : ℕ) (basket : List BasketLine)
    → map (put id q) (map (put id p) basket) ≡ map (put id q) basket
map-put-put id p q [] = refl
map-put-put id p q (l ∷ basket) = cc (put-put id p q l, map-put-put id p q basket)

map-put-of_Absent :
    (id q : ℕ) (basket : List BasketLine) → Absent id basket → map (put id q) basket ≡ basket
map-put-of_Absent id q [] a = refl
map-put-of_Absent id q (l ∷ basket) (n, a) =
    let other : is_line_of id l ≡ false = ground arith in
    rw other (cc (map-put-of_Absent id q basket a))

map-put-quantity_of :
    (id q : ℕ) (basket : List BasketLine)
    → HasDistinctItems basket
    → quantity_of id basket ≡ q
    → map (put id q) basket ≡ basket
map-put-quantity_of id q [] d e = refl
map-put-quantity_of id q (l ∷ basket) (a, d) e = elim (Bool-cases (is_line_of id l)) [
  | inl same ↦
      let i : l.item.id ≡ id = (==_iff l.item.id id).0 same in
      let n : l.quantity ≡ q = rw same at e in
      rw (same, ← n) (cc (map-put-of_Absent id q basket (rw i at a)))
  | inr other ↦ rw other (cc (map-put-quantity_of id q basket d (rw other at e)))
]

pub quantity_of-positive :
    (id : ℕ) (basket : List BasketLine)
    → All (λ line. 1 ≤ line.quantity) basket
    → has_line id basket ≡ true
    → ltb (quantity_of id basket) 1 ≡ false
quantity_of-positive id [] p h = cc
quantity_of-positive id (l ∷ basket) p h = ground (arith, quantity_of-positive id basket)

-- In a well-formed basket, the "+" button and then the "-" button of a line give the basket back.
pub update_line_quantity_undo :
    (basket : List BasketLine) (id : ℕ)
    → IsValid basket
    → has_line id basket ≡ true
    → update_line_quantity
        (update_line_quantity basket id (quantity_of id basket + 1))
        id
        (quantity_of id basket)
      ≡ basket
unfolding update_line_quantity
update_line_quantity_undo basket id v h =
    let q = quantity_of id basket in
    let more : ltb (q + 1) 1 ≡ false = ground arith in
    rw (quantity_of-positive id basket v.positive h, more)
      (map-put-put id (q + 1) q basket ∙ map-put-quantity_of id q basket v.distinct refl)
