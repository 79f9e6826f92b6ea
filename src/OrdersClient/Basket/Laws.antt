-- ===== src/OrdersClient/Basket/Laws.antt =====
-- Well-formed baskets: one line for an item, and no line without a quantity.
use agentic_restaurant.Base.{
  ℕ, ◌≤◌, ◌≡◌, ◌≢◌, inl, inr, Bool, List, [], ◌∷◌, ◌++◌, map, none, arith, All, All-append, find,
  keep_if, Bool-cases, Option-cases, sym, ltb,
}
use agentic_restaurant.OrdersClient.Basket.{
  MenuItem, BasketLine, is_line_of, bump, put, upsert_basket_line, update_line_quantity,
}

-- No line of the basket is for this item.
abbrev pub Absent : ℕ → List BasketLine → Type 0
Absent id = All (λ line. line.item.id ≢ id)

abbrev pub HasDistinctItems : List BasketLine → Type 0
HasDistinctItems [] = Unit
HasDistinctItems (line ∷ basket) = Absent line.item.id basket × HasDistinctItems basket

pub record IsValid (basket : List BasketLine) : Type 0 where
  pub distinct : HasDistinctItems basket
  pub positive : All (λ line. 1 ≤ line.quantity) basket

pub find-none-Absent :
    (id : ℕ) (basket : List BasketLine) → find (is_line_of id) basket ≡ none → Absent id basket
find-none-Absent id [] h = tt
find-none-Absent id (line ∷ basket) h = elim (Bool-cases (is_line_of id line)) [
  | inl same ↦ absurd (ground arith)
  | inr other ↦ (ground arith, find-none-Absent id basket (ground arith))
]

Absent-bump :
    (id i : ℕ) (basket : List BasketLine) → Absent i basket → Absent i (map (bump id) basket)
Absent-bump id i [] h = tt
Absent-bump id i (line ∷ basket) h = (ground arith, Absent-bump id i basket h.1)

Absent-put :
    (id q i : ℕ) (basket : List BasketLine) → Absent i basket → Absent i (map (put id q) basket)
Absent-put id q i [] h = tt
Absent-put id q i (line ∷ basket) h = (ground arith, Absent-put id q i basket h.1)

bump-IsValid : (id : ℕ) (basket : List BasketLine) → IsValid basket → IsValid (map (bump id) basket)
bump-IsValid id [] v = v
bump-IsValid id (line ∷ basket) v =
    let rest =
      bump-IsValid id basket (record { distinct = v.distinct.1; positive = v.positive.1 }) in
    ground (arith, Absent-bump id line.item.id basket)

put-IsValid :
    (id q : ℕ) (basket : List BasketLine) → 1 ≤ q → IsValid basket → IsValid (map (put id q) basket)
put-IsValid id q [] p v = v
put-IsValid id q (line ∷ basket) p v =
    let rest =
      put-IsValid id q basket p (record { distinct = v.distinct.1; positive = v.positive.1 }) in
    ground (arith, Absent-put id q line.item.id basket)

Absent-keep_if :
    (test : BasketLine → Bool) (i : ℕ) (basket : List BasketLine)
    → Absent i basket
    → Absent i (keep_if test basket)
Absent-keep_if test i [] h = tt
Absent-keep_if test i (line ∷ basket) h = ground (arith, Absent-keep_if test i basket)

keep_if-IsValid :
    (test : BasketLine → Bool) (basket : List BasketLine)
    → IsValid basket
    → IsValid (keep_if test basket)
keep_if-IsValid test [] v = v
keep_if-IsValid test (line ∷ basket) v =
    let rest =
      keep_if-IsValid test basket (record { distinct = v.distinct.1; positive = v.positive.1 }) in
    ground (arith, Absent-keep_if test line.item.id basket)

Distinct-append :
    (basket : List BasketLine) (line : BasketLine)
    → HasDistinctItems basket
    → Absent line.item.id basket
    → HasDistinctItems (basket ++ line ∷ [])
Distinct-append [] line d a = (tt, tt)
Distinct-append (l ∷ basket) line d a = (
  All-append _ basket (line ∷ []) d.0 (λ e. a.0 (sym e), tt),
  Distinct-append basket line d.1 a.1,
)

-- Adding an item keeps a basket well formed: one line for each item, and each quantity at least 1.
pub upsert_basket_line-IsValid :
    (basket : List BasketLine) (item : MenuItem)
    → IsValid basket
    → IsValid (upsert_basket_line basket item)
unfolding upsert_basket_line
upsert_basket_line-IsValid basket item v = elim (Option-cases (find (is_line_of item.id) basket)) [
  | inl new ↦
      rw (new, upsert_basket_line)
        (record {
          distinct = Distinct-append basket _ v.distinct (find-none-Absent item.id basket new);
          positive = All-append _ basket _ v.positive (omega arith, tt);
        })
  | inr (_, old) ↦ rw (old, upsert_basket_line) (bump-IsValid item.id basket v)
]

-- Setting a quantity keeps a basket well formed; a quantity below 1 removes the line.
pub update_line_quantity-IsValid :
    (basket : List BasketLine) (id quantity : ℕ)
    → IsValid basket
    → IsValid (update_line_quantity basket id quantity)
unfolding update_line_quantity
update_line_quantity-IsValid basket id quantity v = elim (Bool-cases (ltb quantity 1)) [
  | inl few ↦ rw few (keep_if-IsValid _ basket v)
  | inr enough ↦ rw enough (put-IsValid id quantity basket (ground arith) v)
]
