-- ===== src/OrdersClient/Tests/Basket.antt =====
-- Baskets on a small menu.
use agentic_restaurant.Base.{◌≡◌, refl, List, [], ◌∷◌, arith}
use agentic_restaurant.OrdersClient.Basket.Laws.{IsValid}
use agentic_restaurant.OrdersClient.Basket.Quantities.{add_all}
use agentic_restaurant.OrdersClient.Basket.Refinement.{
  Call, upsert, update, apply_all, meaning_all, amounts_of, amounts_of-apply_all,
}
use agentic_restaurant.OrdersClient.Api.{order_items}
use agentic_restaurant.OrdersClient.Api.Laws.{ordered, ordered-add_all}
use agentic_restaurant.OrdersClient.Tests.{soup, bread, two_lines}

two_lines-IsValid : IsValid two_lines
two_lines-IsValid = ground arith

abbrev calls : List Call
calls = upsert soup ∷ update 2 0 ∷ update 9 4 ∷ upsert bread ∷ []

calls_meaning : meaning_all calls (amounts_of two_lines) 1 ≡ 3
calls_meaning = refl

amounts_of-apply_all_example :
    (amounts_of (apply_all calls two_lines) ≡ meaning_all calls (amounts_of two_lines))
    × IsValid (apply_all calls two_lines)
amounts_of-apply_all_example = amounts_of-apply_all calls two_lines two_lines-IsValid

ordered-add_all_example : ordered 1 (order_items (add_all [] (soup ∷ bread ∷ soup ∷ []))) ≡ 2
ordered-add_all_example = ordered-add_all (soup ∷ bread ∷ soup ∷ []) 1
