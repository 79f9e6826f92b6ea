-- ===== src/OrdersClient/App/Checkout.antt =====
-- Placing an order.
use agentic_restaurant.Base.{
  ℕ, String, ◌≡◌, ◌↔◌, true, false, none, some, List, [], ◌∷◌, arith, is_empty, resolved, rejected,
  Thrown, message_or,
}
use agentic_restaurant.Base.Json.{is_text}
use agentic_restaurant.OrdersClient.Basket.{BasketLine}
use agentic_restaurant.OrdersClient.Api.{UserSummary, OrderSubmitResponse}
use agentic_restaurant.OrdersClient.App.{State, submit_order, placed_order, order_settled}
use agentic_restaurant.OrdersClient.App.Handlers.{place_order, on_order_settled}
use agentic_restaurant.OrdersClient.App.View.{screen, home_screen, confirmation}
use agentic_restaurant.OrdersClient.App.Step.{step, run}
use agentic_restaurant.OrdersClient.App.Settled.{settled}

-- An order goes out exactly if the user is signed in and the basket is not empty; it carries the
-- token, the user's id and the basket as it stands.
pub place_order-submit_order_iff :
    (s : State) (token : String) (id : ℕ) (lines : List BasketLine)
    → ((place_order s).1 ≡ submit_order token id lines ∷ []) ↔ (
        (is_text s.token ≡ true)
        × (s.token ≡ token)
        × ((user : UserSummary) × (s.user ≡ some user) × (user.id ≡ id))
        × (is_empty s.basket ≡ false)
        × (s.basket ≡ lines))
unfolding place_order
place_order-submit_order_iff s token id lines = (λ h. ground arith, λ h. ground arith)

module _ (s : State) (here : screen s ≡ home_screen) (full : is_empty s.basket ≡ false)
    (ready : s.submit_loading ≡ false) where
  step-placed_order : step placed_order s ≡ (place_order s).0
  unfolding step
  step-placed_order = ground arith

  -- On the home screen, with a basket that is not empty and no order on its way, placing an order
  -- that is accepted empties the basket, shows the confirmation, leaves no error of an order, and
  -- is no longer shown as on its way.
  pub order_accepted :
      (response : OrderSubmitResponse)
      → let t = run (placed_order ∷ order_settled (resolved response) ∷ []) s in
        (t.basket ≡ [])
        × (confirmation t ≡ some response)
        × (t.submit_error ≡ none)
        × (t.submit_loading ≡ false)
        × (screen t ≡ home_screen)
  unfolding run place_order on_order_settled screen confirmation
  order_accepted response = rw step-placed_order (simp settled (ground arith))

  -- On the home screen, with a basket that is not empty and no order on its way, an order that is
  -- rejected leaves the basket and the last confirmation as they were, stores the message, and
  -- enables the button again.
  pub order_rejected :
      (e : Thrown)
      → let t = run (placed_order ∷ order_settled (rejected e) ∷ []) s in
        (t.basket ≡ s.basket)
        × (t.last_order ≡ s.last_order)
        × (t.submit_error ≡ some (message_or "Order submission failed." e))
        × (t.submit_loading ≡ false)
        × (screen t ≡ home_screen)
  unfolding run place_order on_order_settled screen
  order_rejected e = rw step-placed_order (simp settled (ground arith))
