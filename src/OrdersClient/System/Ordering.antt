-- ===== src/OrdersClient/System/Ordering.antt =====
-- Placing an order, with the request that it sends.
use agentic_restaurant.Base.{◌≡◌, refl, true, false, some, none, [], ◌∷◌, is_empty, resolved, arith}
use agentic_restaurant.Base.Json.{is_text}
use agentic_restaurant.Base.Http.{Request, Response, is_ok}
use agentic_restaurant.OrdersClient.Config.{ServiceBaseUrls}
use agentic_restaurant.OrdersClient.Api.{
  UserSummary, OrderSubmitResponse, order_request, submit_order,
}
use agentic_restaurant.OrdersClient.App.{Call, placed_order}
use agentic_restaurant.OrdersClient.App.Handlers.{place_order, on_order_settled}
use agentic_restaurant.OrdersClient.App.View.{screen, home_screen, confirmation}
use agentic_restaurant.OrdersClient.App.Step.{handle, offered}
use agentic_restaurant.OrdersClient.System.{
  System, at_order, World, did, answered, perform, act, act_all,
}

module _ (urls : ServiceBaseUrls) (s : System) (user : UserSummary)
    (here : screen s.app ≡ home_screen) (signed_in : s.app.user ≡ some user)
    (full : is_empty s.app.basket ≡ false) (ready : s.app.submit_loading ≡ false) (w : World) where
  token_present : is_text s.app.token ≡ true
  unfolding screen
  token_present = ground arith

  place_order-of_ready : place_order s.app ≡ (
    record s.app { submit_loading = true; submit_error = none },
    Call.submit_order s.app.token user.id s.app.basket ∷ [],
  )
  unfolding place_order
  place_order-of_ready = ground (arith, token_present)

  placed_offered : offered (screen s.app) placed_order s.app ≡ true
  placed_offered = rw (here, full, ready)

  placed : act urls (did placed_order) s ≡ record {
    app = record s.app { submit_loading = true; submit_error = none };
    awaited = at_order s.app.token user.id s.app.basket ∷ s.awaited;
  }
  unfolding act perform handle
  placed = rw (placed_offered, place_order-of_ready)

  order_answered : act_all urls (did placed_order ∷ answered 0 w ∷ []) s ≡ record {
    app =
        on_order_settled
          (submit_order urls w.orders w.request_id s.app.token user.id s.app.basket)
          (record s.app { submit_loading = true; submit_error = none });
    awaited = s.awaited;
  }
  unfolding act_all act perform handle
  order_answered = rw placed

  abbrev request : Request
  request = order_request urls w.request_id s.app.token user.id s.app.basket

  module _ (response : Response OrderSubmitResponse)
      (got : w.orders request ≡ resolved response) where
    -- On the home screen, for a signed-in user with a basket that is not empty and no order on its
    -- way: if the orders service answers the request that carries the token, the id of the user
    -- and the basket with a status of success and a body, placing the order empties the basket,
    -- shows the body as the confirmation, leaves no error of an order, no longer shows an order as
    -- on its way, and leaves the other calls as they are.
    pub order_confirmed :
        (r : OrderSubmitResponse)
        → is_ok response.status ≡ true
        → response.json ≡ resolved r
        → let t = act_all urls (did placed_order ∷ answered 0 w ∷ []) s in
          (t.app.basket ≡ [])
          × (confirmation t.app ≡ some r)
          × (t.app.submit_error ≡ none)
          × (t.app.submit_loading ≡ false)
          × (t.awaited ≡ s.awaited)
    unfolding submit_order on_order_settled confirmation
    order_confirmed r ok e = rw (order_answered, got, ok, e) (refl, rw signed_in, refl, refl, refl)

    -- On the home screen, for a signed-in user with a basket that is not empty and no order on its
    -- way: if the orders service answers the request with a status that is not one of success, a
    -- 401 for a token that has expired too, the user stays on the home screen, the basket and the
    -- last confirmation stay as they were, the failure is shown, the button is enabled again, and
    -- the other calls are left as they are.
    pub order_refused :
        is_ok response.status ≡ false
        → let t = act_all urls (did placed_order ∷ answered 0 w ∷ []) s in
          (t.app.basket ≡ s.app.basket)
          × (t.app.last_order ≡ s.app.last_order)
          × (t.app.submit_error ≡ some "Order submission failed.")
          × (t.app.submit_loading ≡ false)
          × (t.awaited ≡ s.awaited)
          × (screen t.app ≡ home_screen)
    unfolding submit_order on_order_settled screen
    order_refused bad = rw (order_answered, got, bad) (refl, refl, refl, refl, refl, here)
