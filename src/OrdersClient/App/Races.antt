-- ===== src/OrdersClient/App/Races.antt =====
-- Outcomes that arrive late, and an error that no screen shows.
use agentic_restaurant.Base.{
  ◌≡◌, refl, true, false, none, some, [], ◌∷◌, arith, is_empty, resolved, rejected, Thrown,
  message_or,
}
use agentic_restaurant.Base.Json.{is_text}
use agentic_restaurant.OrdersClient.Basket.{MenuItem, upsert_basket_line}
use agentic_restaurant.OrdersClient.Api.{UserSummary, LoginResponse, OrderSubmitResponse}
use agentic_restaurant.OrdersClient.Session.{registered}
use agentic_restaurant.OrdersClient.App.{
  State, submit_order, placed_order, added_item, logged_out, chose_registered,
  registered_credentials, submitted_login, login_settled, first_menu_settled, order_settled,
  is_authenticated,
}
use agentic_restaurant.OrdersClient.App.Handlers.{
  place_order, on_order_settled, logout, on_login, on_login_settled, on_first_menu,
}
use agentic_restaurant.OrdersClient.App.View.{
  screen, home_screen, auth_screen, registered_form, errors_on, confirmation,
}
use agentic_restaurant.OrdersClient.App.Step.{step, run}
use agentic_restaurant.OrdersClient.App.Settled.{
  settled, step-logged_out, step-order_settled, step-chose_registered, step-submitted_login,
}

-- On the home screen, with a user, a basket that is not empty, and neither an order nor the menu
-- on its way: an item that is added while an order is on its way is put into the basket, is not
-- part of that order, and is gone when the order is accepted.
pub added_item_lost :
    (s : State) (user : UserSummary) (item : MenuItem) (response : OrderSubmitResponse)
    → screen s ≡ home_screen
    → s.user ≡ some user
    → is_empty s.basket ≡ false
    → s.submit_loading ≡ false
    → s.menu_loading ≡ false
    → let t = run (placed_order ∷ added_item item ∷ []) s in
      ((place_order s).1 ≡ submit_order s.token user.id s.basket ∷ [])
      × (t.basket ≡ upsert_basket_line s.basket item)
      × ((step (order_settled (resolved response)) t).basket ≡ [])
unfolding run step place_order on_order_settled screen
added_item_lost s user item response here signed full ready loaded =
    (ground arith, ground arith, ground arith)

-- From a signed-in state: the answer to an order that arrives after a logout is shown to the next
-- user who signs in, with a token that is not empty.
pub confirmation_of_other_user :
    (s : State) (order : OrderSubmitResponse) (next : LoginResponse)
    → is_authenticated s ≡ true
    → is_text next.access_token ≡ true
    → let t =
        run
          (logged_out
            ∷ order_settled (resolved order)
            ∷ chose_registered
            ∷ submitted_login
            ∷ login_settled (resolved next)
            ∷ [])
          s in
      (screen t ≡ home_screen) × (t.user ≡ some next.user) × (confirmation t ≡ some order)
unfolding run screen logout on_order_settled on_login on_login_settled confirmation
confirmation_of_other_user s order next here signed =
    let out = on_order_settled (resolved order) (logout s) in
    let form = record out { entry_step = registered_credentials; auth_error = none } in
    rw
      (
        step-logged_out s here,
        step-order_settled (logout s) (resolved order),
        step-chose_registered out refl,
        step-submitted_login form refl refl,
      )
      (simp settled (ground arith))

-- From the login form, with no sign-in running and no error of the menu or an order: if the menu
-- cannot be loaded after a login that succeeded, the user sees the home screen, with no error on
-- it: the message stands where only the sign-in screen would show it.
pub first_menu_error_hidden :
    (s : State) (response : LoginResponse) (e : Thrown)
    → screen s ≡ auth_screen registered_form
    → s.auth_loading ≡ false
    → s.menu_error ≡ none
    → s.submit_error ≡ none
    → is_text response.access_token ≡ true
    → let t =
        run
          (submitted_login
            ∷ login_settled (resolved response)
            ∷ first_menu_settled registered (rejected e)
            ∷ [])
          s in
      (screen t ≡ home_screen)
      × (errors_on (screen t) t ≡ none ∷ none ∷ [])
      × (t.auth_error ≡ some (message_or "Unexpected login error." e))
      × (t.menu_items ≡ s.menu_items)
unfolding run on_login on_login_settled on_first_menu screen
first_menu_error_hidden s response e here ready m o signed =
    rw (step-submitted_login s here ready) (simp settled (ground arith))
