-- ===== src/OrdersClient/App/Settled.antt =====
-- An outcome arrives on every screen.
use agentic_restaurant.Base.{String, ◌≡◌, true, none, arith, Outcome, List, false}
use agentic_restaurant.OrdersClient.Basket.{MenuItem}
use agentic_restaurant.OrdersClient.Api.{LoginResponse, OrderSubmitResponse}
use agentic_restaurant.OrdersClient.Session.{UiMode}
use agentic_restaurant.OrdersClient.App.{
  State, login_settled, app_token_settled, guest_settled, first_menu_settled, menu_settled,
  order_settled, logged_out, chose_registered, registered_credentials, is_authenticated,
  submitted_login,
}
use agentic_restaurant.OrdersClient.App.Handlers.{
  logout, on_login, on_login_settled, on_app_token_settled, on_guest_settled, on_first_menu,
  on_menu_settled, on_order_settled,
}
use agentic_restaurant.OrdersClient.App.View.{screen, auth_screen, registered_form, mode_choice}
use agentic_restaurant.OrdersClient.App.Step.{step}

module _ (s : State) where
  pub step-login_settled :
      (o : Outcome LoginResponse) → step (login_settled o) s ≡ (on_login_settled o s).0
  unfolding step
  step-login_settled o = ground arith

  pub step-app_token_settled :
      (name : String) (o : Outcome String)
      → step (app_token_settled name o) s ≡ (on_app_token_settled name o s).0
  unfolding step
  step-app_token_settled name o = ground arith

  pub step-guest_settled :
      (o : Outcome LoginResponse) → step (guest_settled o) s ≡ (on_guest_settled o s).0
  unfolding step
  step-guest_settled o = ground arith

  pub step-first_menu_settled :
      (mode : UiMode) (o : Outcome (List MenuItem))
      → step (first_menu_settled mode o) s ≡ on_first_menu mode o s
  unfolding step
  step-first_menu_settled mode o = ground arith

  pub step-menu_settled :
      (o : Outcome (List MenuItem)) → step (menu_settled o) s ≡ on_menu_settled o s
  unfolding step
  step-menu_settled o = ground arith

  pub step-order_settled :
      (o : Outcome OrderSubmitResponse) → step (order_settled o) s ≡ on_order_settled o s
  unfolding step
  step-order_settled o = ground arith

  pub step-logged_out : is_authenticated s ≡ true → step logged_out s ≡ logout s
  unfolding step
  step-logged_out here = ground arith

  pub step-chose_registered :
      screen s ≡ auth_screen mode_choice
      → step chose_registered s
        ≡ record s { entry_step = registered_credentials; auth_error = none }
  unfolding step
  step-chose_registered here = ground arith

  pub step-submitted_login :
      screen s ≡ auth_screen registered_form
      → s.auth_loading ≡ false
      → step submitted_login s ≡ (on_login s).0
  unfolding step
  step-submitted_login here ready = ground arith

pub ruleset settled = (
  step-login_settled, step-app_token_settled, step-guest_settled, step-first_menu_settled,
  step-menu_settled, step-order_settled,
)
