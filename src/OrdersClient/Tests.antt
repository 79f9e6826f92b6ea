-- ===== src/OrdersClient/Tests.antt =====
-- Runs of the orders client: a guest and a registered user who order a meal.
mod Page
mod Basket
mod Session
mod SignIn
mod Guest
mod Reload
mod Orders
mod System
use agentic_restaurant.Base.{◌≡◌, refl, false, none, some, List, [], ◌∷◌}
use agentic_restaurant.UiCommon.TextSize.{size1}
use agentic_restaurant.OrdersClient.Basket.{MenuItem, BasketLine}
use agentic_restaurant.OrdersClient.Api.{UserSummary, LoginResponse, OrderSubmitResponse}
use agentic_restaurant.OrdersClient.Session.{guest, SessionAuth}
use agentic_restaurant.OrdersClient.App.{State, initial}
use agentic_restaurant.OrdersClient.App.View.{screen, home_screen}

abbrev soup : MenuItem
soup = record { id = 1; name = "Soup"; description = "of the day"; price = 700 }

abbrev bread : MenuItem
bread = record { id = 2; name = "Bread"; description = ""; price = 250 }

abbrev ann : UserSummary
ann = record { id = 7; login = "guest-7"; display_name = some "Ann"; client_type = none }

abbrev of_ann : LoginResponse
of_ann = record {
  access_token = "user-token";
  token_type = "Bearer";
  expires_in_seconds = 3600;
  user = ann;
}

abbrev receipt : OrderSubmitResponse
receipt = record {
  order_id = 41;
  request_id = "r-1";
  status = "RECEIVED";
  total_amount = 1650;
  user_display_name = some "Ann";
}

abbrev start : State
start = initial none size1

abbrev two_lines : List BasketLine
two_lines = record { item = soup; quantity = 2 } ∷ record { item = bread; quantity = 1 } ∷ []

abbrev session : SessionAuth
session = record { token = "user-token"; mode = guest; user = ann }

abbrev at_home : State
at_home = record (initial (some session) size1) { basket = two_lines }

home_shown : screen at_home ≡ home_screen
unfolding screen initial
home_shown = refl

home_ready : (at_home.submit_loading ≡ false) × (at_home.menu_loading ≡ false)
unfolding initial
home_ready = (refl, refl)

home_user : at_home.user ≡ some ann
unfolding initial
home_user = refl
