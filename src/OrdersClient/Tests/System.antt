-- ===== src/OrdersClient/Tests/System.antt =====
-- A registered user who orders a soup, with services that answer.
use agentic_restaurant.Base.{
  ◌≡◌, refl, String, false, none, some, List, [], ◌∷◌, All, resolved, rejected, error, arith,
}
use agentic_restaurant.UiCommon.TextSize.{size1}
use agentic_restaurant.OrdersClient.Basket.{upsert_basket_line}
use agentic_restaurant.OrdersClient.Config.{ServiceBaseUrls}
use agentic_restaurant.OrdersClient.Api.{UserSummary, login, fetch_menu}
use agentic_restaurant.OrdersClient.App.{
  initial, chose_registered, typed_login, submitted_login, added_item, placed_order,
}
use agentic_restaurant.OrdersClient.App.View.{home_screen, screen, confirmation}
use agentic_restaurant.OrdersClient.App.Handlers.{
  on_login, place_order, on_login_settled, on_first_menu,
}
use agentic_restaurant.OrdersClient.App.Step.{handle}
use agentic_restaurant.OrdersClient.System.{
  System, World, Action, did, answered, act, act_all, opened, at_order, perform,
}
use agentic_restaurant.OrdersClient.System.Loading.{IsTracked, used-IsTracked}
use agentic_restaurant.OrdersClient.System.Draining.{drain, work, drained}
use agentic_restaurant.OrdersClient.System.Tokens.{IsAuthorised, IsTrue, AllTrue, calls_authorised}
use agentic_restaurant.OrdersClient.System.Ordering.{order_confirmed, order_refused}
use agentic_restaurant.OrdersClient.Tests.{
  soup, bread, ann, of_ann, receipt, two_lines, at_home, home_shown, home_ready, home_user,
}

abbrev urls : ServiceBaseUrls
urls = record {
  users_service = "http://users";
  menu_service = "http://menu";
  orders_service = "http://orders";
}

abbrev up : World
up = record {
  users = λ request. resolved (record { status = 200; json = resolved of_ann });
  menu = λ request.
      resolved (record { status = 200; json = resolved (record { items = some (soup ∷ []) }) });
  orders = λ request. resolved (record { status = 201; json = resolved receipt });
  app_token = resolved "app-token";
  request_id = "r-1";
}

abbrev visit : List Action
visit =
    did chose_registered
    ∷ did (typed_login "ann")
    ∷ did submitted_login
    ∷ answered 0 up
    ∷ answered 0 up
    ∷ did (added_item soup)
    ∷ did placed_order
    ∷ did placed_order
    ∷ did (added_item bread)
    ∷ []

abbrev visited : System
visited = act_all urls visit (opened none size1)

visit_awaits :
    visited.awaited ≡ at_order "user-token" 7 (record { item = soup; quantity = 1 } ∷ []) ∷ []
unfolding act_all act perform initial screen on_login_settled on_first_menu login fetch_menu
    upsert_basket_line handle on_login place_order
visit_awaits = refl

used-IsTracked_example : IsTracked visited
used-IsTracked_example = used-IsTracked urls none size1 visit

drained_example :
    let t = drain urls (λ s. 0) (λ s. up) (work visited.awaited) visited in
    (t.awaited ≡ [])
    × (t.app.auth_loading ≡ false)
    × (t.app.menu_loading ≡ false)
    × (t.app.submit_loading ≡ false)
drained_example = drained urls (λ s. 0) (λ s. up) none size1 visit

abbrev Issued : String → UserSummary → Type 0
Issued token user = (token ≡ "user-token") × (user.id ≡ 7)

abbrev OfApp : String → Type 0
OfApp token = token ≡ "app-token"

up-IsTrue : IsTrue Issued OfApp up
up-IsTrue = record {
  users = λ request response r e f. ground arith;
  app_token = λ token e. ground arith;
}

visit_answers : AllTrue Issued OfApp urls visit
visit_answers = (up-IsTrue, (up-IsTrue, tt))

calls_authorised_example : All (IsAuthorised Issued OfApp) visited.awaited
calls_authorised_example =
    calls_authorised Issued OfApp urls none size1 visit (λ session e. absurd (cc e)) visit_answers

abbrev home : System
home = record { app = at_home; awaited = [] }

order_confirmed_example :
    let t = act_all urls (did placed_order ∷ answered 0 up ∷ []) home in
    (t.app.basket ≡ [])
    × (confirmation t.app ≡ some receipt)
    × (t.app.submit_error ≡ none)
    × (t.app.submit_loading ≡ false)
    × (t.awaited ≡ [])
order_confirmed_example =
    order_confirmed urls home ann home_shown home_user refl home_ready.0 up
      (record { status = 201; json = resolved receipt }) refl receipt refl refl

-- The token has expired.
abbrev down : World
down = record up {
  orders =
      λ request. resolved (record { status = 401; json = rejected (error "Unexpected token") });
}

order_refused_example :
    let t = act_all urls (did placed_order ∷ answered 0 down ∷ []) home in
    (t.app.basket ≡ two_lines)
    × (t.app.last_order ≡ at_home.last_order)
    × (t.app.submit_error ≡ some "Order submission failed.")
    × (t.app.submit_loading ≡ false)
    × (t.awaited ≡ [])
    × (screen t.app ≡ home_screen)
order_refused_example =
    order_refused urls home ann home_shown home_user refl home_ready.0 down
      (record { status = 401; json = rejected (error "Unexpected token") }) refl refl
