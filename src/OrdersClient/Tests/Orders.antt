-- ===== src/OrdersClient/Tests/Orders.antt =====
-- Orders of a signed-in user.
use agentic_restaurant.Base.{◌≡◌, refl, true, none, some, [], ◌∷◌, resolved}
use agentic_restaurant.OrdersClient.Basket.{upsert_basket_line}
use agentic_restaurant.OrdersClient.Api.{LoginResponse}
use agentic_restaurant.OrdersClient.App.{
  submit_order, chose_registered, submitted_login, login_settled, added_item, placed_order,
  order_settled, logged_out, initial, is_authenticated,
}
use agentic_restaurant.OrdersClient.App.Handlers.{place_order}
use agentic_restaurant.OrdersClient.App.View.{screen, home_screen, confirmation}
use agentic_restaurant.OrdersClient.App.Step.{step, run}
use agentic_restaurant.OrdersClient.App.Races.{added_item_lost, confirmation_of_other_user}
use agentic_restaurant.OrdersClient.Tests.{
  of_ann, bread, ann, receipt, two_lines, at_home, home_shown, home_ready, home_user,
}

abbrev bob : LoginResponse
bob = record of_ann {
  access_token = "bob-token";
  user = record ann { id = 8; login = "bob"; display_name = none };
}

home_authenticated : is_authenticated at_home ≡ true
unfolding initial
home_authenticated = refl

added_item_lost_example :
    let t = run (placed_order ∷ added_item bread ∷ []) at_home in
    ((place_order at_home).1 ≡ submit_order at_home.token 7 two_lines ∷ [])
    × (t.basket ≡ upsert_basket_line two_lines bread)
    × ((step (order_settled (resolved receipt)) t).basket ≡ [])
added_item_lost_example =
    added_item_lost at_home ann bread receipt home_shown home_user refl home_ready.0 home_ready.1

confirmation_of_other_user_example :
    let t =
      run
        (logged_out
          ∷ order_settled (resolved receipt)
          ∷ chose_registered
          ∷ submitted_login
          ∷ login_settled (resolved bob)
          ∷ [])
        at_home in
    (screen t ≡ home_screen) × (t.user ≡ some bob.user) × (confirmation t ≡ some receipt)
confirmation_of_other_user_example =
    confirmation_of_other_user at_home receipt bob home_authenticated refl
