-- ===== src/OrdersClient/Tests/SignIn.antt =====
-- A guest and a registered user who sign in.
use agentic_restaurant.Base.{◌≡◌, refl, false, none, some, List, [], ◌∷◌, resolved, rejected, error}
use agentic_restaurant.Base.Text.{trim, utf16_length}
use agentic_restaurant.UiCommon.TextSize.{size1}
use agentic_restaurant.OrdersClient.Basket.{upsert_basket_line, basket_total}
use agentic_restaurant.OrdersClient.Session.{registered, guest}
use agentic_restaurant.OrdersClient.App.{
  State, Event, registered_credentials, chose_guest, typed_guest_name, submitted_guest,
  submitted_login, app_token_settled, guest_settled, login_settled, first_menu_settled, added_item,
  initial,
}
use agentic_restaurant.OrdersClient.App.Handlers.{
  on_guest_login, on_app_token_settled, on_guest_settled, on_first_menu,
}
use agentic_restaurant.OrdersClient.App.View.{
  screen, home_screen, auth_screen, registered_form, errors_on,
}
use agentic_restaurant.OrdersClient.App.Step.{step, run}
use agentic_restaurant.OrdersClient.App.Invariant.{Inv, initial-Inv, run-Inv}
use agentic_restaurant.OrdersClient.App.Races.{first_menu_error_hidden}
use agentic_restaurant.OrdersClient.Tests.{soup, bread, of_ann, start}

abbrev meal : List Event
meal =
    chose_guest
    ∷ typed_guest_name " Ann "
    ∷ submitted_guest
    ∷ app_token_settled "Ann" (resolved "app-token")
    ∷ guest_settled (resolved of_ann)
    ∷ first_menu_settled guest (resolved (soup ∷ bread ∷ []))
    ∷ added_item soup
    ∷ added_item bread
    ∷ added_item soup
    ∷ []

meal_basket : basket_total (run meal start).basket ≡ 1650
unfolding run step initial basket_total on_guest_login trim utf16_length on_app_token_settled
    on_guest_settled on_first_menu upsert_basket_line
meal_basket = refl

run-Inv_example : Inv (run meal start)
run-Inv_example = run-Inv meal start (initial-Inv none size1)

abbrev at_login_form : State
at_login_form = record start {
  entry_step = registered_credentials;
  login_value = "ann";
  password = "secret";
}

login_form_shown : screen at_login_form ≡ auth_screen registered_form
unfolding screen initial
login_form_shown = refl

login_form_ready :
    (at_login_form.auth_loading ≡ false)
    × (at_login_form.menu_error ≡ none)
    × (at_login_form.submit_error ≡ none)
unfolding initial
login_form_ready = (refl, refl, refl)

first_menu_error_hidden_example :
    let t =
      run
        (submitted_login
          ∷ login_settled (resolved of_ann)
          ∷ first_menu_settled registered (rejected (error "Menu is down."))
          ∷ [])
        at_login_form in
    (screen t ≡ home_screen)
    × (errors_on (screen t) t ≡ none ∷ none ∷ [])
    × (t.auth_error ≡ some "Menu is down.")
    × (t.menu_items ≡ at_login_form.menu_items)
first_menu_error_hidden_example =
    first_menu_error_hidden at_login_form of_ann (error "Menu is down.") login_form_shown
      login_form_ready.0 login_form_ready.1 login_form_ready.2 refl
