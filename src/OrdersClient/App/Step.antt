-- ===== src/OrdersClient/App/Step.antt =====
-- The component as a machine: an event of the user that the screen offers, or an outcome that
-- arrives, and the state after it.
use agentic_restaurant.Base.{
  Bool, true, false, not, ◌||◌, none, List, [], ◌∷◌, if◌then◌else◌, is_empty,
}
use agentic_restaurant.OrdersClient.Basket.{upsert_basket_line, update_line_quantity}
use agentic_restaurant.OrdersClient.App.{
  State, registered_credentials, guest_name, Call, Event, chose_registered, chose_guest,
  typed_login, typed_password, typed_guest_name, submitted_login, submitted_guest, went_back,
  reloaded_menu, added_item, set_quantity, placed_order, logged_out, chose_tab, changed_text_size,
  login_settled, app_token_settled, guest_settled, first_menu_settled, menu_settled, order_settled,
  is_authenticated,
}
use agentic_restaurant.OrdersClient.App.Handlers.{
  on_login, on_login_settled, on_guest_login, on_app_token_settled, on_guest_settled, on_first_menu,
  reload_menu, on_menu_settled, place_order, on_order_settled, reset_to_landing, logout,
}
use agentic_restaurant.OrdersClient.App.View.{
  Screen, home_screen, auth_screen, mode_choice, registered_form, guest_form, screen,
}

-- What an event does to the state, and the calls that it makes.
unfoldable pub handle : Event → State → State × List Call
handle chose_registered s =
    (record s { entry_step = registered_credentials; auth_error = none }, [])
handle chose_guest s = (record s { entry_step = guest_name; auth_error = none }, [])
handle (typed_login value) s = (record s { login_value = value }, [])
handle (typed_password value) s = (record s { password = value }, [])
handle (typed_guest_name value) s = (record s { guest_display_name = value }, [])
handle submitted_login s = on_login s
handle submitted_guest s = on_guest_login s
handle went_back s = (reset_to_landing s, [])
handle reloaded_menu s = reload_menu s
handle (added_item item) s = (record s { basket = upsert_basket_line s.basket item }, [])
handle (set_quantity id quantity) s =
    (record s { basket = update_line_quantity s.basket id quantity }, [])
handle placed_order s = place_order s
handle logged_out s = (logout s, [])
handle (chose_tab tab) s = (record s { active_tab = tab }, [])
handle (changed_text_size size) s = (record s { text_size = size }, [])
handle (login_settled outcome) s = on_login_settled outcome s
handle (app_token_settled name outcome) s = on_app_token_settled name outcome s
handle (guest_settled outcome) s = on_guest_settled outcome s
handle (first_menu_settled mode outcome) s = (on_first_menu mode outcome s, [])
handle (menu_settled outcome) s = (on_menu_settled outcome s, [])
handle (order_settled outcome) s = (on_order_settled outcome s, [])

-- What a screen offers, by its buttons and fields that are not disabled. The tabs, the text size
-- and, for a signed-in user, the logout are in the navigation drawer, on every screen.
abbrev pub offered : Screen → Event → State → Bool
offered (auth_screen mode_choice) chose_registered s = true
offered (auth_screen mode_choice) chose_guest s = true
offered (auth_screen registered_form) (typed_login _) s = true
offered (auth_screen registered_form) (typed_password _) s = true
offered (auth_screen registered_form) submitted_login s = not s.auth_loading
offered (auth_screen registered_form) went_back s = not s.auth_loading
offered (auth_screen guest_form) (typed_guest_name _) s = true
offered (auth_screen guest_form) submitted_guest s = not s.auth_loading
offered (auth_screen guest_form) went_back s = not s.auth_loading
offered home_screen reloaded_menu s = not s.menu_loading
offered home_screen (added_item _) s = not s.menu_loading
offered home_screen (set_quantity _ _) s = true
offered home_screen placed_order s = not (is_empty s.basket || s.submit_loading)
offered _ logged_out s = is_authenticated s
offered _ (chose_tab _) s = true
offered _ (changed_text_size _) s = true
offered _ (login_settled _) s = true
offered _ (app_token_settled _ _) s = true
offered _ (guest_settled _) s = true
offered _ (first_menu_settled _ _) s = true
offered _ (menu_settled _) s = true
offered _ (order_settled _) s = true
offered _ _ s = false

unfoldable pub step : Event → State → State
unfolding handle screen
step e s = if offered (screen s) e s then (handle e s).0 else s

unfoldable pub run : List Event → State → State
run [] s = s
run (e ∷ es) s = run es (step e s)
