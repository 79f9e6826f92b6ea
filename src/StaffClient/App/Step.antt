-- ===== src/StaffClient/App/Step.antt =====
-- The component as a machine: an event of the user that the screen offers, a tick of the interval,
-- or an outcome that arrives; and the state after it and after the effects that it sets off.
use agentic_restaurant.Base.{
  String, Bool, true, false, not, ◌&&◌, Option, none, some, List, [], ◌∷◌, ◌++◌, if◌then◌else◌,
  is_some, str_eq,
}
use agentic_restaurant.StaffClient.Session.{UiSession}
use agentic_restaurant.StaffClient.App.{
  State, AppView, landing, interactive_credentials, display_loading, dashboard, settings, Effect,
  Event, chose_interactive, chose_display, typed_login, typed_password, submitted_login, went_back,
  chose_dashboard, chose_settings, logged_out, refreshed, toggled_lane, selected_order,
  clicked_command, changed_text_size, polled, display_token_settled, login_settled, orders_settled,
  display_orders_settled, detail_settled, command_settled, is_board_view, Polling,
}
use agentic_restaurant.StaffClient.App.Handlers.{
  on_display_token, on_login, on_login_settled, go_back_to_landing, reset_all_state, toggle_lane,
  load_board, on_orders, on_display_orders, load_detail, on_detail, on_item_command,
  on_command_settled,
}
use agentic_restaurant.StaffClient.App.Effects.{run_effects}
use agentic_restaurant.StaffClient.App.View.{
  Screen, mode_selection, credentials_form, connecting, interactive_lanes, display_lanes, screen,
  has_error, detail_panel, DetailPanel, shown,
}

abbrev is_landing : AppView → Bool
is_landing landing = true
is_landing _ = false

abbrev refresh : Option UiSession → State → State × List Effect
unfolding load_board
refresh none s = (s, [])
refresh (some session) s = load_board session.access_token session.mode s

abbrev poll : Option Polling → State → State × List Effect
unfolding load_board
poll none s = (s, [])
poll (some p) s = load_board p.token p.mode s

-- What an event does before the effects.
unfoldable pub handle : Event → State → State × List Effect
unfolding load_board go_back_to_landing
handle chose_interactive s = (record s { view = interactive_credentials }, [])
handle chose_display s = (record s { display_error = none; view = display_loading }, [])
handle (typed_login value) s = (record s { login_value = value }, [])
handle (typed_password value) s = (record s { password = value }, [])
handle submitted_login s = on_login s
handle went_back s = go_back_to_landing s
handle chose_dashboard s =
    let t = record s { active_tab = dashboard } in
    if not (is_board_view s.view) && not (is_landing s.view) then go_back_to_landing t else (t, [])
handle chose_settings s = (record s { active_tab = settings }, [])
handle logged_out s = reset_all_state s
handle refreshed s = refresh s.session s
handle (toggled_lane status) s = (toggle_lane status s, [])
handle (selected_order id) s = load_detail s.session id s
handle (clicked_command item_id command) s = on_item_command item_id command s
handle (changed_text_size size) s = (record s { text_size = size }, [])
handle polled s = poll s.polling s
handle (display_token_settled outcome) s = (on_display_token outcome s, [])
handle (login_settled outcome) s = (on_login_settled outcome s, [])
handle (orders_settled caller outcome) s = (on_orders caller outcome s, [])
handle (display_orders_settled caller outcome) s = (on_display_orders caller outcome s, [])
handle (detail_settled caller outcome) s = on_detail caller outcome s
handle (command_settled captured outcome) s = on_command_settled captured outcome s

abbrev pub is_shown : DetailPanel → Bool
is_shown (shown detail) = true
is_shown _ = false

abbrev pub is_item : String → Option String → Bool
is_item item_id none = false
is_item item_id (some other) = str_eq other item_id

-- What a screen offers, by its buttons and fields that are not disabled. The tabs, the text size
-- and, on a board, the logout are in the navigation drawer, on every screen.
abbrev pub offered : Screen → Event → State → Bool
unfolding detail_panel
offered mode_selection chose_interactive s = true
offered mode_selection chose_display s = true
offered credentials_form (typed_login _) s = true
offered credentials_form (typed_password _) s = true
offered credentials_form submitted_login s = not s.auth_loading
offered credentials_form went_back s = true
offered connecting went_back s = has_error s.display_error
offered interactive_lanes refreshed s = not s.board_loading
offered interactive_lanes (toggled_lane _) s = true
offered interactive_lanes (selected_order _) s = true
offered interactive_lanes (clicked_command item_id _) s =
    is_shown (detail_panel s) && not (is_item item_id s.command_loading)
offered display_lanes refreshed s = not s.board_loading
offered display_lanes (toggled_lane _) s = true
offered _ chose_dashboard s = true
offered _ chose_settings s = true
offered _ logged_out s = is_board_view s.view
offered _ (changed_text_size _) s = true
offered _ polled s = is_some s.polling
offered _ (display_token_settled _) s = true
offered _ (login_settled _) s = true
offered _ (orders_settled _ _) s = true
offered _ (display_orders_settled _ _) s = true
offered _ (detail_settled _ _) s = true
offered _ (command_settled _ _) s = true
offered _ _ s = false

-- An event and its effects, with all that they do outside.
unfoldable pub react : Event → State → State × List Effect
react e s = let (t, es) = handle e s in let (u, fs) = run_effects s t in (u, es ++ fs)

unfoldable pub step : Event → State → State
step e s = if offered (screen s) e s then (react e s).0 else s

unfoldable pub run : List Event → State → State
run [] s = s
run (e ∷ es) s = run es (step e s)
