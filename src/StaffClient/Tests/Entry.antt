-- ===== src/StaffClient/Tests/Entry.antt =====
-- A page that is loaded, and how its boards are entered.
use agentic_restaurant.Base.{◌≡◌, refl, none, some, List, [], ◌∷◌, arith, map, resolved}
use agentic_restaurant.UiCommon.TextSize.{size1}
use agentic_restaurant.StaffClient.Session.{display, display_session}
use agentic_restaurant.StaffClient.Board.{BoardOrder}
use agentic_restaurant.StaffClient.App.{
  State, chose_interactive, went_back, landing, interactive_board, display_board, chose_settings,
  interactive_credentials, display_loading, Event, initial, chose_display, chose_dashboard,
  submitted_login, logged_out, display_token_settled, login_settled, display_orders_settled,
  get_display_token, clear_display_token, fetch_display_orders, polled,
}
use agentic_restaurant.StaffClient.App.Handlers.{
  display_ui_session, on_login, go_back_to_landing, on_login_settled, load_board,
}
use agentic_restaurant.StaffClient.App.Effects.{mount, run_effects}
use agentic_restaurant.StaffClient.App.View.{
  screen, mode_selection, credentials_form, connecting, display_lanes, current_orders, detail_panel,
}
use agentic_restaurant.StaffClient.App.Step.{react, run, step, handle}
use agentic_restaurant.StaffClient.App.Invariant.{Inv, mount-Inv, reached, reached-Inv}
use agentic_restaurant.StaffClient.App.Entry.{IsLoaded, display_mode_entered}
use agentic_restaurant.StaffClient.App.Display.{IsDisplaying, tick-of_displaying}
use agentic_restaurant.StaffClient.App.Races.{display_opens_after_back}
use agentic_restaurant.StaffClient.Tests.{shown_on_display, cook}

abbrev loaded : State
loaded = (mount (initial none size1)).0

loaded-Inv : Inv loaded
loaded-Inv = mount-Inv none size1

loaded_shown : screen loaded ≡ mode_selection
unfolding screen mount initial
loaded_shown = refl

abbrev evening : List Event
evening =
    chose_display ∷ display_token_settled (resolved "display-token") ∷ polled ∷ logged_out ∷ []

reached-Inv_example : Inv (reached none size1 evening)
reached-Inv_example = reached-Inv none size1 evening

display_mode_entered_example :
    let a = react chose_display loaded in
    let b = react (display_token_settled (resolved "display-token")) a.0 in
    let t = (react (display_orders_settled none (resolved (shown_on_display ∷ []))) b.0).0 in
    (a.1 ≡ get_display_token ∷ [])
    × (screen a.0 ≡ connecting)
    × (b.1 ≡ fetch_display_orders "display-token" ∷ [])
    × (screen t ≡ display_lanes)
    × IsLoaded t (display_ui_session "display-token")
    × (current_orders t ≡ map BoardOrder.display (shown_on_display ∷ []))
display_mode_entered_example =
    display_mode_entered loaded loaded-Inv "display-token" (shown_on_display ∷ []) loaded_shown

abbrev at_form : State
at_form = record loaded { view = interactive_credentials }

at_form-Inv : Inv at_form
unfolding mount initial
at_form-Inv = ground arith

at_form_shown : screen at_form ≡ credentials_form
unfolding screen mount initial
at_form_shown = refl

abbrev waiting : State
waiting = record loaded { view = display_loading }

waiting-Inv : Inv waiting
unfolding mount initial
waiting-Inv = ground arith

waiting_view : waiting.view ≡ display_loading
unfolding mount initial
waiting_view = refl

display_opens_after_back_example :
    let a = react chose_dashboard waiting in
    let b = react (display_token_settled (resolved "display-token")) a.0 in
    (screen a.0 ≡ mode_selection)
    × (a.1 ≡ clear_display_token ∷ [])
    × (screen b.0 ≡ display_lanes)
    × (b.0.session ≡ some (display_ui_session "display-token"))
    × (b.1 ≡ fetch_display_orders "display-token" ∷ [])
display_opens_after_back_example =
    display_opens_after_back waiting "display-token" waiting-Inv waiting_view

abbrev displaying : State
displaying = record (initial (some display_session) size1) {
  view = display_board;
  session = some (display_ui_session "entry-token");
  polling = some (record { token = "entry-token"; mode = display });
}

displaying-IsDisplaying : IsDisplaying "entry-token" displaying
displaying-IsDisplaying = record { on_board = refl; entered = refl; polls = refl }

abbrev until_night : List Event
until_night = polled ∷ display_orders_settled none (resolved []) ∷ chose_settings ∷ []

tick-of_displaying_example :
    (react polled (run until_night displaying)).1 ≡ fetch_display_orders "entry-token" ∷ []
tick-of_displaying_example =
    tick-of_displaying until_night "entry-token" displaying (refl, (refl, (refl, tt)))
      displaying-IsDisplaying

-- A sign-in that succeeds after the user has gone back.
login_after_back :
    (run (chose_interactive ∷ submitted_login ∷ went_back ∷ []) loaded).view ≡ landing
unfolding run step react handle run_effects mount initial screen detail_panel on_login
    go_back_to_landing
login_after_back = refl

board_opens :
    (run
      (chose_interactive ∷ submitted_login ∷ went_back ∷ login_settled (resolved cook) ∷ [])
      loaded).view
    ≡ interactive_board
unfolding run step react handle run_effects mount initial screen detail_panel on_login
    go_back_to_landing on_login_settled load_board
board_opens = refl
