-- ===== src/StaffClient/App/Page.antt =====
-- What App.tsx renders, as the list of what is on the page. `toUpperCase`, `toLocaleTimeString`,
-- the reading of a date, the window's size and address, and the configured address are parameters.
pub mod Laws
pub mod Complete
use agentic_restaurant.Base.{
  ◌≡◌, String, Bool, true, false, not, ◌&&◌, Option, none, some, List, [], ◌∷◌, ◌++◌, if◌then◌else◌,
  is_empty, ltb,
}
use agentic_restaurant.Base.Http.{text}
use agentic_restaurant.UiCommon.QrCode.{local_network_qr_code}
use agentic_restaurant.UiCommon.Widgets.{
  all_filled, Widget, caption, badge, button, submit, field, text_size_control, qr_code, info,
  error_if, info_card, choice_card, NavigationItem, navigation_menu,
}
use agentic_restaurant.StaffClient.Api.{UserSummary}
use agentic_restaurant.StaffClient.Session.{UiMode, interactive, display, UiSession}
use agentic_restaurant.StaffClient.Board.{lane_definitions}
use agentic_restaurant.StaffClient.Board.Actions.{has_lane}
use agentic_restaurant.StaffClient.App.{
  State, AppView, landing, interactive_credentials, display_loading, interactive_board,
  display_board, ActiveTab, dashboard, settings, Event, chose_interactive, chose_display,
  typed_login, typed_password, submitted_login, went_back, chose_dashboard, chose_settings,
  logged_out, refreshed, clicked_command, changed_text_size, is_board_view, toggled_lane,
  selected_order, polled, display_token_settled, login_settled, orders_settled,
  display_orders_settled, detail_settled, command_settled,
}
use agentic_restaurant.StaffClient.App.View.{
  detail_panel, is_display, has_error, current_orders, display_user_name,
}
use agentic_restaurant.StaffClient.App.Lanes.{Browser, render_lanes, HasOrder}
use agentic_restaurant.StaffClient.App.Detail.{render_interactive_detail, HasCommandIn}

abbrev is_dashboard : ActiveTab → Bool
is_dashboard dashboard = true
is_dashboard settings = false

abbrev pub navigation_items : State → List (NavigationItem Event)
navigation_items s =
    record {
      id = "dashboard";
      label = if is_board_view s.view then "Dashboard" else "Login";
      active = is_dashboard s.active_tab;
      on_click = chose_dashboard;
    }
    ∷ record {
      id = "settings";
      label = "Settings";
      active = not (is_dashboard s.active_tab);
      on_click = chose_settings;
    }
    ∷ []

abbrev exit_button : State → List (Widget Event)
exit_button s =
    if is_board_view s.view
    then button (text (if is_display s.view then "Exit" else "Logout") ∷ []) false logged_out ∷ []
    else []

-- The `navigation` of the shell.
unfoldable pub navigation : State → List (Widget Event)
navigation s =
    navigation_menu (navigation_items s)
      (text_size_control s.text_size changed_text_size ∷ exit_button s)

-- `renderCredentials`
pub render_credentials : State → List (Widget Event)
render_credentials s =
    info_card (text "Staff Sign In" ∷ [])
      (text "Use your staff credentials to access the interactive production board." ∷ [])
      (field "Login" s.login_value none typed_login
        ∷ field "Password" s.password none typed_password
        ∷ button (text "Back" ∷ []) false went_back
        ∷ submit (text (if s.auth_loading then "Signing in..." else "Sign In") ∷ []) s.auth_loading
            (s.login_value ∷ s.password ∷ []) submitted_login
        ∷ error_if s.auth_error)

-- `renderDisplayLoading`
pub render_display_loading : State → List (Widget Event)
render_display_loading s =
    info_card (text "Connecting display mode" ∷ [])
      (text "Requesting the application token for the display board." ∷ [])
      (caption (text "Connecting display mode..." ∷ [])
        ∷ (if has_error s.display_error
            then error_if s.display_error ++ button (text "Back" ∷ []) false went_back ∷ []
            else []))

-- `renderSettingsView`
pub render_settings_view : State → List (Widget Event)
render_settings_view s =
    info_card (text "Settings" ∷ [])
      (text "Shared controls now live in the navigation drawer for faster access." ∷ [])
      (caption (text "Use the text size controls pinned to the bottom of the navigation menu." ∷ [])
        ∷ (if is_board_view s.view
            then []
            else caption
                (text "Choose a workspace mode from the dashboard when you are ready." ∷ [])
              ∷ []))

abbrev mode_name : UiMode → String
mode_name interactive = "interactive"
mode_name display = "display"

mode_chip : Option UiSession → List (Widget Event)
mode_chip none = []
mode_chip (some session) = badge (text "Mode: " ∷ text (mode_name session.mode) ∷ []) info ∷ []

-- `session?.user`
abbrev user_of : Option UiSession → Option UserSummary
user_of none = none
user_of (some session) = session.user

signed_in_as : Bool → Option UserSummary → List (Widget Event)
signed_in_as on_display none = []
signed_in_as on_display (some user) =
    if on_display
    then []
    else caption (text "Signed in as " ∷ text (display_user_name user) ∷ []) ∷ []

abbrev pub has_orders : State → Bool
unfolding current_orders
has_orders s = not (is_empty (current_orders s))

module _ (browser : Browser) where
  open browser use {inner_width, location, local_ip, to_upper_case}

  -- `isMobileViewport`
  abbrev pub is_mobile_viewport : Bool
  is_mobile_viewport = ltb inner_width 768

  -- `renderModeSelection`
  pub render_mode_selection : List (Widget Event)
  render_mode_selection =
      choice_card "Interactive"
        (some "Sign in with a staff account to manage the production board.") chose_interactive
      ∷ choice_card "Display" (some "Open the read-only board for kitchen and service displays.")
          chose_display
      ∷ qr_code (local_network_qr_code location is_mobile_viewport local_ip)
      ∷ []

  toolbar : State → List (Widget Event)
  unfolding mode_chip signed_in_as
  toolbar s =
      mode_chip s.session
      ++ (signed_in_as (is_display s.view) (user_of s.session)
          ++ button (text "Refresh" ∷ []) s.board_loading refreshed ∷ [])

  board : State → List (Widget Event)
  unfolding render_lanes render_interactive_detail
  board s =
      render_lanes browser s
      ++ (if is_display s.view then [] else render_interactive_detail browser s)

  -- `renderBoardView`
  pub render_board_view : State → List (Widget Event)
  unfolding toolbar board
  render_board_view s =
      toolbar s
      ++ ((if s.board_loading && not (has_orders s)
            then caption (text "Loading orders..." ∷ []) ∷ []
            else [])
          ++ (error_if s.board_error
              ++ (board s
                  ++ (if not s.board_loading && not (has_orders s) && not (has_error s.board_error)
                      then caption (text "No production orders." ∷ []) ∷ []
                      else []))))

  -- `renderDashboardContent`
  dashboard_of : AppView → State → List (Widget Event)
  unfolding render_mode_selection render_credentials render_display_loading render_board_view
  dashboard_of landing s = render_mode_selection
  dashboard_of interactive_credentials s = render_credentials s
  dashboard_of display_loading s = render_display_loading s
  dashboard_of interactive_board s = render_board_view s
  dashboard_of display_board s = render_board_view s

  content_of : ActiveTab → State → List (Widget Event)
  unfolding dashboard_of render_settings_view
  content_of settings s = render_settings_view s
  content_of dashboard s = dashboard_of s.view s

  -- The page with an open navigation.
  unfoldable pub page : State → List (Widget Event)
  unfolding content_of navigation
  page s = navigation s ++ content_of s.active_tab s

-- What is on the page besides the controls: the orders in lanes that are not collapsed, the
-- commands that the production service admits for the items shown, and the required fields. A tick
-- of the interval and an outcome are no control.
abbrev pub IsOnPage : Event → State → Type 0
unfolding detail_panel
IsOnPage submitted_login s = all_filled (s.login_value ∷ s.password ∷ []) ≡ true
IsOnPage (toggled_lane status) s = has_lane status lane_definitions ≡ true
IsOnPage (selected_order id) s = HasOrder id s.collapsed_lanes s.orders
IsOnPage (clicked_command item_id command) s = HasCommandIn item_id command (detail_panel s)
IsOnPage polled s = ⊥
IsOnPage (display_token_settled _) s = ⊥
IsOnPage (login_settled _) s = ⊥
IsOnPage (orders_settled _ _) s = ⊥
IsOnPage (display_orders_settled _ _) s = ⊥
IsOnPage (detail_settled _ _) s = ⊥
IsOnPage (command_settled _ _) s = ⊥
IsOnPage _ s = Unit
