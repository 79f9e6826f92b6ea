-- ===== src/StaffClient/App/View.antt =====
-- What App.tsx shows, and what the user can do there.
use agentic_restaurant.UiCommon.Widgets.{StatusBadgeTone, neutral, info, success, warning}
use agentic_restaurant.Base.Json.{is_text}
use agentic_restaurant.Base.{
  ℕ, String, Bool, true, false, not, ◌&&◌, Option, none, some, List, [], ◌∷◌, map, if◌then◌else◌,
  is_empty, or_else, str_eq,
}
use agentic_restaurant.StaffClient.Production.{
  OrderDetail, status_in_progress, status_blocked, status_ready,
}
use agentic_restaurant.StaffClient.Api.{UserSummary}
use agentic_restaurant.StaffClient.Board.{BoardOrder, production, display}
use agentic_restaurant.StaffClient.App.{
  AppView, landing, interactive_credentials, display_loading, interactive_board, display_board,
  State, dashboard, settings,
}

pub data Screen : Type 0 where
  settings_view mode_selection credentials_form connecting : Screen
  interactive_lanes display_lanes : Screen

abbrev pub dashboard_content : AppView → Screen
dashboard_content landing = mode_selection
dashboard_content interactive_credentials = credentials_form
dashboard_content display_loading = connecting
dashboard_content interactive_board = interactive_lanes
dashboard_content display_board = display_lanes

unfoldable pub screen : State → Screen
screen s = elim s.active_tab [ settings ↦ settings_view | dashboard ↦ dashboard_content s.view ]

-- The parts of `renderInteractiveDetail`, in the order of its tests.
pub data DetailPanel : Type 0 where
  prompt loading nothing : DetailPanel
  failed : String → DetailPanel
  shown : OrderDetail → DetailPanel

abbrev panel_of_detail : Option OrderDetail → DetailPanel
panel_of_detail none = nothing
panel_of_detail (some detail) = shown detail

abbrev panel_of : Option ℕ → Bool → Option String → Option OrderDetail → DetailPanel
panel_of none busy error detail = prompt
panel_of (some id) true error detail = loading
panel_of (some id) false (some message) detail =
    if is_text message then failed message else panel_of_detail detail
panel_of (some id) false none detail = panel_of_detail detail

unfoldable pub detail_panel : State → DetailPanel
detail_panel s = panel_of s.selected_order_id s.detail_loading s.detail_error s.order_detail

abbrev pub is_display : AppView → Bool
is_display display_board = true
is_display _ = false

-- `currentOrders`
unfoldable pub current_orders : State → List BoardOrder
current_orders s =
    if is_display s.view then map display s.display_orders else map production s.orders

-- `Boolean(error)`
abbrev pub has_error : Option String → Bool
has_error none = false
has_error (some message) = is_text message

pub data Notice : Type 0 where
  loading_orders no_orders : Notice

abbrev notice_if : Bool → Notice → List Notice
notice_if b n = if b then n ∷ [] else []

-- The two notices of `renderBoardView`.
unfoldable pub notices : State → List Notice
unfolding current_orders
notices s =
    let has_orders = not (is_empty (current_orders s)) in
    if s.board_loading && not has_orders
    then loading_orders ∷ []
    else notice_if (not s.board_loading && not has_orders && not (has_error s.board_error))
        no_orders

abbrev pub display_user_name : UserSummary → String
display_user_name user = or_else user.display_name user.login

abbrev pub status_tone : String → StatusBadgeTone
status_tone status =
    if str_eq status status_in_progress
    then info
    else if str_eq status status_blocked
    then warning
    else if str_eq status status_ready
    then success
    else neutral
