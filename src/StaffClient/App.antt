-- ===== src/StaffClient/App.antt =====
-- App.tsx of the staff client: the component's state, and the events that change it. A handler
-- that awaits is cut at its awaits, as for the orders client.
pub mod Handlers
pub mod Effects
pub mod View
pub mod Texts
pub mod Lanes
pub mod Detail
pub mod Page
pub mod Step
pub mod Invariant
pub mod Quiet
pub mod Entry
pub mod Commands
pub mod Races
pub mod Display
pub mod Browsing
use agentic_restaurant.Base.{
  ℕ, String, Bool, true, false, ◌&&◌, not, Option, none, some, List, [], ◌∷◌, Outcome, is_some,
  str_eq, if◌then◌else◌,
}
use agentic_restaurant.UiCommon.TextSize.{TextSize}
use agentic_restaurant.StaffClient.Production.{
  ProductionOrder, DisplayOrder, OrderDetail, CommandResponse, ItemCommand,
}
use agentic_restaurant.StaffClient.Api.{UserSummary, LoginResponse}
use agentic_restaurant.StaffClient.Session.{
  UiMode, UiSession, user_auth, PersistedSession, interactive_session, display_session,
}

pub data AppView : Type 0 where
  landing interactive_credentials display_loading interactive_board display_board : AppView

pub data ActiveTab : Type 0 where
  dashboard settings : ActiveTab

-- The interval that the polling effect set, with the token and the mode that it captured.
pub record Polling : Type 0 where
  pub token : String
  pub mode : UiMode

-- The variables of `useState`, the interval, and what `sessionStorage` holds.
pub record State : Type 0 where
  pub view : AppView
  pub session : Option UiSession
  pub display_error : Option String
  pub login_value : String
  pub password : String
  pub auth_error : Option String
  pub auth_loading : Bool
  pub orders : List ProductionOrder
  pub display_orders : List DisplayOrder
  pub board_loading : Bool
  pub board_error : Option String
  pub selected_order_id : Option ℕ
  pub order_detail : Option OrderDetail
  pub detail_loading : Bool
  pub detail_error : Option String
  pub command_loading : Option String
  pub command_error : Option String
  pub text_size : TextSize
  pub active_tab : ActiveTab
  pub collapsed_lanes : String → Bool
  pub polling : Option Polling
  pub stored : Option PersistedSession

-- What the handlers do outside the component: calls that they await, and the clearing of the
-- display's token.
pub data Effect : Type 0 where
  get_display_token clear_display_token : Effect
  login : String → String → Effect
  fetch_orders fetch_display_orders : String → Effect
  fetch_order_detail : String → ℕ → Effect
  send_item_command : String → String → ItemCommand → Effect

-- What `onItemCommand` has captured: the session and the selected order of its rendering.
pub record Captured : Type 0 where
  pub session : UiSession
  pub order_id : ℕ

-- A call that `onItemCommand` awaits, or one that stands alone.
abbrev pub Caller : Type 0
Caller = Option Captured

pub data Event : Type 0 where
  chose_interactive chose_display : Event
  typed_login typed_password : String → Event
  submitted_login went_back : Event
  chose_dashboard chose_settings : Event
  logged_out refreshed : Event
  toggled_lane : String → Event
  selected_order : ℕ → Event
  clicked_command : String → ItemCommand → Event
  changed_text_size : TextSize → Event
  polled : Event
  display_token_settled : Outcome String → Event
  login_settled : Outcome LoginResponse → Event
  orders_settled : Caller → Outcome (List ProductionOrder) → Event
  display_orders_settled : Caller → Outcome (List DisplayOrder) → Event
  detail_settled : Caller → Outcome OrderDetail → Event
  command_settled : Captured → Outcome CommandResponse → Event

abbrev pub is_board_view : AppView → Bool
is_board_view interactive_board = true
is_board_view display_board = true
is_board_view _ = false

-- `computeInitialState`
abbrev pub initial_view : Option PersistedSession → AppView
initial_view none = landing
initial_view (some (interactive_session token user)) = interactive_board
initial_view (some display_session) = display_loading

abbrev pub initial_session : Option PersistedSession → Option UiSession
initial_session (some (interactive_session token user)) = some (record {
  mode = UiMode.interactive;
  auth_kind = user_auth;
  access_token = token;
  user = some user;
})
initial_session _ = none

-- The state that the first rendering starts from, before its effects.
unfoldable pub initial : Option PersistedSession → TextSize → State
initial persisted text_size = record {
  view = initial_view persisted;
  session = initial_session persisted;
  display_error = none;
  login_value = "";
  password = "";
  auth_error = none;
  auth_loading = false;
  orders = [];
  display_orders = [];
  board_loading = false;
  board_error = none;
  selected_order_id = none;
  order_detail = none;
  detail_loading = false;
  detail_error = none;
  command_loading = none;
  command_error = none;
  text_size = text_size;
  active_tab = dashboard;
  collapsed_lanes = λ _. false;
  polling = none;
  stored = persisted;
}
