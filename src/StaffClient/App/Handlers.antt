-- ===== src/StaffClient/App/Handlers.antt =====
-- The handlers of App.tsx.
use agentic_restaurant.Base.{
  ℕ, String, true, false, not, Option, none, some, List, [], ◌∷◌, if◌then◌else◌, str_eq, ◌==◌,
  Outcome, resolved, rejected, message_or,
}
use agentic_restaurant.StaffClient.Production.{
  ProductionOrder, DisplayOrder, OrderDetail, CommandResponse, ItemCommand,
}
use agentic_restaurant.StaffClient.Api.{LoginResponse}
use agentic_restaurant.StaffClient.Session.{
  UiMode, interactive, display, UiSession, user_auth, application_auth, interactive_session,
  display_session,
}
use agentic_restaurant.StaffClient.App.{
  State, landing, display_loading, interactive_board, display_board, dashboard, Effect,
  get_display_token, clear_display_token, login, fetch_orders, fetch_display_orders,
  fetch_order_detail, send_item_command, Captured, Caller,
}

-- `enterDisplayMode`, up to `await getDisplayToken()`.
unfoldable pub enter_display_mode : State → State × List Effect
enter_display_mode s =
    (record s { view = display_loading; display_error = none }, get_display_token ∷ [])

abbrev pub display_ui_session : String → UiSession
display_ui_session token = record {
  mode = display;
  auth_kind = application_auth;
  access_token = token;
  user = none;
}

unfoldable pub on_display_token : Outcome String → State → State
on_display_token (resolved token) s = record s {
  session = some (display_ui_session token);
  view = display_board;
  stored = some display_session;
}
on_display_token (rejected e) s = record s {
  display_error = some (message_or "Failed to connect display mode." e);
}

unfoldable pub on_login : State → State × List Effect
on_login s =
    (record s { auth_loading = true; auth_error = none }, login s.login_value s.password ∷ [])

abbrev pub user_ui_session : LoginResponse → UiSession
user_ui_session response = record {
  mode = interactive;
  auth_kind = user_auth;
  access_token = response.access_token;
  user = some response.user;
}

unfoldable pub on_login_settled : Outcome LoginResponse → State → State
on_login_settled (resolved response) s = record s {
  session = some (user_ui_session response);
  view = interactive_board;
  stored = some (interactive_session response.access_token response.user);
  auth_loading = false;
}
on_login_settled (rejected e) s = record s {
  auth_error = some (message_or "Login failed." e);
  auth_loading = false;
}

unfoldable pub go_back_to_landing : State → State × List Effect
go_back_to_landing s = (
  record s {
    login_value = "";
    password = "";
    auth_error = none;
    display_error = none;
    view = landing;
  },
  clear_display_token ∷ [],
)

unfoldable pub reset_all_state : State → State × List Effect
reset_all_state s = (
  record s {
    stored = none;
    session = none;
    orders = [];
    display_orders = [];
    selected_order_id = none;
    order_detail = none;
    board_error = none;
    detail_error = none;
    command_error = none;
    login_value = "";
    password = "";
    auth_error = none;
    display_error = none;
    view = landing;
    active_tab = dashboard;
  },
  clear_display_token ∷ [],
)

unfoldable pub toggle_lane : String → State → State
toggle_lane status s = record s {
  collapsed_lanes =
      λ lane. if str_eq status lane then not (s.collapsed_lanes lane) else s.collapsed_lanes lane;
}

abbrev fetch_board : UiMode → String → Effect
fetch_board display token = fetch_display_orders token
fetch_board interactive token = fetch_orders token

-- `loadBoard`, up to its await.
unfoldable pub load_board : String → UiMode → State → State × List Effect
load_board token mode s =
    (record s { board_loading = true; board_error = none }, fetch_board mode token ∷ [])

-- The `finally` of `onItemCommand`, where it awaited this call of `loadBoard`.
abbrev pub board_done : Caller → State → State
board_done none s = s
board_done (some _) s = record s { command_loading = none }

abbrev pub board_failed : String → State → State
board_failed message s = record s { board_error = some message; board_loading = false }

unfoldable pub on_orders : Caller → Outcome (List ProductionOrder) → State → State
on_orders caller (resolved orders) s =
    board_done caller (record s { orders = orders; board_loading = false })
on_orders caller (rejected e) s =
    board_done caller (board_failed (message_or "Failed to load board." e) s)

unfoldable pub on_display_orders : Caller → Outcome (List DisplayOrder) → State → State
on_display_orders caller (resolved orders) s =
    board_done caller (record s { display_orders = orders; board_loading = false })
on_display_orders caller (rejected e) s =
    board_done caller (board_failed (message_or "Failed to load board." e) s)

-- `loadDetail` of a rendering with this session, up to its await.
unfoldable pub load_detail : Option UiSession → ℕ → State → State × List Effect
load_detail none order_id s = (s, [])
load_detail (some session) order_id s = (
  record s {
    selected_order_id = some order_id;
    detail_loading = true;
    detail_error = none;
    command_error = none;
  },
  fetch_order_detail session.access_token order_id ∷ [],
)

-- What `onItemCommand` does after its `await loadDetail(…)`.
abbrev pub after_detail : Caller → State → State × List Effect
unfolding load_board
after_detail none s = (s, [])
after_detail (some c) s = load_board c.session.access_token c.session.mode s

unfoldable pub on_detail : Caller → Outcome OrderDetail → State → State × List Effect
unfolding load_board
on_detail caller (resolved detail) s =
    after_detail caller (record s { order_detail = some detail; detail_loading = false })
on_detail caller (rejected e) s = after_detail caller (record s {
  detail_error = some (message_or "Failed to load order." e);
  detail_loading = false;
})

-- `!session || !selectedOrderId`
abbrev pub capture : Option UiSession → Option ℕ → Option Captured
capture (some session) (some order_id) =
    if order_id == 0 then none else some (record { session = session; order_id = order_id })
capture _ _ = none

abbrev send_by : Option Captured → String → ItemCommand → State → State × List Effect
send_by none item_id command s = (s, [])
send_by (some c) item_id command s = (
  record s { command_loading = some item_id; command_error = none },
  send_item_command c.session.access_token item_id command ∷ [],
)

-- `onItemCommand`, up to `await sendItemCommand`.
unfoldable pub on_item_command : String → ItemCommand → State → State × List Effect
on_item_command item_id command s =
    send_by (capture s.session s.selected_order_id) item_id command s

unfoldable pub on_command_settled : Captured → Outcome CommandResponse → State → State × List Effect
unfolding load_detail
on_command_settled c (resolved response) s = load_detail (some c.session) c.order_id s
on_command_settled c (rejected e) s =
    (record s { command_error = some (message_or "Command failed." e); command_loading = none }, [])
