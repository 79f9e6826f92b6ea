-- ===== src/OrdersClient/App/Handlers.antt =====
-- The handlers of App.tsx.
use agentic_restaurant.Base.{
  String, Bool, true, false, not, ◌||◌, Option, none, some, List, [], ◌∷◌, if◌then◌else◌, ltb,
  is_empty, Outcome, resolved, rejected, message_or,
}
use agentic_restaurant.Base.Text.{trim, utf16_length}
use agentic_restaurant.Base.Json.{is_text}
use agentic_restaurant.OrdersClient.Basket.{MenuItem}
use agentic_restaurant.OrdersClient.Api.{UserSummary, LoginResponse, OrderSubmitResponse}
use agentic_restaurant.OrdersClient.Session.{UiMode, registered, guest, SessionAuth}
use agentic_restaurant.OrdersClient.App.{
  State, landing, main, home, Call, login, app_token, create_guest_user, fetch_menu, submit_order,
}

abbrev pub session_of : String → UserSummary → UiMode → SessionAuth
session_of token user mode = record { token = token; user = user; mode = mode }

-- `completeAuthentication`, up to `await fetchMenu`.
unfoldable pub complete_authentication : String → UserSummary → UiMode → State → State × List Call
complete_authentication token user mode s = (
  record s {
    token = token;
    user = some user;
    mode = some mode;
    entry_step = main;
    active_tab = home;
    stored = some (session_of token user mode);
    menu_loading = true;
  },
  fetch_menu token ∷ [],
)

-- The `catch` and `finally` blocks of `onLogin` and `onGuestLogin`.
abbrev pub auth_failed : String → State → State
auth_failed message s = record s { auth_error = some message; auth_loading = false }

abbrev pub auth_fallback : UiMode → String
auth_fallback registered = "Unexpected login error."
auth_fallback guest = "Guest login failed."

-- The rest of `completeAuthentication`, and of the handler that awaits it.
unfoldable pub on_first_menu : UiMode → Outcome (List MenuItem) → State → State
on_first_menu mode (resolved items) s = record s {
  menu_items = items;
  menu_error = none;
  menu_loading = false;
  auth_loading = false;
}
on_first_menu mode (rejected e) s =
    auth_failed (message_or (auth_fallback mode) e) (record s { menu_loading = false })

unfoldable pub on_login : State → State × List Call
on_login s =
    (record s { auth_loading = true; auth_error = none }, login s.login_value s.password ∷ [])

unfoldable pub on_login_settled : Outcome LoginResponse → State → State × List Call
unfolding complete_authentication
on_login_settled (resolved response) s =
    complete_authentication response.access_token response.user registered s
on_login_settled (rejected e) s = (auth_failed (message_or (auth_fallback registered) e) s, [])

abbrev pub is_bad_name : String → Bool
is_bad_name name = not (is_text name) || ltb 100 (utf16_length name)

unfoldable pub on_guest_login : State → State × List Call
on_guest_login s =
    if is_bad_name (trim s.guest_display_name)
    then (
      record s { auth_error = some "Guest name is required and must be at most 100 characters." },
      [],
    )
    else (
      record s { auth_loading = true; auth_error = none },
      app_token (trim s.guest_display_name) ∷ [],
    )

-- The handler keeps the name that it trimmed before it awaited the token.
unfoldable pub on_app_token_settled : String → Outcome String → State → State × List Call
on_app_token_settled name (resolved token) s = (s, create_guest_user name token ∷ [])
on_app_token_settled name (rejected e) s = (auth_failed (message_or (auth_fallback guest) e) s, [])

unfoldable pub on_guest_settled : Outcome LoginResponse → State → State × List Call
unfolding complete_authentication
on_guest_settled (resolved response) s =
    complete_authentication response.access_token response.user guest s
on_guest_settled (rejected e) s = (auth_failed (message_or (auth_fallback guest) e) s, [])

unfoldable pub reload_menu : State → State × List Call
reload_menu s =
    if not (is_text s.token)
    then (s, [])
    else (record s { menu_loading = true; menu_error = none }, fetch_menu s.token ∷ [])

unfoldable pub on_menu_settled : Outcome (List MenuItem) → State → State
on_menu_settled (resolved items) s = record s { menu_items = items; menu_loading = false }
on_menu_settled (rejected e) s = record s {
  menu_error = some (message_or "Could not refresh menu." e);
  menu_loading = false;
}

abbrev order_by : Option UserSummary → State → State × List Call
order_by none s = (s, [])
order_by (some user) s = if not (is_text s.token) || is_empty s.basket then (s, []) else (
  record s { submit_loading = true; submit_error = none },
  submit_order s.token user.id s.basket ∷ [],
)

unfoldable pub place_order : State → State × List Call
place_order s = order_by s.user s

unfoldable pub on_order_settled : Outcome OrderSubmitResponse → State → State
on_order_settled (resolved response) s = record s {
  last_order = some response;
  basket = [];
  submit_loading = false;
}
on_order_settled (rejected e) s = record s {
  submit_error = some (message_or "Order submission failed." e);
  submit_loading = false;
}

unfoldable pub reset_to_landing : State → State
reset_to_landing s = record s {
  entry_step = landing;
  auth_error = none;
  auth_loading = false;
  login_value = "";
  password = "";
  guest_display_name = "";
}

unfoldable pub logout : State → State
unfolding reset_to_landing
logout s =
    record (reset_to_landing (record s {
      token = "";
      user = none;
      mode = none;
      menu_items = [];
      basket = [];
      last_order = none;
      auth_error = none;
      menu_error = none;
      submit_error = none;
    })) { active_tab = home; stored = none }
