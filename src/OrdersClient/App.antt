-- ===== src/OrdersClient/App.antt =====
-- App.tsx of the orders client: the component's state, and the events that change it. A handler
-- that awaits is cut at its awaits: it returns the new state and the calls that it makes, and an
-- event for each call's outcome goes on with the rest of the handler.
pub mod Handlers
pub mod View
pub mod Page
pub mod Browsing
pub mod Step
pub mod Invariant
pub mod Reload
pub mod Settled
pub mod Auth
pub mod Races
pub mod Checkout
use agentic_restaurant.Base.{
  ℕ, String, Bool, true, false, ◌&&◌, Option, none, some, List, [], ◌∷◌, Outcome, is_some,
}
use agentic_restaurant.Base.Json.{is_text}
use agentic_restaurant.UiCommon.TextSize.{TextSize}
use agentic_restaurant.OrdersClient.Basket.{MenuItem, BasketLine}
use agentic_restaurant.OrdersClient.Api.{UserSummary, LoginResponse, OrderSubmitResponse}
use agentic_restaurant.OrdersClient.Session.{UiMode, SessionAuth}

pub data EntryStep : Type 0 where
  landing registered_credentials guest_name main : EntryStep

pub data ActiveTab : Type 0 where
  home settings : ActiveTab

-- The variables of `useState`, and the session that `sessionStorage` holds.
pub record State : Type 0 where
  pub token : String
  pub user : Option UserSummary
  pub mode : Option UiMode
  pub entry_step : EntryStep
  pub login_value : String
  pub password : String
  pub guest_display_name : String
  pub auth_error : Option String
  pub auth_loading : Bool
  pub menu_items : List MenuItem
  pub menu_loading : Bool
  pub menu_error : Option String
  pub basket : List BasketLine
  pub submit_error : Option String
  pub submit_loading : Bool
  pub last_order : Option OrderSubmitResponse
  pub text_size : TextSize
  pub active_tab : ActiveTab
  pub stored : Option SessionAuth

-- The calls that a handler makes and awaits.
pub data Call : Type 0 where
  login : String → String → Call
  app_token : String → Call  -- with the name that the rest of the handler keeps
  create_guest_user : String → String → Call
  fetch_menu : String → Call
  submit_order : String → ℕ → List BasketLine → Call

pub data Event : Type 0 where
  chose_registered chose_guest : Event
  typed_login typed_password typed_guest_name : String → Event
  submitted_login submitted_guest : Event
  went_back : Event
  reloaded_menu : Event
  added_item : MenuItem → Event
  set_quantity : ℕ → ℕ → Event
  placed_order : Event
  logged_out : Event
  chose_tab : ActiveTab → Event
  changed_text_size : TextSize → Event
  login_settled : Outcome LoginResponse → Event
  app_token_settled : String → Outcome String → Event
  guest_settled : Outcome LoginResponse → Event
  first_menu_settled : UiMode → Outcome (List MenuItem) → Event
  menu_settled : Outcome (List MenuItem) → Event
  order_settled : Outcome OrderSubmitResponse → Event

-- The state that the first rendering starts from, given what `readAuthSession` returned, at its
-- declared type.
unfoldable pub initial : Option SessionAuth → TextSize → State
initial existing text_size = record {
  token = elim existing [ none ↦ "" | some session ↦ session.token ];
  user = elim existing [ none ↦ none | some session ↦ some session.user ];
  mode = elim existing [ none ↦ none | some session ↦ some session.mode ];
  entry_step = elim existing [ none ↦ landing | some session ↦ main ];
  login_value = "";
  password = "";
  guest_display_name = "";
  auth_error = none;
  auth_loading = false;
  menu_items = [];
  menu_loading = false;
  menu_error = none;
  basket = [];
  submit_error = none;
  submit_loading = false;
  last_order = none;
  text_size = text_size;
  active_tab = home;
  stored = existing;
}

-- `Boolean(token && user && mode)`
abbrev pub is_authenticated : State → Bool
is_authenticated s = is_text s.token && is_some s.user && is_some s.mode
