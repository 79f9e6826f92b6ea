-- ===== src/StaffClient/App/Entry.antt =====
-- Entering the board, and what it polls with.
use agentic_restaurant.Base.{
  String, ◌≡◌, refl, true, false, none, some, List, [], ◌∷◌, map, arith, resolved,
}
use agentic_restaurant.StaffClient.Production.{ProductionOrder, DisplayOrder}
use agentic_restaurant.StaffClient.Api.{LoginResponse}
use agentic_restaurant.StaffClient.Board.{production, display}
use agentic_restaurant.StaffClient.Session.{
  UiMode, interactive, UiSession, interactive_session, display_session,
}
use agentic_restaurant.StaffClient.App.{
  State, landing, interactive_credentials, dashboard, display_loading, interactive_board,
  display_board, get_display_token, login, fetch_orders, fetch_display_orders, chose_display,
  submitted_login, display_token_settled, login_settled, orders_settled, display_orders_settled,
}
use agentic_restaurant.StaffClient.App.Handlers.{
  on_display_token, on_login, on_login_settled, on_orders, on_display_orders, display_ui_session,
  user_ui_session,
}
use agentic_restaurant.StaffClient.App.Effects.{run_effects}
use agentic_restaurant.StaffClient.App.View.{
  screen, current_orders, mode_selection, credentials_form, connecting, interactive_lanes,
  display_lanes,
}
use agentic_restaurant.StaffClient.App.Step.{handle, react}
use agentic_restaurant.StaffClient.App.Quiet.{react-orders_settled, react-display_orders_settled}
use agentic_restaurant.StaffClient.App.Invariant.{Inv}

-- A board that has been loaded.
pub record IsLoaded (s : State) (session : UiSession) : Type 0 where
  pub signed : s.session ≡ some session
  pub idle : s.board_loading ≡ false
  pub clear : s.board_error ≡ none

-- The component after the display's token has arrived, and the board's first call is on its way.
abbrev opened : String → State → State
opened token s = record s {
  session = some (display_ui_session token);
  view = display_board;
  stored = some display_session;
  polling = some (record { token = token; mode = UiMode.display });
  board_loading = true;
  board_error = none;
}

react-display_token_settled :
    (s : State) (token : String)
    → s.session ≡ none
    → s.view ≡ display_loading
    → react (display_token_settled (resolved token)) s
      ≡ (opened token s, fetch_display_orders token ∷ [])
unfolding react handle run_effects on_display_token
react-display_token_settled s token k e = ground arith

react-chose_display :
    (s : State)
    → s.session ≡ none
    → s.view ≡ landing
    → react chose_display s
      ≡ (record s { view = display_loading; display_error = none }, get_display_token ∷ [])
unfolding react handle run_effects
react-chose_display s k e = ground arith

-- The component after a login, with the board's first call on its way.
abbrev logged_in : LoginResponse → State → State
logged_in response s = record s {
  session = some (user_ui_session response);
  view = interactive_board;
  stored = some (interactive_session response.access_token response.user);
  auth_loading = false;
  polling = some (record { token = response.access_token; mode = interactive });
  board_loading = true;
  board_error = none;
}

react-login_settled :
    (s : State) (response : LoginResponse)
    → s.session ≡ none
    → s.view ≡ interactive_credentials
    → react (login_settled (resolved response)) s
      ≡ (logged_in response s, fetch_orders response.access_token ∷ [])
unfolding react handle run_effects on_login_settled
react-login_settled s response k e = ground arith

react-submitted_login :
    (s : State)
    → s.session ≡ none
    → s.view ≡ interactive_credentials
    → react submitted_login s ≡ on_login s
unfolding react handle run_effects on_login
react-submitted_login s k e = ground arith

module _ (s : State) (v : Inv s) where
  signed_out :
      screen s ≡ mode_selection
      → (s.session ≡ none) × (s.view ≡ landing) × (s.active_tab ≡ dashboard)
  unfolding screen
  signed_out here = ground arith

  at_form :
      screen s ≡ credentials_form
      → (s.session ≡ none) × (s.view ≡ interactive_credentials) × (s.active_tab ≡ dashboard)
  unfolding screen
  at_form here = ground arith

  -- From the mode selection, in a state with the invariant, the choice of "Display" asks for the
  -- display's token; the token opens the board, which asks for the orders with that token; and the
  -- orders are shown.
  pub display_mode_entered :
      (token : String) (orders : List DisplayOrder)
      → screen s ≡ mode_selection
      → let a = react chose_display s in
        let b = react (display_token_settled (resolved token)) a.0 in
        let t = (react (display_orders_settled none (resolved orders)) b.0).0 in
        (a.1 ≡ get_display_token ∷ [])
        × (screen a.0 ≡ connecting)
        × (b.1 ≡ fetch_display_orders token ∷ [])
        × (screen t ≡ display_lanes)
        × IsLoaded t (display_ui_session token)
        × (current_orders t ≡ map display orders)
  unfolding screen on_display_orders current_orders
  display_mode_entered token orders here =
      let (k, e, d) = signed_out here in
      let u = record s { view = display_loading; display_error = none } in
      rw
        (
          react-chose_display s k e,
          react-display_token_settled u token k refl,
          react-display_orders_settled (opened token u) none (resolved orders),
        )
        (ground arith)

  -- From the sign-in form, in a state with the invariant, a login that succeeds opens the
  -- interactive board, which asks for the orders with the user's token; and the orders are shown.
  pub interactive_mode_entered :
      (response : LoginResponse) (orders : List ProductionOrder)
      → screen s ≡ credentials_form
      → let a = react submitted_login s in
        let b = react (login_settled (resolved response)) a.0 in
        let t = (react (orders_settled none (resolved orders)) b.0).0 in
        (a.1 ≡ login s.login_value s.password ∷ [])
        × (b.1 ≡ fetch_orders response.access_token ∷ [])
        × (screen t ≡ interactive_lanes)
        × IsLoaded t (user_ui_session response)
        × (current_orders t ≡ map production orders)
        × (t.auth_loading ≡ false)
  unfolding screen on_login on_orders current_orders
  interactive_mode_entered response orders here =
      let (k, e, d) = at_form here in
      let u = record s { auth_loading = true; auth_error = none } in
      rw
        (
          react-submitted_login s k e,
          react-login_settled u response k e,
          react-orders_settled (logged_in response u) none (resolved orders),
        )
        (ground arith)
