-- ===== src/StaffClient/App/Races.antt =====
-- Outcomes that arrive late.
use agentic_restaurant.Base.{ℕ, String, ◌≡◌, true, none, some, List, [], ◌∷◌, map, arith, resolved}
use agentic_restaurant.StaffClient.Production.{ProductionOrder, OrderDetail}
use agentic_restaurant.StaffClient.Api.{LoginResponse}
use agentic_restaurant.StaffClient.Board.{production}
use agentic_restaurant.StaffClient.Session.{UiSession}
use agentic_restaurant.StaffClient.App.{
  State, display_loading, clear_display_token, fetch_order_detail, selected_order, detail_settled,
  orders_settled, chose_dashboard, display_token_settled, logged_out, fetch_display_orders,
  login_settled, chose_interactive, is_board_view,
}
use agentic_restaurant.StaffClient.App.Handlers.{
  load_detail, on_detail, on_orders, go_back_to_landing, reset_all_state, on_display_token,
  display_ui_session, on_login_settled,
}
use agentic_restaurant.StaffClient.App.View.{
  detail_panel, shown, screen, mode_selection, display_lanes, current_orders,
}
use agentic_restaurant.StaffClient.App.Effects.{run_effects}
use agentic_restaurant.StaffClient.App.Step.{handle, react}
use agentic_restaurant.StaffClient.App.Quiet.{quiet}
use agentic_restaurant.StaffClient.App.Invariant.{Inv}

-- For a user with a session: if a second order is selected while the first one's detail is on its
-- way, and the first one's arrives last, the panel shows the first order while the second is the
-- selected one.
pub detail_of_other_order :
    (s : State) (session : UiSession) (first second : ℕ) (of_first of_second : OrderDetail)
    → s.session ≡ some session
    → let a = react (selected_order first) s in
      let b = react (selected_order second) a.0 in
      let c = react (detail_settled none (resolved of_second)) b.0 in
      let t = (react (detail_settled none (resolved of_first)) c.0).0 in
      (a.1 ≡ fetch_order_detail session.access_token first ∷ [])
      × (b.1 ≡ fetch_order_detail session.access_token second ∷ [])
      × (t.selected_order_id ≡ some second)
      × (detail_panel t ≡ shown of_first)
unfolding load_detail on_detail detail_panel
detail_of_other_order s session first second of_first of_second signed =
    simp (quiet, signed) (ground arith)

-- In a state with the invariant: going back from the display's loading screen clears the token,
-- but does not stop the call for it: when its token arrives, the display board opens by itself,
-- over the mode selection.
pub display_opens_after_back :
    (s : State) (token : String)
    → Inv s
    → s.view ≡ display_loading
    → let a = react chose_dashboard s in
      let b = react (display_token_settled (resolved token)) a.0 in
      (screen a.0 ≡ mode_selection)
      × (a.1 ≡ clear_display_token ∷ [])
      × (screen b.0 ≡ display_lanes)
      × (b.0.session ≡ some (display_ui_session token))
      × (b.1 ≡ fetch_display_orders token ∷ [])
unfolding react handle run_effects go_back_to_landing on_display_token screen
display_opens_after_back s token v here = ground arith

-- Orders that arrive after a logout from a board are kept, and are what the next user sees until
-- the board is loaded again.
pub orders_of_other_user :
    (s : State) (orders : List ProductionOrder) (next : LoginResponse)
    → is_board_view s.view ≡ true
    → let a = (react logged_out s).0 in
      let b = (react (orders_settled none (resolved orders)) a).0 in
      let c = (react chose_interactive b).0 in
      let t = (react (login_settled (resolved next)) c).0 in
      (a.orders ≡ []) × (current_orders t ≡ map production orders)
unfolding react handle run_effects reset_all_state on_orders on_login_settled current_orders
orders_of_other_user s orders next here = ground arith
