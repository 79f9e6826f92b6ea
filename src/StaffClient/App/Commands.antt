-- ===== src/StaffClient/App/Commands.antt =====
-- Commands on the items of the selected order.
use agentic_restaurant.Base.{
  ℕ, ◌<◌, String, ◌≡◌, false, none, some, List, [], ◌∷◌, arith, resolved, rejected, Thrown,
  message_or, ◌⊎◌,
}
use agentic_restaurant.StaffClient.Production.{
  ProductionOrder, OrderDetail, CommandResponse, ItemCommand,
}
use agentic_restaurant.StaffClient.Session.{interactive, UiSession}
use agentic_restaurant.StaffClient.App.{
  State, fetch_orders, fetch_order_detail, send_item_command, Captured, clicked_command,
  orders_settled, detail_settled, command_settled,
}
use agentic_restaurant.StaffClient.App.Handlers.{
  on_orders, load_detail, on_detail, on_item_command, on_command_settled, load_board,
}
use agentic_restaurant.StaffClient.App.View.{detail_panel, shown}
use agentic_restaurant.StaffClient.App.Step.{react}
use agentic_restaurant.StaffClient.App.Quiet.{react-clicked_command, quiet}

module _ (s : State) (session : UiSession) (id : ℕ) (signed : s.session ≡ some session)
    (staff : session.mode ≡ interactive) (selected : s.selected_order_id ≡ some id)
    (real : 0 < id) where
  sent :
      (item : String) (command : ItemCommand)
      → on_item_command item command s ≡ (
        record s { command_loading = some item; command_error = none },
        send_item_command session.access_token item command ∷ [],
      )
  unfolding on_item_command
  sent item command = ground arith

  -- For a user with an interactive session and an order selected, a command on an item that
  -- succeeds reloads that order and then the board, with the user's token, and shows both; the
  -- item's buttons are enabled again.
  pub command_succeeds :
      (item : String) (command : ItemCommand) (response : CommandResponse) (detail : OrderDetail)
      (orders : List ProductionOrder)
      → let c : Captured = record { session = session; order_id = id } in
        let a = react (clicked_command item command) s in
        let b = react (command_settled c (resolved response)) a.0 in
        let d = react (detail_settled (some c) (resolved detail)) b.0 in
        let t = (react (orders_settled (some c) (resolved orders)) d.0).0 in
        (a.1 ≡ send_item_command session.access_token item command ∷ [])
        × (b.1 ≡ fetch_order_detail session.access_token id ∷ [])
        × (d.1 ≡ fetch_orders session.access_token ∷ [])
        × (detail_panel t ≡ shown detail)
        × (t.orders ≡ orders)
        × (t.command_loading ≡ none)
        × (t.command_error ≡ none)
        × (t.board_loading ≡ false)
  unfolding load_detail on_command_settled on_detail on_orders detail_panel load_board
  command_succeeds item command response detail orders =
      simp (quiet, sent item command) (ground arith)

  -- For a user with an interactive session and an order selected, a command that fails leaves the
  -- order and the board as they were, makes no further call, and shows its message.
  pub command_fails :
      (item : String) (command : ItemCommand) (e : Thrown)
      → let c : Captured = record { session = session; order_id = id } in
        let a = react (clicked_command item command) s in
        let b = react (command_settled c (rejected e)) a.0 in
        (b.1 ≡ [])
        × (b.0.command_error ≡ some (message_or "Command failed." e))
        × (b.0.command_loading ≡ none)
        × (detail_panel b.0 ≡ detail_panel s)
        × (b.0.orders ≡ s.orders)
  unfolding on_command_settled detail_panel
  command_fails item command e = simp (quiet, sent item command) (ground arith)

-- Where no order is selected, or nobody is signed in, a command does nothing.
pub on_item_command-ignored :
    (s : State) (item : String) (command : ItemCommand)
    → (s.session ≡ none) ⊎ (s.selected_order_id ≡ none)
    → react (clicked_command item command) s ≡ (s, [])
unfolding on_item_command
on_item_command-ignored s item command h = rw (react-clicked_command s item command) (ground arith)
