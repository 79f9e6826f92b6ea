-- ===== src/StaffClient/App/Quiet.antt =====
-- Events after which no effect runs, since neither the view nor the session has changed.
use agentic_restaurant.Base.{
  ℕ, String, ◌≡◌, refl, true, Option, none, some, List, [], arith, Outcome, eq_refl,
}
use agentic_restaurant.StaffClient.Production.{
  ProductionOrder, DisplayOrder, OrderDetail, CommandResponse, ItemCommand,
}
use agentic_restaurant.StaffClient.App.{
  State, Event, selected_order, clicked_command, Caller, Captured, orders_settled,
  display_orders_settled, detail_settled, command_settled,
}
use agentic_restaurant.StaffClient.App.Handlers.{
  on_orders, on_display_orders, on_detail, on_command_settled, load_detail, on_item_command,
}
use agentic_restaurant.StaffClient.App.Effects.{run_effects, same_token, token_of}
use agentic_restaurant.StaffClient.App.Step.{handle, react}
use mathlib.Core.List.{append-nil}

same_token_refl : (x : Option String) → same_token x x ≡ true
same_token_refl none = refl
same_token_refl (some a) = eq_refl a

pub run_effects-of_unchanged :
    (s t : State) → t.view ≡ s.view → t.session ≡ s.session → run_effects s t ≡ (t, [])
unfolding run_effects
run_effects-of_unchanged s t v k = ground (arith, same_token_refl (token_of s.session))

pub react_of_unchanged :
    (e : Event) (s : State)
    → (handle e s).0.view ≡ s.view
    → (handle e s).0.session ≡ s.session
    → react e s ≡ handle e s
unfolding react
react_of_unchanged e s v k =
    rw (run_effects-of_unchanged s (handle e s).0 v k) (rw (append-nil (handle e s).1))

module _ (s : State) (caller : Caller) where
  pub react-orders_settled :
      (o : Outcome (List ProductionOrder))
      → react (orders_settled caller o) s ≡ (on_orders caller o s, [])
  unfolding handle on_orders
  react-orders_settled o =
      react_of_unchanged (orders_settled caller o) s (ground arith) (ground arith)

  pub react-display_orders_settled :
      (o : Outcome (List DisplayOrder))
      → react (display_orders_settled caller o) s ≡ (on_display_orders caller o s, [])
  unfolding handle on_display_orders
  react-display_orders_settled o =
      react_of_unchanged (display_orders_settled caller o) s (ground arith) (ground arith)

  pub react-detail_settled :
      (o : Outcome OrderDetail) → react (detail_settled caller o) s ≡ on_detail caller o s
  unfolding handle on_detail
  react-detail_settled o =
      react_of_unchanged (detail_settled caller o) s (ground arith) (ground arith)

module _ (s : State) where
  pub react-command_settled :
      (c : Captured) (o : Outcome CommandResponse)
      → react (command_settled c o) s ≡ on_command_settled c o s
  unfolding handle on_command_settled
  react-command_settled c o =
      react_of_unchanged (command_settled c o) s (ground arith) (ground arith)

  pub react-selected_order : (id : ℕ) → react (selected_order id) s ≡ load_detail s.session id s
  unfolding handle load_detail
  react-selected_order id = react_of_unchanged (selected_order id) s (ground arith) (ground arith)

  pub react-clicked_command :
      (item_id : String) (command : ItemCommand)
      → react (clicked_command item_id command) s ≡ on_item_command item_id command s
  unfolding handle on_item_command
  react-clicked_command item_id command =
      react_of_unchanged (clicked_command item_id command) s (ground arith) (ground arith)

pub ruleset quiet = (
  react-orders_settled, react-display_orders_settled, react-detail_settled, react-command_settled,
  react-selected_order, react-clicked_command,
)
