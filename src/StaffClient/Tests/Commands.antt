-- ===== src/StaffClient/Tests/Commands.antt =====
-- A cook at the interactive board.
use agentic_restaurant.Base.{
  ◌≡◌, refl, false, none, some, [], ◌∷◌, arith, resolved, rejected, error,
}
use agentic_restaurant.UiCommon.TextSize.{size1}
use agentic_restaurant.StaffClient.Production.{pickup}
use agentic_restaurant.StaffClient.Session.{interactive, user_auth, UiSession, interactive_session}
use agentic_restaurant.StaffClient.App.{
  State, Captured, initial, selected_order, clicked_command, orders_settled, detail_settled,
  command_settled, fetch_orders, fetch_order_detail, send_item_command,
}
use agentic_restaurant.StaffClient.App.Effects.{mount}
use agentic_restaurant.StaffClient.App.View.{detail_panel, shown}
use agentic_restaurant.StaffClient.App.Step.{react}
use agentic_restaurant.StaffClient.App.Commands.{command_succeeds, command_fails}
use agentic_restaurant.StaffClient.App.Races.{detail_of_other_order}
use agentic_restaurant.StaffClient.Tests.{picked_up, detail, cook}

abbrev cook_session : UiSession
cook_session = record {
  mode = interactive;
  auth_kind = user_auth;
  access_token = "cook-token";
  user = some cook.user;
}

-- The interactive board after a reload, with order 41 selected and shown.
abbrev at_board : State
at_board = record (mount (initial (some (interactive_session "cook-token" cook.user)) size1)).0 {
  session = some cook_session;
  selected_order_id = some 41;
  order_detail = some (detail 41);
}

abbrev captured : Captured
captured = record { session = cook_session; order_id = 41 }

command_succeeds_example :
    let a = react (clicked_command "i-1" pickup) at_board in
    let b = react (command_settled captured (resolved picked_up)) a.0 in
    let d = react (detail_settled (some captured) (resolved (detail 41))) b.0 in
    let t = (react (orders_settled (some captured) (resolved [])) d.0).0 in
    (a.1 ≡ send_item_command "cook-token" "i-1" pickup ∷ [])
    × (b.1 ≡ fetch_order_detail "cook-token" 41 ∷ [])
    × (d.1 ≡ fetch_orders "cook-token" ∷ [])
    × (detail_panel t ≡ shown (detail 41))
    × (t.orders ≡ [])
    × (t.command_loading ≡ none)
    × (t.command_error ≡ none)
    × (t.board_loading ≡ false)
command_succeeds_example =
    command_succeeds at_board cook_session 41 refl refl refl (omega arith) "i-1" pickup picked_up
      (detail 41) []

command_fails_example :
    let a = react (clicked_command "i-1" pickup) at_board in
    let b = react (command_settled captured (rejected (error "Conflict."))) a.0 in
    (b.1 ≡ [])
    × (b.0.command_error ≡ some "Conflict.")
    × (b.0.command_loading ≡ none)
    × (detail_panel b.0 ≡ detail_panel at_board)
    × (b.0.orders ≡ at_board.orders)
command_fails_example =
    command_fails at_board cook_session 41 refl refl refl (omega arith) "i-1" pickup
      (error "Conflict.")

detail_of_other_order_example :
    let a = react (selected_order 41) at_board in
    let b = react (selected_order 42) a.0 in
    let c = react (detail_settled none (resolved (detail 42))) b.0 in
    let t = (react (detail_settled none (resolved (detail 41))) c.0).0 in
    (a.1 ≡ fetch_order_detail "cook-token" 41 ∷ [])
    × (b.1 ≡ fetch_order_detail "cook-token" 42 ∷ [])
    × (t.selected_order_id ≡ some 42)
    × (detail_panel t ≡ shown (detail 41))
detail_of_other_order_example =
    detail_of_other_order at_board cook_session 41 42 (detail 41) (detail 42) refl

order_shown : detail_panel at_board ≡ shown (detail 41)
unfolding detail_panel mount initial
order_shown = refl
