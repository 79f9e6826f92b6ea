-- ===== src/StaffClient/Tests/Board.antt =====
-- Five orders on the board.
use agentic_restaurant.Base.{◌≡◌, true, List, [], ◌∷◌}
use agentic_restaurant.Base.Text.{utf16_length}
use agentic_restaurant.ProductionService.{validate_transition}
use agentic_restaurant.StaffClient.Production.{pickup}
use agentic_restaurant.StaffClient.Board.{
  BoardOrder, production, get_allowed_actions, sort_orders_for_lane,
}
use agentic_restaurant.StaffClient.Board.Lanes.{IsLane, sort_orders_for_lane-IsLane, with_status}
use agentic_restaurant.StaffClient.Board.Actions.{get_allowed_actions-validate_transition, offers}
use agentic_restaurant.StaffClient.Tests.{order, item}

abbrev board : List BoardOrder
board =
    production (order 1 "READY" "1")
    ∷ production (order 2 "QUEUED" "22")
    ∷ production (order 3 "QUEUED" "1")
    ∷ production (order 4 "READY" "22")
    ∷ production (order 5 "CANCELLED" "1")
    ∷ []

sort_orders_for_lane-IsLane_example :
    IsLane utf16_length "QUEUED"
      (with_status "QUEUED" board)
      (sort_orders_for_lane utf16_length board "QUEUED")
sort_orders_for_lane-IsLane_example = sort_orders_for_lane-IsLane utf16_length board "QUEUED"

get_allowed_actions-validate_transition_example :
    offers pickup (get_allowed_actions (item "QUEUED")) ≡ true
unfolding validate_transition
get_allowed_actions-validate_transition_example =
    get_allowed_actions-validate_transition (item "QUEUED") pickup
