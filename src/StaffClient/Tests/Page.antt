-- ===== src/StaffClient/Tests/Page.antt =====
-- A cook at the page of the interactive board, with an order selected.
use agentic_restaurant.Base.{◌↔◌, ◌≡◌, ◌≤◌, refl, true, none, some, List, [], ◌∷◌, length}
use agentic_restaurant.Base.Text.{utf16_length}
use agentic_restaurant.UiCommon.TextSize.{size1}
use agentic_restaurant.UiCommon.Widgets.{click, caused_at, Causes}
use agentic_restaurant.StaffClient.Production.{pickup}
use agentic_restaurant.StaffClient.Board.{get_allowed_actions, sort_orders_for_lane}
use agentic_restaurant.StaffClient.Session.{interactive_session}
use agentic_restaurant.StaffClient.App.{State, Event, initial, clicked_command, polled}
use agentic_restaurant.StaffClient.App.Effects.{mount}
use agentic_restaurant.StaffClient.App.View.{screen}
use agentic_restaurant.StaffClient.App.Step.{offered, run}
use agentic_restaurant.StaffClient.App.Lanes.{Browser}
use agentic_restaurant.StaffClient.App.Page.{page, IsOnPage}
use agentic_restaurant.StaffClient.App.Page.Complete.{page-offered_iff}
use agentic_restaurant.StaffClient.App.Browsing.{
  Action, Tab, gestured, arrived, resized, operate, operate-run,
}
use agentic_restaurant.StaffClient.Tests.{order, detail, cook}

abbrev browser : Browser
browser = record {
  inner_width = 1024;
  location = record { protocol = "http:"; hostname = "localhost"; port = "5174" };
  local_ip = none;
  get_time = utf16_length;
  format_time = λ time. time;
  to_upper_case = λ label. label;
}

abbrev at_board : State
at_board = record (mount (initial (some (interactive_session "cook-token" cook.user)) size1)).0 {
  orders = order 41 "QUEUED" "1" ∷ [];
  selected_order_id = some 41;
  order_detail = some (detail 41);
}

-- The button "Pickup" is the 26th thing on the page.
pickup_clicked : caused_at 25 click (page browser at_board) ≡ some (clicked_command "i-1" pickup)
unfolding caused_at page initial mount get_allowed_actions sort_orders_for_lane
pickup_clicked = refl

page-offered_iff_example : Causes (clicked_command "i-1" pickup) (page browser at_board) ↔ (
    (offered (screen at_board) (clicked_command "i-1" pickup) at_board ≡ true)
    × IsOnPage (clicked_command "i-1" pickup) at_board)
page-offered_iff_example = page-offered_iff browser at_board (clicked_command "i-1" pickup)

abbrev tab : Tab
tab = record { browser = browser; state = at_board; stored_text_size = none }

abbrev actions : List Action
actions = gestured 25 click ∷ resized 390 ∷ arrived polled ∷ []

operate-run_example :
    (es : List Event) × ((operate actions tab).state ≡ run es at_board)
    × (length es ≤ length actions)
operate-run_example = operate-run actions tab
