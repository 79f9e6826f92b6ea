-- ===== src/OrdersClient/Tests/Page.antt =====
-- A signed-in user at the page, with a window of 1024 pixels.
use agentic_restaurant.Base.{true, ◌≡◌, ◌≤◌, ◌↔◌, refl, none, some, List, [], ◌∷◌, length, resolved}
use agentic_restaurant.UiCommon.TextSize.{size1}
use agentic_restaurant.UiCommon.Widgets.{click, caused_at, Causes}
use agentic_restaurant.OrdersClient.App.{State, Event, placed_order, order_settled, initial}
use agentic_restaurant.OrdersClient.App.View.{screen}
use agentic_restaurant.OrdersClient.App.Step.{offered, run}
use agentic_restaurant.OrdersClient.App.Page.{Browser, IsOnPage, page}
use agentic_restaurant.OrdersClient.App.Page.Complete.{page_iff}
use agentic_restaurant.OrdersClient.App.Browsing.{
  Action, Tab, gestured, arrived, resized, browse, browse-run,
}
use agentic_restaurant.OrdersClient.Tests.{session, soup, two_lines, receipt}

abbrev browser : Browser
browser = record {
  inner_width = 1024;
  location = record { protocol = "http:"; hostname = "localhost"; port = "5173" };
  local_ip = none;
  format_amount = λ _. "1";
}

abbrev at_home : State
at_home = record (initial (some session) size1) { basket = two_lines; menu_items = soup ∷ [] }

-- The button "Submit Order" is the 27th thing on the page.
submit_clicked : caused_at 26 click (page browser at_home) ≡ some placed_order
unfolding caused_at page initial
submit_clicked = refl

page_iff_example :
    Causes placed_order (page browser at_home)
    ↔ ((offered (screen at_home) placed_order at_home ≡ true) × IsOnPage placed_order at_home)
page_iff_example = page_iff browser at_home placed_order

abbrev tab : Tab
tab = record { browser = browser; state = at_home; stored_text_size = none }

abbrev order_placed : List Action
order_placed = gestured 26 click ∷ resized 390 ∷ arrived (order_settled (resolved receipt)) ∷ []

browse-run_example :
    (es : List Event) × ((browse order_placed tab).state ≡ run es at_home)
    × (length es ≤ length order_placed)
browse-run_example = browse-run order_placed tab
