-- ===== src/StaffClient/Tests.antt =====
-- Runs of the staff client: a display, and a cook who works on the items of an order.
mod Page
mod Api
mod Board
mod Entry
mod Commands
mod System
mod Session
use agentic_restaurant.Base.{ℕ, String, none, [], ◌∷◌}
use agentic_restaurant.StaffClient.Production.{
  ItemStatusCounts, ProductionOrder, DisplayOrder, ProductionItem, OrderDetail, CommandResponse,
}
use agentic_restaurant.StaffClient.Api.{LoginResponse}
use agentic_restaurant.StaffClient.App.{login}

abbrev counts : ItemStatusCounts
counts = record { queued = 1; in_progress = 0; blocked = 0; ready = 0 }

abbrev order : ℕ → String → String → ProductionOrder
order id status time = record {
  order_id = id;
  external_request_id = "r";
  user_id = 7;
  user_display_name = none;
  status = status;
  total_item_count = 1;
  item_status_counts = counts;
  created_at = time;
  updated_at = time;
  ready_at = none;
  version = 1;
}

abbrev item : String → ProductionItem
item status = record {
  id = "i-1";
  order_id = 41;
  line_number = 1;
  unit_sequence = 1;
  source_item_key = "k";
  menu_item_id = 1;
  menu_item_name = "Soup";
  station_key = "hot";
  status = status;
  claimed_by_user_id = none;
  claimed_by_display_name = none;
  blocked_reason = none;
  created_at = "1";
  updated_at = "1";
  claimed_at = none;
  ready_at = none;
  version = 1;
}

abbrev detail : ℕ → OrderDetail
detail id = record { order = order id "QUEUED" "1"; items = item "QUEUED" ∷ [] }

abbrev shown_on_display : DisplayOrder
shown_on_display = record {
  order_id = 41;
  status = "QUEUED";
  total_item_count = 1;
  item_status_counts = counts;
  created_at = "1";
  updated_at = "1";
}

abbrev cook : LoginResponse
cook = record {
  access_token = "cook-token";
  token_type = "Bearer";
  expires_in_seconds = 3600;
  user = record { id = 3; login = "cook"; display_name = none; client_type = none };
}

abbrev picked_up : CommandResponse
picked_up = record {
  item_id = "i-1";
  order_id = 41;
  status = "IN_PROGRESS";
  command = "pickup";
  executed_by = "cook";
}
