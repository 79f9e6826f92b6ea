-- ===== src/StaffClient/Production.antt =====
-- features/production/types.ts: orders, items and commands.
use agentic_restaurant.Base.{ℕ, String, Option, List}

pub record ItemStatusCounts : Type 0 where
  pub queued : ℕ
  pub in_progress : ℕ
  pub blocked : ℕ
  pub ready : ℕ

pub record ProductionOrder : Type 0 where
  pub order_id : ℕ
  pub external_request_id : String
  pub user_id : ℕ
  pub user_display_name : Option String
  pub status : String
  pub total_item_count : ℕ
  pub item_status_counts : ItemStatusCounts
  pub created_at : String
  pub updated_at : String
  pub ready_at : Option String
  pub version : ℕ

pub record DisplayOrder : Type 0 where
  pub order_id : ℕ
  pub status : String
  pub total_item_count : ℕ
  pub item_status_counts : ItemStatusCounts
  pub created_at : String
  pub updated_at : String

pub record ProductionItem : Type 0 where
  pub id : String
  pub order_id : ℕ
  pub line_number : ℕ
  pub unit_sequence : ℕ
  pub source_item_key : String
  pub menu_item_id : ℕ
  pub menu_item_name : String
  pub station_key : String
  pub status : String
  pub claimed_by_user_id : Option ℕ
  pub claimed_by_display_name : Option String
  pub blocked_reason : Option String
  pub created_at : String
  pub updated_at : String
  pub claimed_at : Option String
  pub ready_at : Option String
  pub version : ℕ

pub record OrderDetail : Type 0 where
  pub order : ProductionOrder
  pub items : List ProductionItem

pub record CommandResponse : Type 0 where
  pub item_id : String
  pub order_id : ℕ
  pub status : String
  pub command : String
  pub executed_by : String

pub data ItemCommand : Type 0 where
  pickup block resume ready : ItemCommand

abbrev pub command_name : ItemCommand → String
command_name pickup = "pickup"
command_name block = "block"
command_name resume = "resume"
command_name ready = "ready"

abbrev pub status_queued : String
status_queued = "QUEUED"

abbrev pub status_in_progress : String
status_in_progress = "IN_PROGRESS"

abbrev pub status_blocked : String
status_blocked = "BLOCKED"

abbrev pub status_ready : String
status_ready = "READY"

abbrev pub status_cancelled : String
status_cancelled = "CANCELLED"
