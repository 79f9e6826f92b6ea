-- ===== src/StaffClient/App/Lanes.antt =====
-- The lanes of the board, as `renderLane` renders them. `toUpperCase`, `toLocaleTimeString`, the
-- reading of a date, the window's size and address, and the configured address are parameters.
pub mod Laws
pub mod Complete
use agentic_restaurant.Base.{
  ℕ, ◌≡◌, ◌⊎◌, String, Bool, true, false, Option, none, some, List, [], ◌∷◌, ◌++◌, if◌then◌else◌,
  length,
}
use agentic_restaurant.Base.Http.{Part, text, number}
use agentic_restaurant.UiCommon.QrCode.{Location}
use agentic_restaurant.UiCommon.Widgets.{Widget, caption, badge, button}
use agentic_restaurant.StaffClient.Production.{ItemStatusCounts, ProductionOrder, DisplayOrder}
use agentic_restaurant.StaffClient.Board.{
  BoardOrder, production, display, sort_orders_for_lane, lane_definitions,
}
use agentic_restaurant.StaffClient.Board.Actions.{has_lane}
use agentic_restaurant.StaffClient.App.{State, Event, toggled_lane, selected_order}
use agentic_restaurant.StaffClient.App.Texts.{status_label}
use agentic_restaurant.StaffClient.App.View.{status_tone, current_orders}

pub record Browser : Type 0 where
  pub inner_width : ℕ
  pub location : Location
  pub local_ip : Option String
  pub get_time : String → ℕ
  pub format_time : String → String
  pub to_upper_case : String → String

-- `renderEmojiSummary`, by the label of each chip
abbrev emoji_summary : ItemStatusCounts → List (Widget Event)
emoji_summary counts =
    caption (number counts.queued ∷ text " queued" ∷ [])
    ∷ caption (number counts.in_progress ∷ text " in progress" ∷ [])
    ∷ caption (number counts.blocked ∷ text " blocked" ∷ [])
    ∷ caption (number counts.ready ∷ text " ready" ∷ [])
    ∷ []

-- `order.UserDisplayName ?? \`User #${order.UserID}\``
abbrev pub customer_name : ProductionOrder → List Part
customer_name order = elim order.user_display_name [
  | some name ↦ text name ∷ []
  | none ↦ text "User #" ∷ number order.user_id ∷ []
]

module _ (browser : Browser) where
  display_card : DisplayOrder → List (Widget Event)
  unfolding status_label
  display_card order =
      caption (text "Order #" ∷ number order.order_id ∷ [])
      ∷ badge (text (status_label order.status) ∷ []) (status_tone order.status)
      ∷ (emoji_summary order.item_status_counts
          ++ caption (text (browser.format_time order.created_at) ∷ []) ∷ [])

  -- What is on the button follows it.
  production_card : ProductionOrder → List (Widget Event)
  unfolding status_label
  production_card order =
      button (text "Order #" ∷ number order.order_id ∷ []) false (selected_order order.order_id)
      ∷ badge (text (status_label order.status) ∷ []) (status_tone order.status)
      ∷ caption (customer_name order)
      ∷ (emoji_summary order.item_status_counts
          ++ caption (text (browser.format_time order.created_at) ∷ []) ∷ [])

  abbrev card : BoardOrder → List (Widget Event)
  unfolding display_card production_card
  card (display order) = display_card order
  card (production order) = production_card order

  cards : List BoardOrder → List (Widget Event)
  unfolding display_card production_card
  cards [] = []
  cards (order ∷ orders) = card order ++ cards orders

  -- `renderLane`
  render_lane : String → String → List BoardOrder → Bool → List (Widget Event)
  unfolding cards
  render_lane status label orders collapsed =
      button
        (text (browser.to_upper_case label)
          ∷ text " ("
          ∷ number (length orders)
          ∷ text ")"
          ∷ text (if collapsed then "▶" else "▼")
          ∷ [])
        false (toggled_lane status)
      ∷ (if collapsed then [] else cards orders)

  lanes : List (String × String) → List BoardOrder → (String → Bool) → List (Widget Event)
  unfolding render_lane
  lanes [] orders collapsed = []
  lanes ((status, label) ∷ definitions) orders collapsed =
      render_lane status label (sort_orders_for_lane browser.get_time orders status)
        (collapsed status)
      ++ lanes definitions orders collapsed

  -- The lanes of `renderBoardView`.
  unfoldable pub render_lanes : State → List (Widget Event)
  unfolding lanes current_orders
  render_lanes s = lanes lane_definitions (current_orders s) s.collapsed_lanes

-- An order that has a lane, which is not collapsed.
abbrev pub HasOrder : ℕ → (String → Bool) → List ProductionOrder → Type 0
HasOrder id collapsed [] = ⊥
HasOrder id collapsed (order ∷ orders) =
    ((order.order_id ≡ id)
      × (has_lane order.status lane_definitions ≡ true)
      × (collapsed order.status ≡ false))
    ⊎ HasOrder id collapsed orders
