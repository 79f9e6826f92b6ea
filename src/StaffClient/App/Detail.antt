-- ===== src/StaffClient/App/Detail.antt =====
-- The selected order's detail, as `renderInteractiveDetail` renders it.
pub mod Laws
pub mod Complete
use agentic_restaurant.Base.{
  ◌≡◌, ◌⊎◌, is_some, String, Bool, true, Option, none, some, List, [], ◌∷◌, ◌++◌, if◌then◌else◌,
}
use agentic_restaurant.Base.Json.{is_text}
use agentic_restaurant.Base.Http.{Part, text, number}
use agentic_restaurant.UiCommon.Widgets.{
  Widget, caption, badge, button, error_text, error_if, info_card,
}
use agentic_restaurant.StaffClient.Production.{
  ProductionItem, OrderDetail, ItemCommand, command_name,
}
use agentic_restaurant.StaffClient.Board.{get_allowed_actions}
use agentic_restaurant.ProductionService.{validate_transition}
use agentic_restaurant.StaffClient.App.{State, Event, clicked_command}
use agentic_restaurant.StaffClient.App.View.{
  DetailPanel, prompt, loading, failed, nothing, shown, detail_panel, status_tone,
}
use agentic_restaurant.StaffClient.App.Texts.{status_label, first, rest}
use agentic_restaurant.StaffClient.App.Lanes.{Browser, customer_name}
use agentic_restaurant.StaffClient.App.Step.{is_item}

optional_line : String → Option String → List (Widget Event)
optional_line label none = []
optional_line label (some value) =
    if is_text value then caption (text label ∷ text value ∷ []) ∷ [] else []

module _ (browser : Browser) where
  open browser use {to_upper_case}

  -- `command.charAt(0).toUpperCase() + command.slice(1)`
  abbrev command_label : ItemCommand → List Part
  command_label command =
      text (to_upper_case (first (command_name command))) ∷ text (rest (command_name command)) ∷ []

  action_buttons : ProductionItem → Bool → List ItemCommand → List (Widget Event)
  action_buttons item is_loading [] = []
  action_buttons item is_loading (command ∷ commands) =
      button (command_label command) is_loading (clicked_command item.id command)
      ∷ action_buttons item is_loading commands

  item_row : Option String → ProductionItem → List (Widget Event)
  unfolding action_buttons optional_line status_label
  item_row command_loading item =
      caption (text item.menu_item_name ∷ [])
      ∷ caption (text "L" ∷ number item.line_number ∷ text "U" ∷ number item.unit_sequence ∷ [])
      ∷ badge (text (status_label item.status) ∷ []) (status_tone item.status)
      ∷ (optional_line "Picked by: " item.claimed_by_display_name
          ++ (optional_line "Reason: " item.blocked_reason
              ++ action_buttons item (is_item item.id command_loading) (get_allowed_actions item)))

  item_rows : Option String → List ProductionItem → List (Widget Event)
  unfolding item_row
  item_rows command_loading [] = []
  item_rows command_loading (item ∷ items) =
      item_row command_loading item ++ item_rows command_loading items

  detail_card : State → OrderDetail → List (Widget Event)
  unfolding item_rows status_label
  detail_card s detail =
      info_card (text "Order #" ∷ number detail.order.order_id ∷ [])
        (text "Customer: " ∷ customer_name detail.order)
        (badge (text (status_label detail.order.status) ∷ []) (status_tone detail.order.status)
          ∷ (error_if s.command_error ++ item_rows s.command_loading detail.items))

  detail_of : DetailPanel → State → List (Widget Event)
  unfolding detail_card
  detail_of prompt s =
      info_card (text "Order detail" ∷ [])
        (text "Select an order from a lane to inspect items and commands." ∷ [])
        (caption (text "Select an order to view details." ∷ []) ∷ [])
  detail_of loading s =
      info_card (text "Order detail" ∷ []) (text "Loading the latest production information." ∷ [])
        (caption (text "Loading order detail..." ∷ []) ∷ [])
  detail_of (failed message) s =
      info_card (text "Order detail" ∷ []) (text "The detail request failed." ∷ [])
        (error_text (text message ∷ []) ∷ [])
  detail_of nothing s = []
  detail_of (shown detail) s = detail_card s detail

  -- `renderInteractiveDetail`
  unfoldable pub render_interactive_detail : State → List (Widget Event)
  unfolding detail_of detail_panel
  render_interactive_detail s = detail_of (detail_panel s) s

-- The production service admits the command for an item of this id.
abbrev pub HasCommand : String → ItemCommand → List ProductionItem → Type 0
HasCommand item_id command [] = ⊥
HasCommand item_id command (item ∷ items) =
    ((item.id ≡ item_id)
      × (is_some (validate_transition item.status (command_name command)) ≡ true))
    ⊎ HasCommand item_id command items

abbrev pub HasCommandIn : String → ItemCommand → DetailPanel → Type 0
HasCommandIn item_id command (shown detail) = HasCommand item_id command detail.items
HasCommandIn item_id command _ = ⊥
