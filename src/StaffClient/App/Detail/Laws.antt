-- ===== src/StaffClient/App/Detail/Laws.antt =====
-- The controls of the detail.
use agentic_restaurant.Base.{
  String, ◌≡◌, refl, sym, ◌∙◌, Bool, true, false, Option, none, some, List, [], ◌∷◌, ◌++◌, arith,
  is_some, All, All-append, inl, inr,
}
use agentic_restaurant.UiCommon.Widgets.{Widget, Admits, error_if}
use agentic_restaurant.UiCommon.Widgets.Laws.{error_if-Admits}
use agentic_restaurant.ProductionService.{validate_transition}
use agentic_restaurant.StaffClient.Production.{
  ProductionItem, ItemCommand, pickup, block, resume, ready, command_name,
}
use agentic_restaurant.StaffClient.Board.{get_allowed_actions}
use agentic_restaurant.StaffClient.Board.Actions.{
  offers, is_command, get_allowed_actions-validate_transition,
}
use agentic_restaurant.StaffClient.App.{State, Event, clicked_command}
use agentic_restaurant.StaffClient.App.View.{
  detail_panel, DetailPanel, prompt, loading, failed, nothing, shown,
}
use agentic_restaurant.StaffClient.App.Step.{is_item}
use agentic_restaurant.StaffClient.App.Lanes.{Browser}
use agentic_restaurant.StaffClient.App.Detail.{
  HasCommand, HasCommandIn, optional_line, action_buttons, item_row, item_rows, detail_card,
  detail_of, render_interactive_detail,
}

is_command_refl : (c : ItemCommand) → is_command c c ≡ true
is_command_refl pickup = refl
is_command_refl block = refl
is_command_refl resume = refl
is_command_refl ready = refl

module _ (P : Event → Type 0) where
  optional_line-Admits :
      (label : String) (value : Option String) → All (Admits P) (optional_line label value)
  unfolding optional_line
  optional_line-Admits label none = tt
  optional_line-Admits label (some value) = ground arith

  module _ (browser : Browser) where
    action_buttons-Admits :
        (item : ProductionItem) (busy : Bool) (commands : List ItemCommand)
        → ((c : ItemCommand)
            → offers c commands ≡ true
            → busy ≡ false
            → P (clicked_command item.id c))
        → All (Admits P) (action_buttons browser item busy commands)
    unfolding action_buttons
    action_buttons-Admits item busy [] h = tt
    action_buttons-Admits item busy (c ∷ cs) h = (
      h c (rw (is_command_refl c)),
      action_buttons-Admits item busy cs (λ d o. h d (ground arith)),
    )

    item_row-Admits :
        (command_loading : Option String) (item : ProductionItem)
        → ((c : ItemCommand)
            → is_some (validate_transition item.status (command_name c)) ≡ true
            → is_item item.id command_loading ≡ false
            → P (clicked_command item.id c))
        → All (Admits P) (item_row browser command_loading item)
    unfolding item_row
    item_row-Admits command_loading item h =
        let actions : List (Widget Event) =
          action_buttons browser item (is_item item.id command_loading)
            (get_allowed_actions item) in
        (
          tt,
          (
            tt,
            (
              tt,
              All-append (Admits P) (optional_line "Picked by: " item.claimed_by_display_name)
                  (optional_line "Reason: " item.blocked_reason ++ actions)
                  (optional_line-Admits "Picked by: " item.claimed_by_display_name)
                  (All-append (Admits P) (optional_line "Reason: " item.blocked_reason) actions
                    (optional_line-Admits "Reason: " item.blocked_reason)
                    (action_buttons-Admits item (is_item item.id command_loading)
                      (get_allowed_actions item)
                      (λ c o. h c (sym (get_allowed_actions-validate_transition item c) ∙ o)))),
            ),
          ),
        )

    item_rows-Admits :
        (command_loading : Option String) (items : List ProductionItem)
        → ((item_id : String) (c : ItemCommand)
            → HasCommand item_id c items
            → is_item item_id command_loading ≡ false
            → P (clicked_command item_id c))
        → All (Admits P) (item_rows browser command_loading items)
    unfolding item_rows
    item_rows-Admits command_loading [] h = tt
    item_rows-Admits command_loading (item ∷ items) h =
        All-append (Admits P) (item_row browser command_loading item)
          (item_rows browser command_loading items)
          (item_row-Admits command_loading item (λ c v. h item.id c (inl (refl, v))))
          (item_rows-Admits command_loading items (λ id c k. h id c (inr k)))

    detail_of-Admits :
        (panel : DetailPanel) (s : State)
        → ((item_id : String) (c : ItemCommand)
            → HasCommandIn item_id c panel
            → is_item item_id s.command_loading ≡ false
            → P (clicked_command item_id c))
        → All (Admits P) (detail_of browser panel s)
    unfolding detail_of detail_card
    detail_of-Admits prompt s h = ground arith
    detail_of-Admits loading s h = ground arith
    detail_of-Admits (failed message) s h = ground arith
    detail_of-Admits nothing s h = tt
    detail_of-Admits (shown detail) s h = (
      tt,
      (
        tt,
        (
          tt,
          All-append (Admits P) (error_if s.command_error)
              (item_rows browser s.command_loading detail.items) (error_if-Admits P s.command_error)
              (item_rows-Admits s.command_loading detail.items h),
        ),
      ),
    )

    -- The controls of the detail are the commands that the production service admits for an item
    -- shown, unless one for that item is on its way.
    pub render_interactive_detail-Admits :
        (s : State)
        → ((item_id : String) (c : ItemCommand)
            → HasCommandIn item_id c (detail_panel s)
            → is_item item_id s.command_loading ≡ false
            → P (clicked_command item_id c))
        → All (Admits P) (render_interactive_detail browser s)
    unfolding render_interactive_detail
    render_interactive_detail-Admits s h = detail_of-Admits (detail_panel s) s h
