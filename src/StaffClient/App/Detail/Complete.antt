-- ===== src/StaffClient/App/Detail/Complete.antt =====
-- What is in the detail: a button for every command that an item admits.
use agentic_restaurant.Base.{
  String, ◌≡◌, refl, sym, subst, ap, ◌∙◌, Bool, true, false, Option, some, List, [], ◌∷◌, arith,
  is_some, Bool-cases, inl, inr,
}
use agentic_restaurant.UiCommon.Widgets.{Causes, click, error_if}
use agentic_restaurant.UiCommon.Widgets.Laws.{
  Causes-here, Causes-cons, Causes-append_left, Causes-append_right,
}
use agentic_restaurant.ProductionService.{validate_transition}
use agentic_restaurant.StaffClient.Production.{
  ProductionItem, ItemCommand, pickup, block, resume, ready, command_name,
}
use agentic_restaurant.StaffClient.Board.{get_allowed_actions}
use agentic_restaurant.StaffClient.Board.Actions.{
  offers, is_command, get_allowed_actions-validate_transition,
}
use agentic_restaurant.StaffClient.App.{State, clicked_command}
use agentic_restaurant.StaffClient.App.View.{detail_panel, DetailPanel, shown}
use agentic_restaurant.StaffClient.App.Step.{is_item}
use agentic_restaurant.StaffClient.App.Lanes.{Browser}
use agentic_restaurant.StaffClient.App.Detail.{
  HasCommand, HasCommandIn, optional_line, action_buttons, item_row, item_rows, detail_card,
  detail_of, render_interactive_detail,
}

is_command_eq : (c d : ItemCommand) → is_command c d ≡ true → d ≡ c
is_command_eq pickup pickup h = refl
is_command_eq block block h = refl
is_command_eq resume resume h = refl
is_command_eq ready ready h = refl
is_command_eq _ _ h = absurd (ground arith)

module _ (browser : Browser) where
  action_buttons-Causes :
      (item : ProductionItem) (busy : Bool) (c : ItemCommand) (commands : List ItemCommand)
      → busy ≡ false
      → offers c commands ≡ true
      → Causes (clicked_command item.id c) (action_buttons browser item busy commands)
  unfolding action_buttons
  action_buttons-Causes item busy c [] b o = absurd (ground arith)
  action_buttons-Causes item busy c (d ∷ ds) b o = elim (Bool-cases (is_command c d)) [
    | inl e ↦
        Causes-here click _
          (rw b (ap (λ k. some (clicked_command item.id k)) (is_command_eq c d e)))
    | inr e ↦ Causes-cons (action_buttons-Causes item busy c ds b (rw (← o, e)))
  ]

  item_row-Causes :
      (command_loading : Option String) (item : ProductionItem) (c : ItemCommand)
      → is_item item.id command_loading ≡ false
      → is_some (validate_transition item.status (command_name c)) ≡ true
      → Causes (clicked_command item.id c) (item_row browser command_loading item)
  unfolding item_row
  item_row-Causes command_loading item c b o = Causes-cons (
      Causes-cons (
        Causes-cons (
          Causes-append_right (optional_line "Picked by: " item.claimed_by_display_name) (
            Causes-append_right (optional_line "Reason: " item.blocked_reason) (
              action_buttons-Causes item (is_item item.id command_loading) c
                (get_allowed_actions item) b
                (get_allowed_actions-validate_transition item c ∙ o))))))

  item_rows-Causes :
      (command_loading : Option String) (item_id : String) (c : ItemCommand)
      (items : List ProductionItem)
      → is_item item_id command_loading ≡ false
      → HasCommand item_id c items
      → Causes (clicked_command item_id c) (item_rows browser command_loading items)
  unfolding item_rows
  item_rows-Causes command_loading item_id c [] b h = absurd h
  item_rows-Causes command_loading item_id c (item ∷ items) b (inl (i, o)) =
      Causes-append_left (item_row browser command_loading item)
        (item_rows browser command_loading items)
        (subst (λ k. Causes (clicked_command k c) (item_row browser command_loading item)) i
          (item_row-Causes command_loading item c
            (subst (λ k. is_item k command_loading ≡ false) (sym i) b) o))
  item_rows-Causes command_loading item_id c (item ∷ items) b (inr h) =
      Causes-append_right (item_row browser command_loading item)
        (item_rows-Causes command_loading item_id c items b h)

  detail_of-Causes :
      (panel : DetailPanel) (s : State) (item_id : String) (c : ItemCommand)
      → is_item item_id s.command_loading ≡ false
      → HasCommandIn item_id c panel
      → Causes (clicked_command item_id c) (detail_of browser panel s)
  unfolding detail_of detail_card
  detail_of-Causes (shown detail) s item_id c b h = Causes-cons (
      Causes-cons (
        Causes-cons (
          Causes-append_right (error_if s.command_error)
            (item_rows-Causes s.command_loading item_id c detail.items b h))))
  detail_of-Causes _ s item_id c b h = absurd h

  -- Every command that the production service admits for an item shown has its button.
  pub command-Causes :
      (s : State) (item_id : String) (c : ItemCommand)
      → is_item item_id s.command_loading ≡ false
      → HasCommandIn item_id c (detail_panel s)
      → Causes (clicked_command item_id c) (render_interactive_detail browser s)
  unfolding render_interactive_detail
  command-Causes s item_id c b h = detail_of-Causes (detail_panel s) s item_id c b h
