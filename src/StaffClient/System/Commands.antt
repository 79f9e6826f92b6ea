-- ===== src/StaffClient/System/Commands.antt =====
-- Commands on several items, with the calls that they make.
use agentic_restaurant.Base.{
  ℕ, ◌≤◌, ◌≡◌, refl, ◌∙◌, String, true, false, some, none, [], ◌∷◌, str_eq, eq_refl, eq_iff, sym,
  subst, Bool-cases, inl, inr, arith,
}
use agentic_restaurant.StaffClient.Config.{ServiceBaseUrls}
use agentic_restaurant.StaffClient.Production.{ItemCommand}
use agentic_restaurant.StaffClient.Session.{UiSession}
use agentic_restaurant.StaffClient.App.{State, Captured, clicked_command}
use agentic_restaurant.StaffClient.App.Handlers.{on_item_command, capture}
use agentic_restaurant.StaffClient.App.Quiet.{run_effects-of_unchanged}
use agentic_restaurant.StaffClient.App.View.{screen, interactive_lanes, detail_panel}
use agentic_restaurant.StaffClient.App.Step.{handle, offered, is_shown, is_item}
use agentic_restaurant.StaffClient.System.{System, at_command, did, perform, act, act_all}

differ_sym : (x y : String) → str_eq x y ≡ false → str_eq y x ≡ false
differ_sym x y h = elim (Bool-cases (str_eq y x)) [
  | inr other ↦ other
  | inl same ↦
      let clash : true ≡ false =
        sym (eq_refl x) ∙ subst (λ z. str_eq x z ≡ false) ((eq_iff y x).0 same) h in
      absurd (ground (arith, clash))
]

module _ (urls : ServiceBaseUrls) (session : UiSession) (order_id : ℕ)
    (positive : 1 ≤ order_id) where
  abbrev captured : Captured
  captured = record { session = session; order_id = order_id }

  -- An order is selected on the interactive board, and its items are shown.
  pub record IsSelected (s : State) : Type 0 where
    pub here : screen s ≡ interactive_lanes
    pub signed_in : s.session ≡ some session
    pub selected : s.selected_order_id ≡ some order_id
    pub items : is_shown (detail_panel s) ≡ true

  abbrev sent : String → ItemCommand → System → System
  sent item_id command s = record {
    app = record s.app { command_loading = some item_id; command_error = none };
    awaited = at_command captured session.access_token item_id command ∷ s.awaited;
  }

  sent-IsSelected :
      (item_id : String) (command : ItemCommand) (s : System)
      → IsSelected s.app
      → IsSelected (sent item_id command s).app
  unfolding screen detail_panel
  sent-IsSelected item_id command s v = record {
    here = v.here;
    signed_in = v.signed_in;
    selected = v.selected;
    items = v.items;
  }

  captured-of_selected :
      (s : State) → IsSelected s → capture s.session s.selected_order_id ≡ some captured
  captured-of_selected s v = ground arith

  clicked_command-offered :
      (item_id : String) (command : ItemCommand) (s : State)
      → IsSelected s
      → is_item item_id s.command_loading ≡ false
      → offered (screen s) (clicked_command item_id command) s ≡ true
  unfolding detail_panel
  clicked_command-offered item_id command s v free = rw (v.here, v.items, free)

  perform-clicked_command :
      (item_id : String) (command : ItemCommand) (s : System)
      → IsSelected s.app
      → perform (clicked_command item_id command) s ≡ sent item_id command s
  unfolding perform handle on_item_command
  perform-clicked_command item_id command s v = rw (
    captured-of_selected s.app v,
    run_effects-of_unchanged s.app
        (record s.app { command_loading = some item_id; command_error = none }) refl refl,
  )

  act-clicked_command :
      (item_id : String) (command : ItemCommand) (s : System)
      → IsSelected s.app
      → is_item item_id s.app.command_loading ≡ false
      → act urls (did (clicked_command item_id command)) s ≡ sent item_id command s
  unfolding act
  act-clicked_command item_id command s v free =
      rw (clicked_command-offered item_id command s.app v free)
        (perform-clicked_command item_id command s v)

  -- On the interactive board, with the items of a selected order shown and no command on its way:
  -- after a command on one item and a command on another, the command on the first can be sent
  -- again while its first call is still awaited, and is sent twice.
  pub command_sent_twice :
      (s : System) (first second : String) (command other_command : ItemCommand)
      → IsSelected s.app
      → s.app.command_loading ≡ none
      → str_eq second first ≡ false
      → let t =
          act_all urls
            (did (clicked_command first command)
              ∷ did (clicked_command second other_command)
              ∷ did (clicked_command first command)
              ∷ [])
            s in
        t.awaited
        ≡ at_command captured session.access_token first command
          ∷ at_command captured session.access_token second other_command
          ∷ at_command captured session.access_token first command
          ∷ s.awaited
  unfolding act_all
  command_sent_twice s first second command other_command v idle other =
      let a : System = sent first command s in
      let b : System = sent second other_command a in
      let va = sent-IsSelected first command s v in
      rw (
        act-clicked_command first command s v (rw idle),
        act-clicked_command second other_command a va (differ_sym second first other),
        act-clicked_command first command b (sent-IsSelected second other_command a va) other,
      )
