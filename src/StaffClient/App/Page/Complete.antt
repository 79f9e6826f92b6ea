-- ===== src/StaffClient/App/Page/Complete.antt =====
-- What the machine of Step offers is what a user can do on the page.
use agentic_restaurant.Base.{
  String, ◌≡◌, ◌↔◌, ◌⊎◌, refl, sym, subst, ap, Bool, true, false, not, ◌&&◌, [], ◌∷◌, if◌then◌else◌,
  arith, inl, inr,
}
use agentic_restaurant.Base.Http.{text}
use agentic_restaurant.UiCommon.TextSize.{TextSize}
use agentic_restaurant.UiCommon.Widgets.{caption, Causes, click, typed, sized, error_if}
use agentic_restaurant.UiCommon.Widgets.Laws.{
  Causes-here, Causes-cons, Causes-append_left, Causes-append_right,
}
use agentic_restaurant.StaffClient.Production.{ItemCommand}
use agentic_restaurant.StaffClient.App.{
  State, Event, AppView, landing, interactive_credentials, display_loading, interactive_board,
  display_board, ActiveTab, dashboard, settings, chose_interactive, chose_display, typed_login,
  typed_password, submitted_login, went_back, chose_dashboard, chose_settings, logged_out,
  refreshed, toggled_lane, selected_order, clicked_command, changed_text_size, is_board_view,
}
use agentic_restaurant.StaffClient.App.View.{
  Screen, screen, dashboard_content, is_display, has_error, detail_panel, interactive_lanes,
  display_lanes, mode_selection, credentials_form, connecting, settings_view,
}
use agentic_restaurant.StaffClient.App.Step.{offered, is_item}
use agentic_restaurant.StaffClient.App.Lanes.{Browser, render_lanes}
use agentic_restaurant.StaffClient.App.Lanes.Complete.{toggle-Causes, order-Causes}
use agentic_restaurant.StaffClient.App.Page.{
  IsOnPage, navigation, mode_chip, user_of, signed_in_as, toolbar, board, has_orders,
  render_board_view, render_mode_selection, render_credentials, render_display_loading,
  dashboard_of, content_of, page,
}
use agentic_restaurant.StaffClient.App.Detail.{render_interactive_detail, HasCommandIn}
use agentic_restaurant.StaffClient.App.Detail.Complete.{command-Causes}
use agentic_restaurant.StaffClient.App.Page.Laws.{page-offered}

-- The controls of the navigation.
abbrev IsDrawer : Event → Type 0
IsDrawer chose_dashboard = Unit
IsDrawer chose_settings = Unit
IsDrawer (changed_text_size _) = Unit
IsDrawer logged_out = Unit
IsDrawer _ = ⊥

module _ (browser : Browser) where
  module _ (s : State) where
    logout-Causes : is_board_view s.view ≡ true → Causes logged_out (navigation s)
    unfolding navigation
    logout-Causes h = Causes-cons (Causes-cons (Causes-cons (rw h (Causes-here click [] refl))))

    dashboard-Causes : Causes chose_dashboard (navigation s)
    unfolding navigation
    dashboard-Causes = Causes-here click _ refl

    settings-Causes : Causes chose_settings (navigation s)
    unfolding navigation
    settings-Causes = Causes-cons (Causes-here click _ refl)

    size-Causes : (size : TextSize) → Causes (changed_text_size size) (navigation s)
    unfolding navigation
    size-Causes size = Causes-cons (Causes-cons (Causes-here (sized size) _ refl))

    refresh-Causes : s.board_loading ≡ false → Causes refreshed (toolbar browser s)
    unfolding toolbar
    refresh-Causes h = Causes-append_right (mode_chip s.session) (
        Causes-append_right (signed_in_as (is_display s.view) (user_of s.session))
          (Causes-here click [] (rw h)))

    render_board_view-toolbar :
        {e : Event} → Causes e (toolbar browser s) → Causes e (render_board_view browser s)
    unfolding render_board_view
    render_board_view-toolbar c = Causes-append_left (toolbar browser s) _ c

    render_board_view-board :
        {e : Event} → Causes e (board browser s) → Causes e (render_board_view browser s)
    unfolding render_board_view
    render_board_view-board c = Causes-append_right (toolbar browser s) (
        Causes-append_right
          (if s.board_loading && not (has_orders s)
            then caption (text "Loading orders..." ∷ []) ∷ []
            else [])
          (Causes-append_right (error_if s.board_error) (Causes-append_left (board browser s) _ c)))

    lanes-Causes :
        {e : Event} → Causes e (render_lanes browser s) → Causes e (render_board_view browser s)
    unfolding board
    lanes-Causes c = render_board_view-board (Causes-append_left (render_lanes browser s) _ c)

    detail-Causes :
        (item_id : String) (c : ItemCommand)
        → s.view ≡ interactive_board
        → is_item item_id s.command_loading ≡ false
        → HasCommandIn item_id c (detail_panel s)
        → Causes (clicked_command item_id c) (render_board_view browser s)
    unfolding board
    detail-Causes item_id c v b h = render_board_view-board (
        Causes-append_right (render_lanes browser s) (
          subst
            (λ d.
              Causes (clicked_command item_id c)
                (if d then [] else render_interactive_detail browser s))
            (sym (ap is_display v)) (command-Causes browser s item_id c b h)))

    of_not : (b : Bool) → not b ≡ true → b ≡ false
    of_not b h = ground arith

    -- The controls in the navigation, which are on every screen.
    at_navigation :
        (here : Screen) (e : Event) → IsDrawer e → offered here e s ≡ true → Causes e (navigation s)
    unfolding detail_panel
    at_navigation here chose_dashboard d o = dashboard-Causes
    at_navigation here chose_settings d o = settings-Causes
    at_navigation here (changed_text_size size) d o = size-Causes size
    at_navigation settings_view logged_out d o = logout-Causes o
    at_navigation mode_selection logged_out d o = logout-Causes o
    at_navigation credentials_form logged_out d o = logout-Causes o
    at_navigation connecting logged_out d o = logout-Causes o
    at_navigation interactive_lanes logged_out d o = logout-Causes o
    at_navigation display_lanes logged_out d o = logout-Causes o
    at_navigation here _ d o = absurd d

    at_connecting : has_error s.display_error ≡ true → Causes went_back (render_display_loading s)
    unfolding render_display_loading
    at_connecting h = Causes-cons (
        Causes-cons (
          Causes-cons
            (rw h (Causes-append_right (error_if s.display_error) (Causes-here click [] refl)))))

    at_view :
        (v : AppView) (e : Event)
        → s.view ≡ v
        → offered (dashboard_content v) e s ≡ true
        → IsOnPage e s
        → IsDrawer e ⊎ Causes e (dashboard_of browser v s)
    unfolding dashboard_of render_mode_selection render_credentials detail_panel
    at_view v chose_dashboard w o p = inl tt
    at_view v chose_settings w o p = inl tt
    at_view v (changed_text_size size) w o p = inl tt
    at_view v logged_out w o p = inl tt
    at_view landing chose_interactive w o p = inr (Causes-here click _ refl)
    at_view landing chose_display w o p = inr (Causes-cons (Causes-here click _ refl))
    at_view interactive_credentials (typed_login value) w o p =
        inr (Causes-cons (Causes-cons (Causes-here (typed value) _ refl)))
    at_view interactive_credentials (typed_password value) w o p =
        inr (Causes-cons (Causes-cons (Causes-cons (Causes-here (typed value) _ refl))))
    at_view interactive_credentials went_back w o p =
        inr (Causes-cons (Causes-cons (Causes-cons (Causes-cons (Causes-here click _ refl)))))
    at_view interactive_credentials submitted_login w o p = inr (
        Causes-cons (
          Causes-cons (
            Causes-cons
              (Causes-cons (Causes-cons (Causes-here click _ (rw (of_not s.auth_loading o, p))))))))
    at_view display_loading went_back w o p = inr (at_connecting o)
    at_view interactive_board refreshed w o p =
        inr (render_board_view-toolbar (refresh-Causes (of_not s.board_loading o)))
    at_view interactive_board (toggled_lane status) w o p =
        inr (lanes-Causes (toggle-Causes browser s status p))
    at_view interactive_board (selected_order id) w o p =
        inr (lanes-Causes (order-Causes browser s id (ap is_display w) p))
    at_view interactive_board (clicked_command item_id c) w o p =
        inr (detail-Causes item_id c w (ground (arith, o)) p)
    at_view display_board refreshed w o p =
        inr (render_board_view-toolbar (refresh-Causes (of_not s.board_loading o)))
    at_view display_board (toggled_lane status) w o p =
        inr (lanes-Causes (toggle-Causes browser s status p))
    at_view landing _ w o p = absurd (ground arith)
    at_view interactive_credentials _ w o p = absurd (ground arith)
    at_view display_loading _ w o p = absurd (ground arith)
    at_view interactive_board _ w o p = absurd (ground arith)
    at_view display_board _ w o p = absurd (ground arith)

    at_settings : (e : Event) → offered settings_view e s ≡ true → IsOnPage e s → IsDrawer e
    unfolding detail_panel
    at_settings chose_dashboard o p = tt
    at_settings chose_settings o p = tt
    at_settings (changed_text_size size) o p = tt
    at_settings logged_out o p = tt
    at_settings _ o p = absurd (ground arith)

    at_tab :
        (tab : ActiveTab) (e : Event)
        → offered (elim tab [ settings ↦ settings_view | dashboard ↦ dashboard_content s.view ]) e s
          ≡ true
        → IsOnPage e s
        → IsDrawer e ⊎ Causes e (content_of browser tab s)
    unfolding content_of
    at_tab settings e o p = inl (at_settings e o p)
    at_tab dashboard e o p = at_view s.view e refl o p

    page-Causes :
        (e : Event)
        → offered (screen s) e s ≡ true
        → IsDrawer e ⊎ Causes e (content_of browser s.active_tab s)
        → Causes e (page browser s)
    unfolding page
    page-Causes e o (inl d) =
        Causes-append_left (navigation s) (content_of browser s.active_tab s)
          (at_navigation (screen s) e d o)
    page-Causes e o (inr c) = Causes-append_right (navigation s) c

    -- A user can cause an event on the page of the staff client exactly if the machine of Step
    -- offers it and its control is on the page: a command has its button exactly if the production
    -- service admits it for an item shown and commandLoading does not name that item, an order its
    -- card exactly if it has a lane that is not collapsed, and no control acts that is disabled,
    -- hidden or unfilled.
    pub page-offered_iff :
        (e : Event) → Causes e (page browser s) ↔ ((offered (screen s) e s ≡ true) × IsOnPage e s)
    unfolding screen
    page-offered_iff e = (
      λ c. page-offered s browser c.place c.gesture c.causes,
      λ (o, p). page-Causes e o (at_tab s.active_tab e o p),
    )
