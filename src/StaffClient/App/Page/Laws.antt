-- ===== src/StaffClient/App/Page/Laws.antt =====
-- What a user can do on the page is what the machine of Step offers.
use agentic_restaurant.Base.{
  ℕ, String, ◌≡◌, refl, Bool, true, false, Option, none, some, List, [], ◌∷◌, ◌++◌, if◌then◌else◌,
  arith, All, All-append, All-if, All-unless,
}
use agentic_restaurant.Base.Http.{text}
use agentic_restaurant.UiCommon.Widgets.{
  Widget, caption, button, Gesture, caused_at, Admits, error_if,
}
use agentic_restaurant.UiCommon.Widgets.Laws.{caused_at-Admits, error_if-Admits}
use agentic_restaurant.StaffClient.Production.{ItemCommand}
use agentic_restaurant.StaffClient.Api.{UserSummary}
use agentic_restaurant.StaffClient.Session.{UiSession}
use agentic_restaurant.StaffClient.App.{
  State, Event, went_back, refreshed, AppView, landing, interactive_credentials, display_loading,
  interactive_board, display_board, ActiveTab, dashboard, settings,
}
use agentic_restaurant.StaffClient.App.View.{
  Screen, screen, dashboard_content, is_display, has_error, detail_panel, DetailPanel, shown,
  interactive_lanes, display_lanes, mode_selection, credentials_form, connecting, settings_view,
}
use agentic_restaurant.StaffClient.App.Step.{offered, is_shown}
use agentic_restaurant.StaffClient.App.Lanes.{Browser, render_lanes}
use agentic_restaurant.StaffClient.App.Lanes.Laws.{render_lanes-Admits}
use agentic_restaurant.StaffClient.App.Page.{
  IsOnPage, navigation, mode_chip, user_of, signed_in_as, toolbar, board, render_board_view,
  render_mode_selection, render_credentials, render_display_loading, render_settings_view,
  dashboard_of, content_of, page,
}
use agentic_restaurant.StaffClient.App.Detail.{render_interactive_detail, HasCommandIn}
use agentic_restaurant.StaffClient.App.Detail.Laws.{render_interactive_detail-Admits}

module _ (P : Event → Type 0) where
  mode_chip-Admits : (session : Option UiSession) → All (Admits P) (mode_chip session)
  unfolding mode_chip
  mode_chip-Admits none = tt
  mode_chip-Admits (some session) = ground arith

  signed_in_as-Admits :
      (on_display : Bool) (user : Option UserSummary)
      → All (Admits P) (signed_in_as on_display user)
  unfolding signed_in_as
  signed_in_as-Admits on_display none = tt
  signed_in_as-Admits on_display (some user) = ground arith

HasCommandIn-is_shown :
    (item_id : String) (c : ItemCommand) (panel : DetailPanel)
    → HasCommandIn item_id c panel
    → is_shown panel ≡ true
HasCommandIn-is_shown item_id c (shown detail) k = refl
HasCommandIn-is_shown item_id c _ k = absurd k

module _ (s : State) where
  -- The event is one that this screen offers, and its control is on the page.
  abbrev IsOffered : Screen → Event → Type 0
  IsOffered here e = (offered here e s ≡ true) × IsOnPage e s

  navigation-Admits : (here : Screen) → All (Admits (IsOffered here)) (navigation s)
  unfolding navigation detail_panel
  navigation-Admits settings_view = ground arith
  navigation-Admits mode_selection = ground arith
  navigation-Admits credentials_form = ground arith
  navigation-Admits connecting = ground arith
  navigation-Admits interactive_lanes = ground arith
  navigation-Admits display_lanes = ground arith

  module _ (browser : Browser) where
    detail-Admits : All (Admits (IsOffered interactive_lanes)) (render_interactive_detail browser s)
    unfolding detail_panel
    detail-Admits =
        render_interactive_detail-Admits (IsOffered interactive_lanes) browser s
          (λ item_id c k busy. (rw (HasCommandIn-is_shown item_id c (detail_panel s) k, busy), k))

    toolbar-Admits :
        (here : Screen)
        → (s.board_loading ≡ false → IsOffered here refreshed)
        → All (Admits (IsOffered here)) (toolbar browser s)
    unfolding toolbar
    toolbar-Admits here h =
        let refresh : List (Widget Event) =
          button (text "Refresh" ∷ []) s.board_loading refreshed ∷ [] in
        All-append (Admits (IsOffered here)) (mode_chip s.session)
          (signed_in_as (is_display s.view) (user_of s.session) ++ refresh)
          (mode_chip-Admits (IsOffered here) s.session)
          (All-append (Admits (IsOffered here))
            (signed_in_as (is_display s.view) (user_of s.session)) refresh
            (signed_in_as-Admits (IsOffered here) (is_display s.view) (user_of s.session)) (h, tt))

    body-Admits :
        (P : Event → Type 0) (messages shown_board : List (Widget Event)) (b b' : Bool)
        → All (Admits P) messages
        → All (Admits P) shown_board
        → All (Admits P) (
            (if b then caption (text "Loading orders..." ∷ []) ∷ [] else [])
            ++ (messages
                ++ (shown_board
                    ++ (if b' then caption (text "No production orders." ∷ []) ∷ [] else []))))
    body-Admits P messages shown_board b b' m h =
        let second : List (Widget Event) =
          if b' then caption (text "No production orders." ∷ []) ∷ [] else [] in
        All-append (Admits P) (if b then caption (text "Loading orders..." ∷ []) ∷ [] else [])
          (messages ++ (shown_board ++ second))
          (All-if (Admits P) b (caption (text "Loading orders..." ∷ []) ∷ []) (λ _. (tt, tt)))
          (All-append (Admits P) messages (shown_board ++ second) m (
            All-append (Admits P) shown_board second h (
              All-if (Admits P) b' (caption (text "No production orders." ∷ []) ∷ [])
                (λ _. (tt, tt)))))

    render_board_view-Admits :
        (here : Screen)
        → (s.board_loading ≡ false → IsOffered here refreshed)
        → All (Admits (IsOffered here)) (board browser s)
        → All (Admits (IsOffered here)) (render_board_view browser s)
    unfolding render_board_view
    render_board_view-Admits here r h =
        All-append (Admits (IsOffered here)) (toolbar browser s) _ (toolbar-Admits here r) (
          body-Admits (IsOffered here) (error_if s.board_error) (board browser s) _ _
            (error_if-Admits (IsOffered here) s.board_error) h)

    interactive_board-Admits : All (Admits (IsOffered interactive_lanes)) (board browser s)
    unfolding board detail_panel
    interactive_board-Admits =
        All-append (Admits (IsOffered interactive_lanes)) (render_lanes browser s) _
          (render_lanes-Admits browser (IsOffered interactive_lanes) s (λ status h. (refl, h))
            (λ d id h. (refl, h)))
          (All-unless (Admits (IsOffered interactive_lanes)) (is_display s.view)
            (render_interactive_detail browser s) (λ _. detail-Admits))

    display_board-Admits :
        s.view ≡ display_board → All (Admits (IsOffered display_lanes)) (board browser s)
    unfolding board detail_panel
    display_board-Admits v =
        All-append (Admits (IsOffered display_lanes)) (render_lanes browser s) _
          (render_lanes-Admits browser (IsOffered display_lanes) s (λ status h. (refl, h))
            (λ d id h. absurd (ground (arith, v, d))))
          (rw v tt)

    dashboard_of-Admits :
        (v : AppView)
        → s.view ≡ v
        → All (Admits (IsOffered (dashboard_content v))) (dashboard_of browser v s)
    unfolding dashboard_of render_mode_selection render_credentials render_display_loading
        detail_panel
    dashboard_of-Admits landing v = ground arith
    dashboard_of-Admits interactive_credentials v =
        ground (arith, error_if-Admits (IsOffered credentials_form) s.auth_error)
    dashboard_of-Admits display_loading v = (
      tt,
      (
        tt,
        (
          tt,
          All-if (Admits (IsOffered connecting)) (has_error s.display_error)
              (error_if s.display_error ++ button (text "Back" ∷ []) false went_back ∷ [])
              (λ h.
                All-append (Admits (IsOffered connecting)) (error_if s.display_error)
                  (button (text "Back" ∷ []) false went_back ∷ [])
                  (error_if-Admits (IsOffered connecting) s.display_error) (λ _. (h, tt), tt)),
        ),
      ),
    )
    dashboard_of-Admits interactive_board v =
        render_board_view-Admits interactive_lanes (λ h. (rw h, tt)) interactive_board-Admits
    dashboard_of-Admits display_board v =
        render_board_view-Admits display_lanes (λ h. (rw h, tt)) (display_board-Admits v)

    content_of-Admits :
        (tab : ActiveTab)
        → All
            (Admits (
              IsOffered
                (elim tab [ settings ↦ settings_view | dashboard ↦ dashboard_content s.view ])))
            (content_of browser tab s)
    unfolding content_of render_settings_view
    content_of-Admits settings = ground arith
    content_of-Admits dashboard = dashboard_of-Admits s.view refl

    -- Whatever a user does at a control of the page of the staff client causes an event that the
    -- screen offers; a click on a command is one that the production service admits for an item
    -- shown with its status, a click on an order is on one in a lane that is not collapsed, and a
    -- sign-in has both fields filled.
    pub page-offered :
        (place : ℕ) (gesture : Gesture) {e : Event}
        → caused_at place gesture (page browser s) ≡ some e
        → (offered (screen s) e s ≡ true) × IsOnPage e s
    unfolding page screen
    page-offered place gesture h =
        caused_at-Admits (IsOffered (screen s)) place gesture (page browser s)
          (All-append (Admits (IsOffered (screen s))) (navigation s)
            (content_of browser s.active_tab s) (navigation-Admits (screen s))
            (content_of-Admits s.active_tab))
          h
