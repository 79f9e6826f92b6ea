-- ===== src/OrdersClient/App/Page/Laws.antt =====
-- What a user can do on the page is what the machine of Step offers.
use agentic_restaurant.Base.{
  ℕ, ◌-◌, ◌+◌, ◌≡◌, refl, Bool, true, false, Option, none, some, List, [], ◌∷◌, ◌++◌, if◌then◌else◌,
  arith, is_empty, All, All-append, inl, inr,
}
use agentic_restaurant.Base.Http.{text}
use agentic_restaurant.UiCommon.Widgets.{
  Widget, caption, button, Gesture, caused_at, Admits, error_if,
}
use agentic_restaurant.UiCommon.Widgets.Laws.{caused_at-Admits, error_if-Admits}
use agentic_restaurant.OrdersClient.Basket.{MenuItem, BasketLine}
use agentic_restaurant.OrdersClient.Api.{UserSummary, OrderSubmitResponse}
use agentic_restaurant.OrdersClient.App.{
  State, Event, reloaded_menu, ActiveTab, is_authenticated, home, settings, EntryStep, landing,
  registered_credentials, guest_name, main,
}
use agentic_restaurant.OrdersClient.App.View.{
  Screen, screen, auth_content, mode_choice, registered_form, guest_form, nothing, auth_screen,
  home_screen, settings_screen,
}
use agentic_restaurant.OrdersClient.App.Step.{offered}
use agentic_restaurant.OrdersClient.App.Page.{
  HasItem, HasNeighbour, IsOnPage, Browser, checkout, content_of, ordering_as, navigation, content,
  page, menu_list, basket_list, entry, order_confirmation, toolbar, menu_section, checkout_section,
  render_home_content, render_auth_content, render_settings,
}

module _ (s : State) where
  -- The event is one that this screen offers, and its control is on the page.
  abbrev IsOffered : Screen → Event → Type 0
  IsOffered here e = (offered here e s ≡ true) × IsOnPage e s

  navigation-Admits : (here : Screen) → All (Admits (IsOffered here)) (navigation s)
  unfolding navigation
  navigation-Admits settings_screen = ground arith
  navigation-Admits home_screen = ground arith
  navigation-Admits (auth_screen mode_choice) = ground arith
  navigation-Admits (auth_screen registered_form) = ground arith
  navigation-Admits (auth_screen guest_form) = ground arith
  navigation-Admits (auth_screen nothing) = ground arith

  module _ (browser : Browser) where
    menu_list-Admits :
        (items : List MenuItem)
        → ((i : MenuItem) → HasItem i items → HasItem i s.menu_items)
        → s.menu_loading ≡ false
        → All (Admits (IsOffered home_screen)) (menu_list browser items)
    unfolding menu_list
    menu_list-Admits [] inc h = tt
    menu_list-Admits (item ∷ items) inc h =
        ground (arith, inc item (inl refl), menu_list-Admits items (λ i k. inc i (inr k)) h)

    basket_list-Admits :
        (lines : List BasketLine)
        → ((id q : ℕ) → HasNeighbour id q lines → HasNeighbour id q s.basket)
        → All (Admits (IsOffered home_screen)) (basket_list browser lines)
    unfolding basket_list
    basket_list-Admits [] inc = tt
    basket_list-Admits (line ∷ lines) inc = ground (
      arith,
      inc line.item.id (line.quantity - 1) (inl (refl, inl refl)),
      inc line.item.id (line.quantity + 1) (inl (refl, inr refl)),
      basket_list-Admits lines (λ i q k. inc i q (inr k)),
    )

    order_confirmation-Admits :
        (order : Option OrderSubmitResponse) (user : Option UserSummary)
        → All (Admits (IsOffered home_screen)) (order_confirmation browser order user)
    unfolding order_confirmation
    order_confirmation-Admits (some order) (some user) = ground arith
    order_confirmation-Admits _ _ = tt

    ordering_as-Admits :
        (user : Option UserSummary)
        → All (Admits (IsOffered home_screen)) (ordering_as browser user)
    unfolding ordering_as
    ordering_as-Admits none = tt
    ordering_as-Admits (some user) = ground arith

    toolbar-Admits : All (Admits (IsOffered home_screen)) (toolbar browser s)
    unfolding toolbar
    toolbar-Admits =
        let reload : List (Widget Event) =
          button (text "Reload Menu" ∷ []) s.menu_loading reloaded_menu ∷ [] in
        (
          tt,
          All-append (Admits (IsOffered home_screen)) (ordering_as browser s.user) reload
              (ordering_as-Admits s.user) (ground arith),
        )

    entry-Admits :
        (at : EntryStep)
        → All (Admits (IsOffered (auth_screen (auth_content at)))) (entry browser at s)
    unfolding entry
    entry-Admits landing = ground arith
    entry-Admits registered_credentials = ground arith
    entry-Admits guest_name = ground arith
    entry-Admits main = tt

    menu_body-Admits :
        (loading : Bool)
        → s.menu_loading ≡ loading
        → All (Admits (IsOffered home_screen)) (
            if loading
            then caption (text "Loading menu..." ∷ []) ∷ []
            else menu_list browser s.menu_items)
    menu_body-Admits true e = ground arith
    menu_body-Admits false e = menu_list-Admits s.menu_items (λ i h. h) e

    menu_section-Admits : All (Admits (IsOffered home_screen)) (menu_section browser s)
    unfolding menu_section
    menu_section-Admits =
        let body : List (Widget Event) =
          if s.menu_loading
          then caption (text "Loading menu..." ∷ []) ∷ []
          else menu_list browser s.menu_items in
        (
          tt,
          (
            tt,
            All-append (Admits (IsOffered home_screen)) body (error_if s.menu_error)
                (menu_body-Admits s.menu_loading refl)
                (error_if-Admits (IsOffered home_screen) s.menu_error),
          ),
        )

    basket_body-Admits :
        (empty : Bool)
        → All (Admits (IsOffered home_screen)) (
            if empty
            then caption (text "Basket is empty." ∷ []) ∷ []
            else basket_list browser s.basket)
    basket_body-Admits true = ground arith
    basket_body-Admits false = basket_list-Admits s.basket (λ i q h. h)

    checkout-Admits : All (Admits (IsOffered home_screen)) (checkout browser s)
    unfolding checkout
    checkout-Admits = (
      tt,
      (
        λ h. ground arith,
        All-append (Admits (IsOffered home_screen)) (error_if s.submit_error)
            (order_confirmation browser s.last_order s.user)
            (error_if-Admits (IsOffered home_screen) s.submit_error)
            (order_confirmation-Admits s.last_order s.user),
      ),
    )

    checkout_section-Admits : All (Admits (IsOffered home_screen)) (checkout_section browser s)
    unfolding checkout_section
    checkout_section-Admits =
        let body : List (Widget Event) =
          if is_empty s.basket
          then caption (text "Basket is empty." ∷ []) ∷ []
          else basket_list browser s.basket in
        (
          tt,
          (
            tt,
            All-append (Admits (IsOffered home_screen)) body (checkout browser s)
                (basket_body-Admits (is_empty s.basket)) checkout-Admits,
          ),
        )

    render_home_content-Admits :
        All (Admits (IsOffered home_screen)) (render_home_content browser s)
    unfolding render_home_content
    render_home_content-Admits =
        All-append (Admits (IsOffered home_screen)) (toolbar browser s)
          (menu_section browser s ++ checkout_section browser s) toolbar-Admits
          (All-append (Admits (IsOffered home_screen)) (menu_section browser s)
            (checkout_section browser s) menu_section-Admits checkout_section-Admits)

    render_auth_content-Admits :
        All
          (Admits (IsOffered (auth_screen (auth_content s.entry_step))))
          (render_auth_content browser s)
    unfolding render_auth_content
    render_auth_content-Admits =
        let P : Event → Type 0 = IsOffered (auth_screen (auth_content s.entry_step)) in
        All-append (Admits P) (entry browser s.entry_step s) (error_if s.auth_error)
          (entry-Admits s.entry_step) (error_if-Admits P s.auth_error)

    render_settings-Admits :
        (here : Screen) → All (Admits (IsOffered here)) (render_settings browser s)
    unfolding render_settings
    render_settings-Admits here = ground arith

    home_tab-Admits :
        (signed : Bool)
        → All
            (Admits
              (IsOffered (if signed then home_screen else auth_screen (auth_content s.entry_step))))
            (if signed then render_home_content browser s else render_auth_content browser s)
    home_tab-Admits true = render_home_content-Admits
    home_tab-Admits false = render_auth_content-Admits

    content_of-Admits :
        (tab : ActiveTab)
        → All
            (Admits (
              IsOffered (elim tab [
                | settings ↦ settings_screen
                | home ↦
                    if is_authenticated s
                    then home_screen
                    else auth_screen (auth_content s.entry_step)
              ])))
            (content_of browser tab s)
    unfolding content_of
    content_of-Admits settings = render_settings-Admits settings_screen
    content_of-Admits home = home_tab-Admits (is_authenticated s)

    -- Every control that the page shows and that is not disabled causes an event that is offered.
    page-Admits : All (Admits (IsOffered (screen s))) (page browser s)
    unfolding page content screen
    page-Admits =
        All-append (Admits (IsOffered (screen s))) (navigation s) (content browser s)
          (navigation-Admits (screen s)) (content_of-Admits s.active_tab)

    -- Whatever a user does at a control of the page causes an event that the screen offers.
    pub caused_at-offered :
        (place : ℕ) (gesture : Gesture) {e : Event}
        → caused_at place gesture (page browser s) ≡ some e
        → (offered (screen s) e s ≡ true) × IsOnPage e s
    caused_at-offered place gesture h =
        caused_at-Admits (IsOffered (screen s)) place gesture (page browser s) page-Admits h
