-- ===== src/OrdersClient/App/Page/Complete.antt =====
-- What the machine of Step offers can be done on the page.
use agentic_restaurant.Base.{
  not, ℕ, ◌≡◌, refl, ap, ◌↔◌, ◌⊎◌, ◌||◌, Bool, true, false, some, List, [], ◌∷◌, ◌++◌,
  if◌then◌else◌, arith, is_empty, inl, inr,
}
use agentic_restaurant.Base.Http.{text}
use agentic_restaurant.UiCommon.TextSize.{TextSize}
use agentic_restaurant.UiCommon.Widgets.{caption, click, typed, sized, Causes, error_if}
use agentic_restaurant.UiCommon.Widgets.Laws.{
  Causes-here, Causes-cons, Causes-append_left, Causes-append_right,
}
use agentic_restaurant.OrdersClient.Basket.{MenuItem, BasketLine}
use agentic_restaurant.OrdersClient.App.{
  State, Event, EntryStep, landing, registered_credentials, guest_name, main, ActiveTab, home,
  settings, chose_registered, chose_guest, typed_login, typed_password, typed_guest_name,
  submitted_login, submitted_guest, went_back, reloaded_menu, added_item, set_quantity,
  placed_order, logged_out, chose_tab, changed_text_size, is_authenticated,
}
use agentic_restaurant.OrdersClient.App.View.{
  screen, auth_content, auth_screen, home_screen, settings_screen,
}
use agentic_restaurant.OrdersClient.App.Step.{offered}
use agentic_restaurant.OrdersClient.App.Page.{
  content_of, Browser, IsOnPage, HasItem, HasNeighbour, navigation, content, page, menu_list,
  basket_list, toolbar, ordering_as, menu_section, checkout_section, checkout, render_home_content,
  render_auth_content, entry,
}
use agentic_restaurant.OrdersClient.App.Page.Laws.{caused_at-offered}

module _ (browser : Browser) where
  menu_list-Causes :
      (item : MenuItem) (items : List MenuItem)
      → HasItem item items
      → Causes (added_item item) (menu_list browser items)
  unfolding menu_list
  menu_list-Causes item [] h = absurd h
  menu_list-Causes item (i ∷ items) (inl e) = Causes-cons (
      Causes-cons (
        Causes-cons
          (Causes-here click (menu_list browser items) (ap (λ j. some (added_item j)) e))))
  menu_list-Causes item (i ∷ items) (inr h) =
      Causes-cons (Causes-cons (Causes-cons (Causes-cons (menu_list-Causes item items h))))

  basket_list-Causes :
      (id quantity : ℕ) (lines : List BasketLine)
      → HasNeighbour id quantity lines
      → Causes (set_quantity id quantity) (basket_list browser lines)
  unfolding basket_list
  basket_list-Causes id quantity [] h = absurd h
  basket_list-Causes id quantity (line ∷ lines) (inl (i, inl q)) =
      Causes-cons (Causes-cons (Causes-here click _ (cc)))
  basket_list-Causes id quantity (line ∷ lines) (inl (i, inr q)) =
      Causes-cons (
        Causes-cons
          (Causes-cons (Causes-cons (Causes-here click (basket_list browser lines) (cc)))))
  basket_list-Causes id quantity (line ∷ lines) (inr h) = Causes-cons (
      Causes-cons
        (Causes-cons (Causes-cons (Causes-cons (basket_list-Causes id quantity lines h)))))

  module _ (s : State) where
    -- The events of the controls in the navigation.
    logout-Causes : is_authenticated s ≡ true → Causes logged_out (navigation s)
    unfolding navigation
    logout-Causes h = Causes-cons (Causes-cons (Causes-cons (rw h (Causes-here click [] refl))))

    tab-Causes : (tab : ActiveTab) → Causes (chose_tab tab) (navigation s)
    unfolding navigation
    tab-Causes home = Causes-here click _ refl
    tab-Causes settings = Causes-cons (Causes-here click _ refl)

    size-Causes : (size : TextSize) → Causes (changed_text_size size) (navigation s)
    unfolding navigation
    size-Causes size = Causes-cons (Causes-cons (Causes-here (sized size) _ refl))

    menu_section-Causes :
        (item : MenuItem)
        → s.menu_loading ≡ false
        → HasItem item s.menu_items
        → Causes (added_item item) (menu_section browser s)
    unfolding menu_section
    menu_section-Causes item h m = rw h (
        Causes-cons (
          Causes-cons (
            Causes-append_left (menu_list browser s.menu_items) (error_if s.menu_error)
              (menu_list-Causes item s.menu_items m))))

    basket-Causes :
        (id quantity : ℕ) (lines : List BasketLine)
        → HasNeighbour id quantity lines
        → Causes (set_quantity id quantity) (
            if is_empty lines
            then caption (text "Basket is empty." ∷ []) ∷ []
            else basket_list browser lines)
    basket-Causes id quantity [] h = absurd h
    basket-Causes id quantity (line ∷ lines) h = basket_list-Causes id quantity (line ∷ lines) h

    checkout_section-Causes :
        (id quantity : ℕ)
        → HasNeighbour id quantity s.basket
        → Causes (set_quantity id quantity) (checkout_section browser s)
    unfolding checkout_section
    checkout_section-Causes id quantity h = Causes-cons (
        Causes-cons
          (Causes-append_left _ (checkout browser s) (basket-Causes id quantity s.basket h)))

    submit-Causes :
        (is_empty s.basket || s.submit_loading) ≡ false
        → Causes placed_order (checkout_section browser s)
    unfolding checkout_section checkout
    submit-Causes h =
        Causes-cons (Causes-cons (Causes-append_right _ (Causes-cons (Causes-here click _ (rw h)))))

    reload-Causes : s.menu_loading ≡ false → Causes reloaded_menu (toolbar browser s)
    unfolding toolbar
    reload-Causes h =
        Causes-cons (Causes-append_right (ordering_as browser s.user) (Causes-here click [] (rw h)))

    at_home :
        (e : Event)
        → offered home_screen e s ≡ true
        → IsOnPage e s
        → Causes e (navigation s) ⊎ Causes e (render_home_content browser s)
    unfolding render_home_content
    at_home reloaded_menu o p = inr (
        Causes-append_left (toolbar browser s)
          (menu_section browser s ++ checkout_section browser s) (reload-Causes (ground arith)))
    at_home (added_item item) o p = inr (
        Causes-append_right (toolbar browser s) (
          Causes-append_left (menu_section browser s) (checkout_section browser s)
            (menu_section-Causes item (ground arith) p)))
    at_home (set_quantity id quantity) o p = inr (
        Causes-append_right (toolbar browser s)
          (Causes-append_right (menu_section browser s) (checkout_section-Causes id quantity p)))
    at_home placed_order o p = inr (
        Causes-append_right (toolbar browser s)
          (Causes-append_right (menu_section browser s) (submit-Causes (ground arith))))
    at_home logged_out o p = inl (logout-Causes o)
    at_home (chose_tab tab) o p = inl (tab-Causes tab)
    at_home (changed_text_size size) o p = inl (size-Causes size)
    at_home _ o p = absurd (ground arith)

    at_settings :
        (e : Event) → offered settings_screen e s ≡ true → IsOnPage e s → Causes e (navigation s)
    at_settings logged_out o p = logout-Causes o
    at_settings (chose_tab tab) o p = tab-Causes tab
    at_settings (changed_text_size size) o p = size-Causes size
    at_settings _ o p = absurd (ground arith)

    form_button : (disabled : Bool) → not disabled ≡ true → disabled ≡ false
    form_button disabled h = ground arith

    at_entry :
        (at : EntryStep) (e : Event)
        → offered (auth_screen (auth_content at)) e s ≡ true
        → IsOnPage e s
        → Causes e (navigation s) ⊎ Causes e (entry browser at s)
    unfolding entry
    at_entry at logged_out o p = inl (logout-Causes (ground arith))
    at_entry at (chose_tab tab) o p = inl (tab-Causes tab)
    at_entry at (changed_text_size size) o p = inl (size-Causes size)
    at_entry landing chose_registered o p = inr (Causes-here click _ refl)
    at_entry landing chose_guest o p = inr (Causes-cons (Causes-here click _ refl))
    at_entry registered_credentials (typed_login value) o p =
        inr (Causes-cons (Causes-cons (Causes-here (typed value) _ refl)))
    at_entry registered_credentials (typed_password value) o p =
        inr (Causes-cons (Causes-cons (Causes-cons (Causes-here (typed value) _ refl))))
    at_entry registered_credentials submitted_login o p = inr (
        Causes-cons (
          Causes-cons (
            Causes-cons
              (Causes-cons (Causes-here click _ (rw (form_button s.auth_loading o, p)))))))
    at_entry registered_credentials went_back o p = inr (
        Causes-cons (
          Causes-cons (
            Causes-cons (
              Causes-cons
                (Causes-cons (Causes-here click _ (rw (form_button s.auth_loading o))))))))
    at_entry guest_name (typed_guest_name value) o p =
        inr (Causes-cons (Causes-cons (Causes-here (typed value) _ (rw p))))
    at_entry guest_name submitted_guest o p = inr (
        Causes-cons
          (Causes-cons (Causes-cons (Causes-here click _ (rw (form_button s.auth_loading o, p))))))
    at_entry guest_name went_back o p = inr (
        Causes-cons (
          Causes-cons
            (Causes-cons (Causes-cons (Causes-here click _ (rw (form_button s.auth_loading o)))))))
    at_entry landing _ o p = absurd (ground arith)
    at_entry registered_credentials _ o p = absurd (ground arith)
    at_entry guest_name _ o p = absurd (ground arith)
    at_entry main _ o p = absurd (ground arith)

    render_auth_content-Causes :
        {e : Event}
        → Causes e (navigation s) ⊎ Causes e (entry browser s.entry_step s)
        → Causes e (navigation s) ⊎ Causes e (render_auth_content browser s)
    unfolding render_auth_content
    render_auth_content-Causes (inl c) = inl c
    render_auth_content-Causes (inr c) =
        inr (Causes-append_left (entry browser s.entry_step s) (error_if s.auth_error) c)

    at_home_tab :
        (signed : Bool) (e : Event)
        → offered (if signed then home_screen else auth_screen (auth_content s.entry_step)) e s
          ≡ true
        → IsOnPage e s
        → Causes e (navigation s)
          ⊎ Causes e
              (if signed then render_home_content browser s else render_auth_content browser s)
    at_home_tab true e o p = at_home e o p
    at_home_tab false e o p = render_auth_content-Causes (at_entry s.entry_step e o p)

    at_tab :
        (tab : ActiveTab) (e : Event)
        → offered
            (elim tab [
              | settings ↦ settings_screen
              | home ↦
                  if is_authenticated s
                  then home_screen
                  else auth_screen (auth_content s.entry_step)
            ])
            e
            s
          ≡ true
        → IsOnPage e s
        → Causes e (navigation s) ⊎ Causes e (content_of browser tab s)
    unfolding content_of
    at_tab settings e o p = inl (at_settings e o p)
    at_tab home e o p = at_home_tab (is_authenticated s) e o p

    page-Causes :
        {e : Event}
        → Causes e (navigation s) ⊎ Causes e (content_of browser s.active_tab s)
        → Causes e (page browser s)
    unfolding page content
    page-Causes (inl c) = Causes-append_left (navigation s) (content browser s) c
    page-Causes (inr c) = Causes-append_right (navigation s) c

    -- A user can cause an event on the page of the orders client exactly if the machine of Step
    -- offers it and its control is on the page: no disabled, hidden or unfilled control acts, and
    -- nothing that is offered is out of reach.
    pub page_iff :
        (e : Event) → Causes e (page browser s) ↔ ((offered (screen s) e s ≡ true) × IsOnPage e s)
    unfolding screen
    page_iff e = (
      λ c. caused_at-offered s browser c.place c.gesture c.causes,
      λ (o, p). page-Causes (at_tab s.active_tab e o p),
    )
