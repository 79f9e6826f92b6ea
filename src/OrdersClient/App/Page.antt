-- ===== src/OrdersClient/App/Page.antt =====
-- What App.tsx renders, as the list of what is on the page. `Intl.NumberFormat`, the size and the
-- address of the window and the configured address are parameters.
pub mod Laws
pub mod Complete
use agentic_restaurant.Base.{
  ℕ, ◌≡◌, ◌⊎◌, ◌-◌, ◌+◌, String, Bool, true, false, ◌||◌, Option, none, some, List, [], ◌∷◌, ◌++◌,
  if◌then◌else◌, is_empty, ltb, or_else,
}
use agentic_restaurant.Base.Http.{Part, text, number}
use agentic_restaurant.UiCommon.QrCode.{Location, local_network_qr_code}
use agentic_restaurant.UiCommon.Widgets.{
  all_filled, fits, Widget, caption, badge, button, submit, field, text_size_control, qr_code, info,
  error_if, info_card, choice_card, NavigationItem, navigation_menu,
}
use agentic_restaurant.OrdersClient.Basket.{MenuItem, BasketLine, basket_total}
use agentic_restaurant.OrdersClient.Api.{UserSummary, OrderSubmitResponse}
use agentic_restaurant.OrdersClient.App.{
  State, login_settled, app_token_settled, guest_settled, first_menu_settled, menu_settled,
  order_settled, EntryStep, landing, registered_credentials, guest_name, main, ActiveTab, home,
  settings, Event, chose_registered, chose_guest, typed_login, typed_password, typed_guest_name,
  submitted_login, submitted_guest, went_back, reloaded_menu, added_item, set_quantity,
  placed_order, logged_out, chose_tab, changed_text_size, is_authenticated,
}
use agentic_restaurant.OrdersClient.App.View.{display_user_name, format_mode}

pub record Browser : Type 0 where
  pub inner_width : ℕ
  pub location : Location
  pub local_ip : Option String
  pub format_amount : ℕ → String

abbrev is_home : ActiveTab → Bool
is_home home = true
is_home settings = false

abbrev is_settings : ActiveTab → Bool
is_settings home = false
is_settings settings = true

abbrev pub navigation_items : State → List (NavigationItem Event)
navigation_items s =
    record {
      id = "home";
      label = if is_authenticated s then "Orders & Basket" else "Login";
      active = is_home s.active_tab;
      on_click = chose_tab home;
    }
    ∷ record {
      id = "settings";
      label = "Settings";
      active = is_settings s.active_tab;
      on_click = chose_tab settings;
    }
    ∷ []

abbrev logout_button : State → List (Widget Event)
logout_button s =
    if is_authenticated s then button (text "Logout" ∷ []) false logged_out ∷ [] else []

-- The `navigation` of the shell.
unfoldable pub navigation : State → List (Widget Event)
navigation s =
    navigation_menu (navigation_items s)
      (text_size_control s.text_size changed_text_size ∷ logout_button s)

registered_login : State → List (Widget Event)
registered_login s =
    info_card (text "Registered Login" ∷ [])
      (text "Use your existing restaurant account to continue." ∷ [])
      (field "Login" s.login_value none typed_login
        ∷ field "Password" s.password none typed_password
        ∷ submit (text (if s.auth_loading then "Signing in..." else "Sign In") ∷ []) s.auth_loading
            (s.login_value ∷ s.password ∷ []) submitted_login
        ∷ button (text "Back" ∷ []) s.auth_loading went_back
        ∷ [])

guest_login : State → List (Widget Event)
guest_login s =
    info_card (text "Guest Login" ∷ [])
      (text "Pick a display name and start ordering as a guest." ∷ [])
      (field "Display Name" s.guest_display_name (some 100) typed_guest_name
        ∷ submit
            (text (if s.auth_loading then "Starting guest session..." else "Start Guest Session")
              ∷ [])
            s.auth_loading (s.guest_display_name ∷ []) submitted_guest
        ∷ button (text "Back" ∷ []) s.auth_loading went_back
        ∷ [])

module _ (browser : Browser) where
  -- `isMobileViewport`
  abbrev pub is_mobile_viewport : Bool
  is_mobile_viewport = ltb browser.inner_width 700

  mode_selection : List (Widget Event)
  mode_selection =
      choice_card "Registered user" none chose_registered
      ∷ choice_card "Guest" none chose_guest
      ∷ qr_code (local_network_qr_code browser.location is_mobile_viewport browser.local_ip)
      ∷ []

  entry : EntryStep → State → List (Widget Event)
  unfolding registered_login guest_login mode_selection
  entry landing s = mode_selection
  entry registered_credentials s = registered_login s
  entry guest_name s = guest_login s
  entry main s = []

  -- `renderAuthContent`
  pub render_auth_content : State → List (Widget Event)
  unfolding entry
  render_auth_content s = entry s.entry_step s ++ error_if s.auth_error

  abbrev amount : ℕ → Part
  amount value = text (browser.format_amount value)

  menu_list : List MenuItem → List (Widget Event)
  menu_list [] = []
  menu_list (item ∷ items) =
      caption (text item.name ∷ [])
      ∷ caption (text item.description ∷ [])
      ∷ caption (amount item.price ∷ [])
      ∷ button (text "Add" ∷ []) false (added_item item)
      ∷ menu_list items

  basket_list : List BasketLine → List (Widget Event)
  basket_list [] = []
  basket_list (line ∷ lines) =
      caption (text line.item.name ∷ [])
      ∷ caption (amount line.item.price ∷ text " each" ∷ [])
      ∷ button (text "-" ∷ []) false (set_quantity line.item.id (line.quantity - 1))
      ∷ caption (number line.quantity ∷ [])
      ∷ button (text "+" ∷ []) false (set_quantity line.item.id (line.quantity + 1))
      ∷ basket_list lines

  ordering_as : Option UserSummary → List (Widget Event)
  ordering_as none = []
  ordering_as (some user) = caption (text "Ordering as " ∷ text (display_user_name user) ∷ []) ∷ []

  toolbar : State → List (Widget Event)
  unfolding ordering_as
  toolbar s =
      badge (text "Mode: " ∷ text (format_mode s.mode) ∷ []) info ∷ ordering_as s.user
      ++ button (text "Reload Menu" ∷ []) s.menu_loading reloaded_menu ∷ []

  menu_section : State → List (Widget Event)
  unfolding menu_list
  menu_section s =
      info_card (text "Menu" ∷ [])
        (text "Browse available dishes and add items to the basket." ∷ [])
        ((if s.menu_loading
            then caption (text "Loading menu..." ∷ []) ∷ []
            else menu_list s.menu_items)
          ++ error_if s.menu_error)

  -- `lastOrder && user`
  order_confirmation : Option OrderSubmitResponse → Option UserSummary → List (Widget Event)
  order_confirmation (some order) (some user) =
      caption (
        text "Order "
        ∷ text "#"
        ∷ number order.order_id
        ∷ text " accepted ("
        ∷ text order.status
        ∷ text ")."
        ∷ [])
      ∷ caption (
          text "User: "
          ∷ text (or_else order.user_display_name (display_user_name user))
          ∷ text " (id #"
          ∷ number user.id
          ∷ text ")"
          ∷ [])
      ∷ []
  order_confirmation _ _ = []

  checkout : State → List (Widget Event)
  unfolding order_confirmation
  checkout s =
      caption (text "Total: " ∷ amount (basket_total s.basket) ∷ [])
      ∷ button (text (if s.submit_loading then "Submitting..." else "Submit Order") ∷ [])
          (is_empty s.basket || s.submit_loading) placed_order
      ∷ (error_if s.submit_error ++ order_confirmation s.last_order s.user)

  checkout_section : State → List (Widget Event)
  unfolding basket_list checkout
  checkout_section s =
      info_card (text "Basket + Checkout" ∷ [])
        (text "Review quantities and submit the order when ready." ∷ [])
        ((if is_empty s.basket
            then caption (text "Basket is empty." ∷ []) ∷ []
            else basket_list s.basket)
          ++ checkout s)

  -- `renderHomeContent`
  pub render_home_content : State → List (Widget Event)
  unfolding toolbar menu_section checkout_section
  render_home_content s = toolbar s ++ (menu_section s ++ checkout_section s)

  -- `renderSettings`
  pub render_settings : State → List (Widget Event)
  render_settings s =
      info_card (text "Settings" ∷ [])
        (text "Shared controls now live in the navigation menu for faster access." ∷ [])
        (caption
            (text "Use the text size controls pinned to the bottom of the navigation menu." ∷ [])
          ∷ (if is_authenticated s
              then []
              else caption
                  (text "Return to the login view to choose a registered or guest session." ∷ [])
                ∷ []))

  content_of : ActiveTab → State → List (Widget Event)
  unfolding render_auth_content render_home_content render_settings
  content_of settings s = render_settings s
  content_of home s = if is_authenticated s then render_home_content s else render_auth_content s

  -- The children of the shell.
  unfoldable pub content : State → List (Widget Event)
  unfolding content_of
  content s = content_of s.active_tab s

  -- The page with an open navigation.
  unfoldable pub page : State → List (Widget Event)
  unfolding content navigation
  page s = navigation s ++ content s

abbrev HasItem : MenuItem → List MenuItem → Type 0
HasItem item [] = ⊥
HasItem item (i ∷ items) = (i ≡ item) ⊎ HasItem item items

-- The basket has a line of this item, with one unit less or one more.
abbrev HasNeighbour : ℕ → ℕ → List BasketLine → Type 0
HasNeighbour id quantity [] = ⊥
HasNeighbour id quantity (line ∷ lines) =
    ((line.item.id ≡ id) × ((quantity ≡ line.quantity - 1) ⊎ (quantity ≡ line.quantity + 1)))
    ⊎ HasNeighbour id quantity lines

-- What is on the page besides the controls: the items and lines that have buttons, the required
-- fields that are filled, and what a field takes. An outcome is no control.
abbrev pub IsOnPage : Event → State → Type 0
IsOnPage submitted_login s = all_filled (s.login_value ∷ s.password ∷ []) ≡ true
IsOnPage submitted_guest s = all_filled (s.guest_display_name ∷ []) ≡ true
IsOnPage (typed_guest_name value) s = fits (some 100) value ≡ true
IsOnPage (added_item item) s = HasItem item s.menu_items
IsOnPage (set_quantity id quantity) s = HasNeighbour id quantity s.basket
IsOnPage (login_settled _) s = ⊥
IsOnPage (app_token_settled _ _) s = ⊥
IsOnPage (guest_settled _) s = ⊥
IsOnPage (first_menu_settled _ _) s = ⊥
IsOnPage (menu_settled _) s = ⊥
IsOnPage (order_settled _) s = ⊥
IsOnPage _ s = Unit
