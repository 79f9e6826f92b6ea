-- ===== src/OrdersClient/System/SignIn.antt =====
-- A guest who signs in, with the calls that this makes.
use agentic_restaurant.Base.{
  ◌≤◌, String, ◌≡◌, refl, true, false, none, some, List, [], ◌∷◌, resolved, arith,
}
use agentic_restaurant.Base.Json.{is_text}
use agentic_restaurant.Base.Text.{trim, utf16_length}
use agentic_restaurant.OrdersClient.Basket.{MenuItem}
use agentic_restaurant.OrdersClient.Config.{ServiceBaseUrls}
use agentic_restaurant.OrdersClient.Session.{UiMode, registered, guest}
use agentic_restaurant.OrdersClient.Api
use agentic_restaurant.OrdersClient.Api.{LoginResponse, create_guest_user, fetch_menu}
use agentic_restaurant.OrdersClient.App.{State, submitted_login, submitted_guest}
use agentic_restaurant.OrdersClient.App.Handlers.{
  session_of, is_bad_name, complete_authentication, on_login, on_login_settled, on_guest_login,
  on_app_token_settled, on_guest_settled, on_first_menu,
}
use agentic_restaurant.OrdersClient.App.View.{
  screen, home_screen, auth_screen, registered_form, guest_form,
}
use agentic_restaurant.OrdersClient.App.Step.{handle}
use agentic_restaurant.OrdersClient.System.{
  System, World, did, answered, at_app_token, perform, act, act_all,
}

-- A user who is signed in and sees the menu. An error of an order that an earlier user placed may
-- still be on the page.
pub record IsWelcome (s : State) (mode : UiMode) (response : LoginResponse) (items : List MenuItem)
    : Type 0 where
  pub shown : screen s ≡ home_screen
  pub token : s.token ≡ response.access_token
  pub user : s.user ≡ some response.user
  pub signed_in_as : s.mode ≡ some mode
  pub saved : s.stored ≡ some (session_of response.access_token response.user mode)
  pub menu : s.menu_items ≡ items
  pub idle : (s.auth_loading ≡ false) × (s.menu_loading ≡ false)
  pub clear : (s.auth_error ≡ none) × (s.menu_error ≡ none)

module _ (urls : ServiceBaseUrls) (s : System) (here : screen s.app ≡ auth_screen guest_form)
    (ready : s.app.auth_loading ≡ false) (named : is_text (trim s.app.guest_display_name) ≡ true)
    (short : utf16_length (trim s.app.guest_display_name) ≤ 100) where
  abbrev name : String
  name = trim s.app.guest_display_name

  abbrev asking : State
  asking = record s.app { auth_loading = true; auth_error = none }

  name_accepted : is_bad_name name ≡ false
  name_accepted = ground (arith, named, short)

  asked :
      act urls (did submitted_guest) s
      ≡ record { app = asking; awaited = at_app_token name ∷ s.awaited }
  unfolding act perform handle on_guest_login
  asked = rw (here, ready, name_accepted)

  -- From the guest form, with a trimmed name of 1 to 100 UTF-16 units and no sign-in running, if
  -- the token manager hands out a token, the users service answers the creation of a guest with
  -- that name and that token with a token that is not empty, and the menu service lists the menu
  -- for the new token, then the three calls lead to the menu: the guest is signed in and stored,
  -- no error of the sign-in or the menu is left, and the other calls are left as they are.
  pub guest_signed_in :
      (app : String) (response : LoginResponse) (items : List MenuItem) (first second third : World)
      → first.app_token ≡ resolved app
      → create_guest_user urls second.users name app ≡ resolved response
      → is_text response.access_token ≡ true
      → fetch_menu urls third.menu response.access_token ≡ resolved items
      → let t =
          act_all urls
            (did submitted_guest ∷ answered 0 first ∷ answered 0 second ∷ answered 0 third ∷ [])
            s in
        IsWelcome t.app guest response items × (t.awaited ≡ s.awaited)
  unfolding act_all act perform handle on_app_token_settled on_guest_settled complete_authentication
      on_first_menu screen
  guest_signed_in app response items first second third got created present listed =
      rw (asked, got, created, listed) (ground arith, refl)

module _ (urls : ServiceBaseUrls) (s : System) (here : screen s.app ≡ auth_screen registered_form)
    (ready : s.app.auth_loading ≡ false) where
  -- From the login form, with no sign-in running, if the users service accepts the login and the
  -- password that were typed, with a token that is not empty, and the menu service lists the menu
  -- for that token, then the two calls lead to the menu: the user is signed in and stored, no error
  -- of the sign-in or the menu is left, and the other calls are left as they are.
  pub user_signed_in :
      (response : LoginResponse) (items : List MenuItem) (first second : World)
      → Api.login urls first.users s.app.login_value s.app.password ≡ resolved response
      → is_text response.access_token ≡ true
      → fetch_menu urls second.menu response.access_token ≡ resolved items
      → let t = act_all urls (did submitted_login ∷ answered 0 first ∷ answered 0 second ∷ []) s in
        IsWelcome t.app registered response items × (t.awaited ≡ s.awaited)
  unfolding act_all act perform handle on_login on_login_settled complete_authentication
      on_first_menu screen
  user_signed_in response items first second accepted present listed =
      rw (here, ready, accepted, listed) (ground arith, refl)
