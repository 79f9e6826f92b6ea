-- ===== src/OrdersClient/App/View.antt =====
-- What App.tsx shows, and what the user can do there.
use agentic_restaurant.Base.{String, Option, none, some, List, if◌then◌else◌, or_else}
use agentic_restaurant.OrdersClient.Api.{UserSummary, OrderSubmitResponse}
use agentic_restaurant.OrdersClient.Session.{UiMode, registered, guest}
use agentic_restaurant.OrdersClient.App.{
  State, EntryStep, landing, registered_credentials, guest_name, main, home, settings,
  is_authenticated,
}

-- The parts of `renderAuthContent`.
pub data AuthContent : Type 0 where
  mode_choice registered_form guest_form nothing : AuthContent

abbrev pub auth_content : EntryStep → AuthContent
auth_content landing = mode_choice
auth_content registered_credentials = registered_form
auth_content guest_name = guest_form
auth_content main = nothing

pub data Screen : Type 0 where
  settings_screen home_screen : Screen
  auth_screen : AuthContent → Screen

abbrev on_home_tab : State → Screen
on_home_tab s = if is_authenticated s then home_screen else auth_screen (auth_content s.entry_step)

unfoldable pub screen : State → Screen
screen s = elim s.active_tab [ settings ↦ settings_screen | home ↦ on_home_tab s ]

-- The error texts that the screen shows.
abbrev pub errors_on : Screen → State → List (Option String)
errors_on settings_screen s = List.[]
errors_on home_screen s = List.◌∷◌ s.menu_error (List.◌∷◌ s.submit_error List.[])
errors_on (auth_screen _) s = List.◌∷◌ s.auth_error List.[]

-- `lastOrder && user`
abbrev pub confirmed : Option OrderSubmitResponse → Option UserSummary → Option OrderSubmitResponse
confirmed (some order) (some user) = some order
confirmed _ _ = none

unfoldable pub confirmation : State → Option OrderSubmitResponse
confirmation s = confirmed s.last_order s.user

abbrev pub display_user_name : UserSummary → String
display_user_name user = or_else user.display_name user.login

abbrev pub format_mode : Option UiMode → String
format_mode (some registered) = "registered user"
format_mode (some guest) = "guest"
format_mode none = "not selected"
