-- ===== src/StaffClient/Tests/System.antt =====
-- A cook's shift, and a display, with services that answer.
use agentic_restaurant.Base.{◌≡◌, refl, String, none, some, List, [], ◌∷◌, All, resolved, arith}
use agentic_restaurant.UiCommon.TextSize.{size1}
use agentic_restaurant.StaffClient.Config.{ServiceBaseUrls}
use agentic_restaurant.StaffClient.Production.{pickup}
use agentic_restaurant.StaffClient.Session.{
  interactive, user_auth, display_session, interactive_session,
}
use agentic_restaurant.StaffClient.Api.{
  UserSummary, login, fetch_orders, fetch_display_orders, fetch_order_detail, send_item_command,
}
use agentic_restaurant.StaffClient.App.{
  initial, Captured, chose_interactive, submitted_login, selected_order, clicked_command, polled,
}
use agentic_restaurant.StaffClient.App.Effects.{run_effects, mount}
use agentic_restaurant.StaffClient.App.Handlers.{
  on_login, on_login_settled, on_display_token, on_display_orders, on_orders, load_detail,
  on_detail, on_item_command, on_command_settled, load_board, enter_display_mode,
}
use agentic_restaurant.StaffClient.App.View.{screen, detail_panel}
use agentic_restaurant.StaffClient.App.Step.{handle}
use agentic_restaurant.StaffClient.System.{
  System, World, Action, did, answered, act, perform, act_all, opened, at_orders, at_display_orders,
  at_detail, at_command,
}
use agentic_restaurant.StaffClient.System.Commands.{IsSelected, command_sent_twice}
use agentic_restaurant.StaffClient.System.Loading.{Tracks, used-Tracks}
use agentic_restaurant.StaffClient.System.Draining.{drain, work, IsIdle, drain-IsIdle}
use agentic_restaurant.StaffClient.System.Tokens.{
  IsAuthorised, IsTrue, AllTrue, staff_calls_authorised,
}
use agentic_restaurant.StaffClient.Tests.{picked_up, order, detail, cook, shown_on_display}

abbrev urls : ServiceBaseUrls
urls = record { users_service = "http://users"; production_service = "http://production" }

abbrev up : World
up = record {
  users = λ request. resolved (record { status = 200; json = resolved cook });
  orders =
      λ request. resolved (record { status = 200; json = resolved (order 41 "QUEUED" "1" ∷ []) });
  display_orders =
      λ request. resolved (record { status = 200; json = resolved (shown_on_display ∷ []) });
  detail = λ request. resolved (record { status = 200; json = resolved (detail 41) });
  commands = λ request. resolved (record {
    status = 200;
    json = resolved (record { error_message = none; response = picked_up });
  });
  display_token = resolved "display-token";
}

abbrev shift : List Action
shift =
    did chose_interactive
    ∷ did submitted_login
    ∷ answered 0 up
    ∷ answered 0 up
    ∷ did (selected_order 41)
    ∷ answered 0 up
    ∷ did (clicked_command "i-1" pickup)
    ∷ answered 0 up
    ∷ did polled
    ∷ []

abbrev worked : System
worked = act_all urls shift (opened none size1)

abbrev by_cook : Captured
by_cook = record {
  session = record {
    mode = interactive;
    auth_kind = user_auth;
    access_token = "cook-token";
    user = some cook.user;
  };
  order_id = 41;
}

shift_awaits :
    worked.awaited ≡ at_orders none "cook-token" ∷ at_detail (some by_cook) "cook-token" 41 ∷ []
unfolding act_all act perform handle run_effects mount initial screen detail_panel on_login
    on_login_settled on_display_token on_display_orders on_orders load_detail on_detail
    on_item_command on_command_settled load_board login fetch_orders fetch_display_orders
    fetch_order_detail send_item_command enter_display_mode
shift_awaits = refl

abbrev shown : List Action
shown = answered 0 up ∷ did polled ∷ []

shown_awaits :
    (act_all urls shown (opened (some display_session) size1)).awaited
    ≡ at_display_orders none "display-token" ∷ at_display_orders none "display-token" ∷ []
unfolding act_all act perform handle run_effects mount initial screen detail_panel on_login
    on_login_settled on_display_token on_display_orders on_orders load_detail on_detail
    on_item_command on_command_settled load_board login fetch_orders fetch_display_orders
    fetch_order_detail send_item_command enter_display_mode
shown_awaits = refl

used-Tracks_example : Tracks worked.app worked.awaited
used-Tracks_example = used-Tracks urls none size1 shift

drain-IsIdle_example : IsIdle (drain urls (λ s. 7) (λ s. up) (work worked.awaited) worked)
drain-IsIdle_example = drain-IsIdle urls (λ s. 7) (λ s. up) none size1 shift

abbrev Issued : String → UserSummary → Type 0
Issued token user = (token ≡ "cook-token") × (user ≡ cook.user)

abbrev OfApp : String → Type 0
OfApp token = token ≡ "display-token"

up-IsTrue : IsTrue Issued OfApp up
up-IsTrue = record {
  users = λ request response r e f. ground arith;
  display_token = λ token e. ground arith;
}

shift_answers : AllTrue Issued OfApp urls shift
shift_answers = (up-IsTrue, (up-IsTrue, (up-IsTrue, (up-IsTrue, tt))))

staff_calls_authorised_example : All (IsAuthorised Issued OfApp) worked.awaited
staff_calls_authorised_example =
    staff_calls_authorised Issued OfApp urls none size1 shift (λ token user e. absurd (cc e))
      shift_answers

-- The cook has selected an order.
abbrev with_order : System
with_order = record {
  app = record (initial (some (interactive_session "cook-token" cook.user)) size1) {
    selected_order_id = some 41;
    order_detail = some (detail 41);
  };
  awaited = [];
}

with_order-IsSelected : IsSelected urls by_cook.session 41 (omega arith) with_order.app
unfolding initial screen detail_panel
with_order-IsSelected = record { here = refl; signed_in = refl; selected = refl; items = refl }

with_order_idle : with_order.app.command_loading ≡ none
unfolding initial
with_order_idle = refl

command_sent_twice_example :
    (act_all urls
      (did (clicked_command "i-1" pickup)
        ∷ did (clicked_command "i-2" pickup)
        ∷ did (clicked_command "i-1" pickup)
        ∷ [])
      with_order).awaited
    ≡ at_command by_cook "cook-token" "i-1" pickup
      ∷ at_command by_cook "cook-token" "i-2" pickup
      ∷ at_command by_cook "cook-token" "i-1" pickup
      ∷ []
command_sent_twice_example =
    command_sent_twice urls by_cook.session 41 (omega arith) with_order "i-1" "i-2" pickup pickup
      with_order-IsSelected with_order_idle refl
