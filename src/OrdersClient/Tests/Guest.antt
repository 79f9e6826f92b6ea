-- ===== src/OrdersClient/Tests/Guest.antt =====
-- A guest who signs in, with services that answer.
use agentic_restaurant.Base.{◌≡◌, ◌≤◌, refl, true, false, some, [], ◌∷◌, arith, resolved}
use agentic_restaurant.Base.Json.{is_text}
use agentic_restaurant.Base.Text.{trim, utf16_length}
use agentic_restaurant.OrdersClient.Config.{ServiceBaseUrls}
use agentic_restaurant.OrdersClient.Session.{guest}
use agentic_restaurant.OrdersClient.Api.{create_guest_user, fetch_menu}
use agentic_restaurant.OrdersClient.App.{State, guest_name, initial, submitted_guest}
use agentic_restaurant.OrdersClient.App.View.{screen, auth_screen, guest_form}
use agentic_restaurant.OrdersClient.System.{System, World, did, answered, at_menu, act_all}
use agentic_restaurant.OrdersClient.System.SignIn.{IsWelcome, guest_signed_in}
use agentic_restaurant.OrdersClient.Tests.{soup, of_ann, receipt, start}

abbrev urls : ServiceBaseUrls
urls = record {
  users_service = "http://users";
  menu_service = "http://menu";
  orders_service = "http://orders";
}

abbrev up : World
up = record {
  users = λ request. resolved (record { status = 201; json = resolved of_ann });
  menu = λ request.
      resolved (record { status = 200; json = resolved (record { items = some (soup ∷ []) }) });
  orders = λ request. resolved (record { status = 201; json = resolved receipt });
  app_token = resolved "app-token";
  request_id = "r-1";
}

abbrev at_guest_form : State
unfolding initial
at_guest_form = record start { entry_step = guest_name; guest_display_name = " Ann " }

guest_form_shown : screen at_guest_form ≡ auth_screen guest_form
unfolding screen initial
guest_form_shown = refl

ann_trimmed : (is_text (trim " Ann ") ≡ true) × (utf16_length (trim " Ann ") ≤ 100)
unfolding trim utf16_length
ann_trimmed = (refl, omega arith)

guest_form_ready : at_guest_form.auth_loading ≡ false
unfolding initial
guest_form_ready = refl

-- An answer to an earlier user's call is still on its way.
abbrev at_form : System
at_form = record { app = at_guest_form; awaited = at_menu "old-token" ∷ [] }

created : create_guest_user urls up.users (trim " Ann ") "app-token" ≡ resolved of_ann
unfolding create_guest_user
created = refl

listed : fetch_menu urls up.menu "user-token" ≡ resolved (soup ∷ [])
unfolding fetch_menu
listed = refl

guest_signed_in_example :
    let t =
      act_all urls
        (did submitted_guest ∷ answered 0 up ∷ answered 0 up ∷ answered 0 up ∷ [])
        at_form in
    IsWelcome t.app guest of_ann (soup ∷ []) × (t.awaited ≡ at_menu "old-token" ∷ [])
unfolding at_guest_form
guest_signed_in_example =
    guest_signed_in urls at_form guest_form_shown guest_form_ready ann_trimmed.0 ann_trimmed.1
      "app-token" of_ann (soup ∷ []) up up up refl created refl listed
