-- ===== src/OrdersClient/System/Loading.antt =====
-- What the component shows as loading, against the calls that it awaits.
use agentic_restaurant.Base.{
  ℕ, ◌≤◌, ◌≡◌, Bool, true, false, Option, some, List, [], ◌∷◌, if◌then◌else◌, resolved, rejected,
  take_out, count, count-take_out, Bool-cases, Option-cases, inl, inr, ◌∙◌, arith,
}
use agentic_restaurant.UiCommon.TextSize.{TextSize}
use agentic_restaurant.OrdersClient.Session.{SessionAuth}
use agentic_restaurant.OrdersClient.Config.{ServiceBaseUrls}
use agentic_restaurant.OrdersClient.App.{
  initial, State, Event, submitted_login, submitted_guest, reloaded_menu, placed_order, logged_out,
}
use agentic_restaurant.OrdersClient.App.View.{screen}
use agentic_restaurant.OrdersClient.App.Handlers.{
  on_login, on_login_settled, on_guest_login, on_app_token_settled, on_guest_settled, on_first_menu,
  reload_menu, on_menu_settled, place_order, on_order_settled, reset_to_landing, logout,
  complete_authentication,
}
use agentic_restaurant.OrdersClient.App.Step.{handle, offered}
use agentic_restaurant.OrdersClient.App.Browsing.{is_outcome}
use agentic_restaurant.OrdersClient.System.{
  Await, Settles, answer-Settles, of_login, of_app_token, of_guest, of_first_menu, of_menu,
  of_order, at_login, at_app_token, at_guest, at_first_menu, at_menu, at_order, System, perform,
  Action, did, answered, answer, act, act_all, opened,
}

abbrev pub is_order : Await → Bool
is_order (at_order _ _ _) = true
is_order _ = false

abbrev pub is_menu : Await → Bool
is_menu (at_first_menu _ _) = true
is_menu (at_menu _) = true
is_menu _ = false

abbrev pub is_auth : Await → Bool
is_auth (at_login _ _) = true
is_auth (at_app_token _) = true
is_auth (at_guest _ _) = true
is_auth (at_first_menu _ _) = true
is_auth _ = false

pub record IsTracked (s : System) : Type 0 where
  pub orders : count is_order s.awaited ≡ (if s.app.submit_loading then 1 else 0)
  pub menus : s.app.menu_loading ≡ true → 1 ≤ count is_menu s.awaited
  pub auths : s.app.auth_loading ≡ true → 1 ≤ count is_auth s.awaited

perform-IsTracked :
    (e : Event) (s : System)
    → offered (screen s.app) e s.app ≡ true
    → is_outcome e ≡ false
    → IsTracked s
    → IsTracked (perform e s)
unfolding perform handle on_login on_guest_login reload_menu place_order logout reset_to_landing
perform-IsTracked submitted_login s h u v = ground arith
perform-IsTracked submitted_guest s h u v = ground arith
perform-IsTracked reloaded_menu s h u v = ground arith
perform-IsTracked placed_order s h u v = ground arith
perform-IsTracked logged_out s h u v = ground arith
perform-IsTracked e s h u v = ground arith

module _ (app : State) (others : List Await) where
  settled-IsTracked :
      (a : Await) (e : Event)
      → Settles a e
      → IsTracked (record { app = app; awaited = a ∷ others })
      → IsTracked (perform e (record { app = app; awaited = others }))
  unfolding perform handle on_login_settled on_guest_settled on_app_token_settled on_first_menu
      on_menu_settled on_order_settled complete_authentication
  settled-IsTracked a e (of_login (resolved r)) v = ground arith
  settled-IsTracked a e (of_login (rejected t)) v = ground arith
  settled-IsTracked a e (of_app_token (resolved r)) v = ground arith
  settled-IsTracked a e (of_app_token (rejected t)) v = ground arith
  settled-IsTracked a e (of_guest (resolved r)) v = ground arith
  settled-IsTracked a e (of_guest (rejected t)) v = ground arith
  settled-IsTracked a e (of_first_menu (resolved r)) v = ground arith
  settled-IsTracked a e (of_first_menu (rejected t)) v = ground arith
  settled-IsTracked a e (of_menu (resolved r)) v = ground arith
  settled-IsTracked a e (of_menu (rejected t)) v = ground arith
  settled-IsTracked a e (of_order (resolved r)) v = ground arith
  settled-IsTracked a e (of_order (rejected t)) v = ground arith

-- The order of the calls does not matter.
taken-IsTracked :
    (s : System) (place : ℕ) (a : Await) (others : List Await)
    → take_out place s.awaited ≡ some (a, others)
    → IsTracked s
    → IsTracked (record { app = s.app; awaited = a ∷ others })
taken-IsTracked s place a others e v = record {
  orders = count-take_out is_order place s.awaited a others e ∙ v.orders;
  menus = λ h. rw (count-take_out is_menu place s.awaited a others e) (v.menus h);
  auths = λ h. rw (count-take_out is_auth place s.awaited a others e) (v.auths h);
}

pub opened-IsTracked :
    (existing : Option SessionAuth) (text_size : TextSize) → IsTracked (opened existing text_size)
unfolding initial
opened-IsTracked existing text_size = ground arith

module _ (urls : ServiceBaseUrls) where
  pub act-IsTracked : (action : Action) (s : System) → IsTracked s → IsTracked (act urls action s)
  unfolding act
  act-IsTracked (did e) s v = elim (Bool-cases (offered (screen s.app) e s.app)) [
    | inr refused ↦ rw refused v
    | inl possible ↦ elim (Bool-cases (is_outcome e)) [
      | inl outcome ↦ rw (possible, outcome) v
      | inr by_user ↦ rw (possible, by_user) (perform-IsTracked e s possible by_user v)
    ]
  ]
  act-IsTracked (answered place w) s v = elim (Option-cases (take_out place s.awaited)) [
    | inl e ↦ rw e v
    | inr ((a, others), e) ↦ rw e (
        settled-IsTracked s.app others a (answer urls w a) (answer-Settles urls w a)
          (taken-IsTracked s place a others e v))
  ]

  pub act_all-IsTracked :
      (actions : List Action) (s : System) → IsTracked s → IsTracked (act_all urls actions s)
  unfolding act_all
  act_all-IsTracked [] s v = v
  act_all-IsTracked (a ∷ actions) s v =
      act_all-IsTracked actions (act urls a s) (act-IsTracked a s v)

  -- However the orders client has been used since it was loaded, whatever the services have
  -- answered, and in whatever order: an order is shown as on its way exactly while one order is,
  -- and two orders are never on their way at the same time; and while the menu or a sign-in is
  -- shown as loading, a call for it is awaited.
  pub used-IsTracked :
      (existing : Option SessionAuth) (text_size : TextSize) (actions : List Action)
      → IsTracked (act_all urls actions (opened existing text_size))
  used-IsTracked existing text_size actions =
      act_all-IsTracked actions (opened existing text_size) (opened-IsTracked existing text_size)
