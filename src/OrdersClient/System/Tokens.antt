-- ===== src/OrdersClient/System/Tokens.antt =====
-- Which tokens the calls of the component carry.
use agentic_restaurant.Base.{
  ℕ, ◌≡◌, refl, String, true, false, Option, none, some, List, [], ◌∷◌, Outcome, resolved, rejected,
  take_out, All, All-take_out, OnResolved, OnResolved-intro, Bool-cases, Option-cases, inl, inr,
  arith,
}
use agentic_restaurant.Base.Json.{is_text}
use agentic_restaurant.Base.Http.{Request, Response, OnResolved-json_or_throw}
use agentic_restaurant.UiCommon.TextSize.{TextSize}
use agentic_restaurant.OrdersClient.Config.{ServiceBaseUrls}
use agentic_restaurant.OrdersClient.Session.{SessionAuth}
use agentic_restaurant.OrdersClient.Api.{
  UserSummary, LoginResponse, login, create_guest_user, login_request, guest_request,
}
use agentic_restaurant.OrdersClient.App.{
  initial, State, Event, submitted_login, submitted_guest, reloaded_menu, placed_order, logged_out,
  login_settled, app_token_settled, guest_settled,
}
use agentic_restaurant.OrdersClient.App.Handlers.{
  on_login, on_guest_login, reload_menu, place_order, reset_to_landing, logout, on_login_settled,
  on_app_token_settled, on_guest_settled, on_first_menu, on_menu_settled, on_order_settled,
  complete_authentication,
}
use agentic_restaurant.OrdersClient.App.View.{screen}
use agentic_restaurant.OrdersClient.App.Step.{handle, offered}
use agentic_restaurant.OrdersClient.App.Browsing.{is_outcome}
use agentic_restaurant.OrdersClient.System.{
  Await, Settles, answer-Settles, of_login, of_app_token, of_guest, of_first_menu, of_menu,
  of_order, at_login, at_app_token, at_guest, at_first_menu, at_menu, at_order, System, perform,
  World, Action, did, answered, answer, act, act_all, opened,
}

-- `IsIssued token user`: the users service issued the token for the user. `IsAppToken token`: it
-- issued the token for the application.
module _ (IsIssued : String → UserSummary → Type 0) (IsAppToken : String → Type 0) where
  abbrev pub IsUserToken : String → Type 0
  IsUserToken token = (user : UserSummary) × IsIssued token user

  abbrev pub IsAuthorised : Await → Type 0
  IsAuthorised (at_login _ _) = Unit
  IsAuthorised (at_app_token _) = Unit
  IsAuthorised (at_guest _ token) = IsAppToken token
  IsAuthorised (at_first_menu _ token) = IsUserToken token
  IsAuthorised (at_menu token) = IsUserToken token
  IsAuthorised (at_order token id _) = (user : UserSummary) × IsIssued token user × (user.id ≡ id)

  pub record IsSignedIn (s : System) : Type 0 where
    pub session :
        is_text s.app.token ≡ true
        → (user : UserSummary) × (s.app.user ≡ some user) × IsIssued s.app.token user
    pub calls : All IsAuthorised s.awaited

  by_user-IsSignedIn :
      (e : Event) (s : System) → is_outcome e ≡ false → IsSignedIn s → IsSignedIn (perform e s)
  unfolding perform handle on_login on_guest_login reload_menu place_order logout reset_to_landing
  by_user-IsSignedIn submitted_login s u v = ground arith
  by_user-IsSignedIn submitted_guest s u v = ground arith
  by_user-IsSignedIn reloaded_menu s u v = ground arith
  by_user-IsSignedIn placed_order s u v = ground arith
  by_user-IsSignedIn logged_out s u v = ground arith
  by_user-IsSignedIn e s u v = ground arith

  abbrev pub NamesUser : Outcome LoginResponse → Type 0
  NamesUser = OnResolved (λ r. IsIssued r.access_token r.user)

  -- What the outcome of a call brings: a token for the user that it names, or the application's.
  abbrev pub IsHonest : Event → Type 0
  IsHonest (login_settled o) = NamesUser o
  IsHonest (guest_settled o) = NamesUser o
  IsHonest (app_token_settled name o) = OnResolved IsAppToken o
  IsHonest _ = Unit

  settled-IsSignedIn :
      (app : State) (others : List Await) (a : Await) (e : Event)
      → Settles a e
      → IsHonest e
      → IsSignedIn (record { app = app; awaited = others })
      → IsSignedIn (perform e (record { app = app; awaited = others }))
  unfolding perform handle on_login_settled on_guest_settled on_app_token_settled on_first_menu
      on_menu_settled on_order_settled complete_authentication
  settled-IsSignedIn app others a e (of_login (resolved r)) h v = record {
    session = λ present. (r.user, refl, h);
    calls = ((r.user, h), v.calls);
  }
  settled-IsSignedIn app others a e (of_login (rejected t)) h v = ground arith
  settled-IsSignedIn app others a e (of_app_token (resolved r)) h v = ground arith
  settled-IsSignedIn app others a e (of_app_token (rejected t)) h v = ground arith
  settled-IsSignedIn app others a e (of_guest (resolved r)) h v = record {
    session = λ present. (r.user, refl, h);
    calls = ((r.user, h), v.calls);
  }
  settled-IsSignedIn app others a e (of_guest (rejected t)) h v = ground arith
  settled-IsSignedIn app others a e (of_first_menu (resolved r)) h v = ground arith
  settled-IsSignedIn app others a e (of_first_menu (rejected t)) h v = ground arith
  settled-IsSignedIn app others a e (of_menu (resolved r)) h v = ground arith
  settled-IsSignedIn app others a e (of_menu (rejected t)) h v = ground arith
  settled-IsSignedIn app others a e (of_order (resolved r)) h v = ground arith
  settled-IsSignedIn app others a e (of_order (rejected t)) h v = ground arith

  -- The users service issues the tokens that its responses hold, and the token manager hands out
  -- tokens of the application.
  pub record IsTrue (w : World) : Type 0 where
    pub users :
        (request : Request) (response : Response LoginResponse) (r : LoginResponse)
        → w.users request ≡ resolved response
        → response.json ≡ resolved r
        → IsIssued r.access_token r.user
    pub app_token : (token : String) → w.app_token ≡ resolved token → IsAppToken token

  module _ (urls : ServiceBaseUrls) where
    answer-IsHonest : (w : World) (a : Await) → IsTrue w → IsHonest (answer urls w a)
    unfolding login create_guest_user
    answer-IsHonest w (at_login l p) h =
        OnResolved-json_or_throw _ (w.users (login_request urls l p)) _
          (h.users (login_request urls l p))
    answer-IsHonest w (at_app_token name) h = OnResolved-intro IsAppToken w.app_token h.app_token
    answer-IsHonest w (at_guest name token) h =
        OnResolved-json_or_throw _ (w.users (guest_request urls name token)) _
          (h.users (guest_request urls name token))
    answer-IsHonest w a h = tt

    opened-IsSignedIn :
        (existing : Option SessionAuth) (text_size : TextSize)
        → ((session : SessionAuth) → existing ≡ some session → IsIssued session.token session.user)
        → IsSignedIn (opened existing text_size)
    unfolding initial
    opened-IsSignedIn none text_size h = ground arith
    opened-IsSignedIn (some session) text_size h = record {
      session = λ present. (session.user, refl, h session refl);
      calls = tt;
    }

    -- What the services answer in the course of these actions.
    abbrev pub AllTrue : List Action → Type 0
    AllTrue [] = Unit
    AllTrue (did e ∷ actions) = AllTrue actions
    AllTrue (answered place w ∷ actions) = IsTrue w × AllTrue actions

    did-IsSignedIn : (e : Event) (s : System) → IsSignedIn s → IsSignedIn (act urls (did e) s)
    unfolding act
    did-IsSignedIn e s v = elim (Bool-cases (offered (screen s.app) e s.app)) [
      | inr refused ↦ rw refused v
      | inl possible ↦ elim (Bool-cases (is_outcome e)) [
        | inl outcome ↦ rw (possible, outcome) v
        | inr by_user ↦ rw (possible, by_user) (by_user-IsSignedIn e s by_user v)
      ]
    ]

    answered-IsSignedIn :
        (place : ℕ) (w : World) (s : System)
        → IsTrue w
        → IsSignedIn s
        → IsSignedIn (act urls (answered place w) s)
    unfolding act
    answered-IsSignedIn place w s h v = elim (Option-cases (take_out place s.awaited)) [
      | inl e ↦ rw e v
      | inr ((a, others), e) ↦ rw e (
          settled-IsSignedIn s.app others a (answer urls w a) (answer-Settles urls w a)
            (answer-IsHonest w a h)
            (record {
              session = v.session;
              calls = (All-take_out IsAuthorised place s.awaited a others e v.calls).1;
            }))
    ]

    pub act_all-IsSignedIn :
        (actions : List Action) (s : System)
        → AllTrue actions
        → IsSignedIn s
        → IsSignedIn (act_all urls actions s)
    unfolding act_all
    act_all-IsSignedIn [] s h v = v
    act_all-IsSignedIn (did e ∷ actions) s h v =
        act_all-IsSignedIn actions (act urls (did e) s) h (did-IsSignedIn e s v)
    act_all-IsSignedIn (answered place w ∷ actions) s (h, hs) v =
        act_all-IsSignedIn actions (act urls (answered place w) s) hs
          (answered-IsSignedIn place w s h v)

    -- If every response of the users service names the user that its token was issued for, the
    -- token manager hands out tokens of the application, and a session that was stored has a token
    -- issued for its user, then however the orders client is used: the creation of a guest carries
    -- a token of the application, the menu is asked for with a token of a user, and an order
    -- carries the id of a user and a token that was issued for that very user.
    pub calls_authorised :
        (existing : Option SessionAuth) (text_size : TextSize) (actions : List Action)
        → ((session : SessionAuth) → existing ≡ some session → IsIssued session.token session.user)
        → AllTrue actions
        → All IsAuthorised (act_all urls actions (opened existing text_size)).awaited
    calls_authorised existing text_size actions h hs =
        (act_all-IsSignedIn actions (opened existing text_size) hs
          (opened-IsSignedIn existing text_size h)).calls
