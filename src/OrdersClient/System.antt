-- ===== src/OrdersClient/System.antt =====
-- The orders client with the services that it calls: App.tsx, the calls that its handlers await,
-- and the answers, which arrive in any order. A call is one of features/auth/api.ts,
-- features/menu/api.ts or features/orders/api.ts, or of `getAppToken`; what `fetch` and the token
-- manager answer at that time is a parameter.
pub mod Loading
pub mod Draining
pub mod Tokens
pub mod Runs
pub mod Ordering
pub mod SignIn
use agentic_restaurant.Base.{
  ℕ, String, not, ◌&&◌, Option, none, some, List, [], ◌∷◌, ◌++◌, map, if◌then◌else◌, Outcome,
  take_out,
}
use agentic_restaurant.Base.Http.{Fetch}
use agentic_restaurant.UiCommon.TextSize.{TextSize}
use agentic_restaurant.OrdersClient.Basket.{MenuItem, BasketLine}
use agentic_restaurant.OrdersClient.Config.{ServiceBaseUrls}
use agentic_restaurant.OrdersClient.Session.{UiMode, registered, guest, SessionAuth}
use agentic_restaurant.OrdersClient.Api.{
  LoginResponse, MenuBody, OrderSubmitResponse, login, create_guest_user, fetch_menu, submit_order,
}
use agentic_restaurant.OrdersClient.App.{
  State, initial, Call, Event, login_settled, app_token_settled, guest_settled, first_menu_settled,
  menu_settled, order_settled,
}
use agentic_restaurant.OrdersClient.App.View.{screen}
use agentic_restaurant.OrdersClient.App.Step.{handle, offered}
use agentic_restaurant.OrdersClient.App.Browsing.{is_outcome}

-- An `await` of a handler that has not ended: the call, and the place in the code.
pub data Await : Type 0 where
  at_login : String → String → Await
  at_app_token : String → Await
  at_guest : String → String → Await
  at_first_menu : UiMode → String → Await
  at_menu : String → Await
  at_order : String → ℕ → List BasketLine → Await

-- `await fetchMenu(token)` stands in `completeAuthentication` and in `reloadMenu`.
abbrev pub menu_await : Event → String → Await
menu_await (login_settled _) token = at_first_menu registered token
menu_await (guest_settled _) token = at_first_menu guest token
menu_await _ token = at_menu token

abbrev pub await_of : Event → Call → Await
await_of e (Call.login login_value password) = at_login login_value password
await_of e (Call.app_token name) = at_app_token name
await_of e (Call.create_guest_user name token) = at_guest name token
await_of e (Call.fetch_menu token) = menu_await e token
await_of e (Call.submit_order token id lines) = at_order token id lines

pub record System : Type 0 where
  pub app : State
  pub awaited : List Await

abbrev pub opened : Option SessionAuth → TextSize → System
opened existing text_size = record { app = initial existing text_size; awaited = [] }

-- The handler runs up to its next `await`.
unfoldable pub perform : Event → System → System
perform e s =
    let (app, calls) = handle e s.app in
    record { app = app; awaited = map (await_of e) calls ++ s.awaited }

-- How a call can settle.
pub data Settles : Await → Event → Type 0 where
  of_login : {l p : String} (o : Outcome LoginResponse) → Settles (at_login l p) (login_settled o)
  of_app_token :
      {name : String} (o : Outcome String) → Settles (at_app_token name) (app_token_settled name o)
  of_guest :
      {name token : String} (o : Outcome LoginResponse)
      → Settles (at_guest name token) (guest_settled o)
  of_first_menu :
      {mode : UiMode} {token : String} (o : Outcome (List MenuItem))
      → Settles (at_first_menu mode token) (first_menu_settled mode o)
  of_menu :
      {token : String} (o : Outcome (List MenuItem)) → Settles (at_menu token) (menu_settled o)
  of_order :
      {token : String} {id : ℕ} {lines : List BasketLine} (o : Outcome OrderSubmitResponse)
      → Settles (at_order token id lines) (order_settled o)

-- What a call meets: the answers to its request, by the service, the token that `getAppToken`
-- resolves to, and the id that `createRequestId` returns.
pub record World : Type 0 where
  pub users : Fetch LoginResponse
  pub menu : Fetch MenuBody
  pub orders : Fetch OrderSubmitResponse
  pub app_token : Outcome String
  pub request_id : String

pub data Action : Type 0 where
  did : Event → Action  -- what the user does
  answered : ℕ → World → Action  -- the call in this place settles

module _ (urls : ServiceBaseUrls) where
  abbrev pub answer : World → Await → Event
  answer w (at_login login_value password) = login_settled (login urls w.users login_value password)
  answer w (at_app_token name) = app_token_settled name w.app_token
  answer w (at_guest name token) = guest_settled (create_guest_user urls w.users name token)
  answer w (at_first_menu mode token) = first_menu_settled mode (fetch_menu urls w.menu token)
  answer w (at_menu token) = menu_settled (fetch_menu urls w.menu token)
  answer w (at_order token id lines) =
      order_settled (submit_order urls w.orders w.request_id token id lines)

  pub answer-Settles : (w : World) (a : Await) → Settles a (answer w a)
  answer-Settles w (at_login l p) = of_login _
  answer-Settles w (at_app_token name) = of_app_token _
  answer-Settles w (at_guest name token) = of_guest _
  answer-Settles w (at_first_menu mode token) = of_first_menu _
  answer-Settles w (at_menu token) = of_menu _
  answer-Settles w (at_order token id lines) = of_order _

  abbrev pub settle : World → Option (Await × List Await) → System → System
  settle w none s = s
  settle w (some (a, others)) s = perform (answer w a) (record s { awaited = others })

  unfoldable pub act : Action → System → System
  act (did e) s = if offered (screen s.app) e s.app && not (is_outcome e) then perform e s else s
  act (answered place w) s = settle w (take_out place s.awaited) s

  unfoldable pub act_all : List Action → System → System
  act_all [] s = s
  act_all (a ∷ actions) s = act_all actions (act a s)
