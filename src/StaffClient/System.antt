-- ===== src/StaffClient/System.antt =====
-- The staff client with the services that it calls: App.tsx with its effects, the calls that its
-- handlers await, and the answers, which arrive in any order. A call is one of
-- features/auth/api.ts or features/production/api.ts, or of `getDisplayToken`; what `fetch` and
-- the token manager answer at that time is a parameter.
pub mod Loading
pub mod Draining
pub mod Runs
pub mod Tokens
pub mod Commands
use agentic_restaurant.Base.{
  ℕ, String, Bool, true, false, not, ◌&&◌, Option, none, some, List, [], ◌∷◌, ◌++◌, if◌then◌else◌,
  Outcome, take_out,
}
use agentic_restaurant.Base.Http.{Fetch}
use agentic_restaurant.UiCommon.TextSize.{TextSize}
use agentic_restaurant.StaffClient.Config.{ServiceBaseUrls}
use agentic_restaurant.StaffClient.Session.{PersistedSession}
use agentic_restaurant.StaffClient.Production.{
  ProductionOrder, DisplayOrder, OrderDetail, CommandResponse, ItemCommand,
}
use agentic_restaurant.StaffClient.Api.{
  LoginResponse, CommandBody, CommandOptions, login, fetch_orders, fetch_display_orders,
  fetch_order_detail, send_item_command,
}
use agentic_restaurant.StaffClient.App.{
  State, initial, Effect, Event, Captured, Caller, display_token_settled, login_settled,
  orders_settled, display_orders_settled, detail_settled, command_settled,
}
use agentic_restaurant.StaffClient.App.Handlers.{capture}
use agentic_restaurant.StaffClient.App.Effects.{run_effects, mount}
use agentic_restaurant.StaffClient.App.View.{screen}
use agentic_restaurant.StaffClient.App.Step.{handle, offered}

-- An `await` of a handler that has not ended: the call, and what the rest of the handler has
-- captured, where `onItemCommand` waits for it.
pub data Await : Type 0 where
  at_display_token : Await
  at_login : String → String → Await
  at_orders at_display_orders : Caller → String → Await
  at_detail : Caller → String → ℕ → Await
  at_command : Captured → String → String → ItemCommand → Await

abbrev command_await : Option Captured → String → String → ItemCommand → List Await
command_await none token item_id command = []
command_await (some c) token item_id command = at_command c token item_id command ∷ []

abbrev pub await_of : Caller → Option Captured → Effect → List Await
await_of caller captured Effect.get_display_token = at_display_token ∷ []
await_of caller captured Effect.clear_display_token = []
await_of caller captured (Effect.login login_value password) = at_login login_value password ∷ []
await_of caller captured (Effect.fetch_orders token) = at_orders caller token ∷ []
await_of caller captured (Effect.fetch_display_orders token) = at_display_orders caller token ∷ []
await_of caller captured (Effect.fetch_order_detail token order_id) =
    at_detail caller token order_id ∷ []
await_of caller captured (Effect.send_item_command token item_id command) =
    command_await captured token item_id command

abbrev pub awaits : Caller → Option Captured → List Effect → List Await
awaits caller captured [] = []
awaits caller captured (e ∷ es) = await_of caller captured e ++ awaits caller captured es

-- The call of `onItemCommand` that goes on with this event.
abbrev pub caller_of : Event → Caller
caller_of (command_settled c outcome) = some c
caller_of (detail_settled caller outcome) = caller
caller_of _ = none

pub record System : Type 0 where
  pub app : State
  pub awaited : List Await

abbrev pub mounted : State × List Effect → System
mounted (app, effects) = record { app = app; awaited = awaits none none effects }

-- The page after it is loaded.
abbrev pub opened : Option PersistedSession → TextSize → System
opened persisted text_size = mounted (mount (initial persisted text_size))

-- The handler runs up to its next `await`, then the effects of the new rendering.
unfoldable pub perform : Event → System → System
perform e s =
    let (t, es) = handle e s.app in
    let (u, fs) = run_effects s.app t in
    record {
      app = u;
      awaited =
          awaits none none fs
          ++ (awaits (caller_of e) (capture s.app.session s.app.selected_order_id) es ++ s.awaited);
    }

-- How a call can settle.
pub data Settles : Await → Event → Type 0 where
  of_display_token : (o : Outcome String) → Settles at_display_token (display_token_settled o)
  of_login : {l p : String} (o : Outcome LoginResponse) → Settles (at_login l p) (login_settled o)
  of_orders :
      {caller : Caller} {token : String} (o : Outcome (List ProductionOrder))
      → Settles (at_orders caller token) (orders_settled caller o)
  of_display_orders :
      {caller : Caller} {token : String} (o : Outcome (List DisplayOrder))
      → Settles (at_display_orders caller token) (display_orders_settled caller o)
  of_detail :
      {caller : Caller} {token : String} {order_id : ℕ} (o : Outcome OrderDetail)
      → Settles (at_detail caller token order_id) (detail_settled caller o)
  of_command :
      {c : Captured} {token item_id : String} {command : ItemCommand} (o : Outcome CommandResponse)
      → Settles (at_command c token item_id command) (command_settled c o)

-- What a call meets: the answers to its request, by the service, and the token that
-- `getDisplayToken` resolves to.
pub record World : Type 0 where
  pub users : Fetch LoginResponse
  pub orders : Fetch (List ProductionOrder)
  pub display_orders : Fetch (List DisplayOrder)
  pub detail : Fetch OrderDetail
  pub commands : Fetch CommandBody
  pub display_token : Outcome String

abbrev pub no_options : CommandOptions
no_options = record { expected_version = none; reason = none }

pub data Action : Type 0 where
  did : Event → Action  -- what the user does, or a tick of the interval
  answered : ℕ → World → Action  -- the call in this place settles

abbrev pub is_outcome : Event → Bool
is_outcome (display_token_settled _) = true
is_outcome (login_settled _) = true
is_outcome (orders_settled _ _) = true
is_outcome (display_orders_settled _ _) = true
is_outcome (detail_settled _ _) = true
is_outcome (command_settled _ _) = true
is_outcome _ = false

module _ (urls : ServiceBaseUrls) where
  abbrev pub answer : World → Await → Event
  answer w at_display_token = display_token_settled w.display_token
  answer w (at_login login_value password) = login_settled (login urls w.users login_value password)
  answer w (at_orders caller token) = orders_settled caller (fetch_orders urls w.orders token none)
  answer w (at_display_orders caller token) =
      display_orders_settled caller (fetch_display_orders urls w.display_orders token)
  answer w (at_detail caller token order_id) =
      detail_settled caller (fetch_order_detail urls w.detail token order_id)
  answer w (at_command c token item_id command) =
      command_settled c (send_item_command urls w.commands token item_id command no_options)

  pub answer-Settles : (w : World) (a : Await) → Settles a (answer w a)
  answer-Settles w at_display_token = of_display_token _
  answer-Settles w (at_login l p) = of_login _
  answer-Settles w (at_orders caller token) = of_orders _
  answer-Settles w (at_display_orders caller token) = of_display_orders _
  answer-Settles w (at_detail caller token order_id) = of_detail _
  answer-Settles w (at_command c token item_id command) = of_command _

  abbrev pub settle : World → Option (Await × List Await) → System → System
  settle w none s = s
  settle w (some (a, others)) s = perform (answer w a) (record s { awaited = others })

  unfoldable pub act : Action → System → System
  act (did e) s = if offered (screen s.app) e s.app && not (is_outcome e) then perform e s else s
  act (answered place w) s = settle w (take_out place s.awaited) s

  unfoldable pub act_all : List Action → System → System
  act_all [] s = s
  act_all (a ∷ actions) s = act_all actions (act a s)
