-- ===== src/OrdersClient/Api.antt =====
-- The calls of the services: features/auth/api.ts, features/menu/api.ts, features/orders/api.ts.
-- `fetch` is a parameter. A body is cast to the declared type, as in the source.
pub mod Laws
use agentic_restaurant.Base.{
  ℕ, String, Bool, true, Option, none, some, or_else, List, [], ◌∷◌, map, if◌then◌else◌, Outcome,
  resolved, rejected, error, ◌>>=◌,
}
use agentic_restaurant.Base.Json.{Json, Items, Fields, num, str, arr, obj, nil, cons, end, field}
use agentic_restaurant.Base.Http.{Part, text, number, Request, Response, Fetch, json_or_throw}
use agentic_restaurant.OrdersClient.Config.{ServiceBaseUrls}
use agentic_restaurant.OrdersClient.Basket.{MenuItem, BasketLine}

pub data ClientType : Type 0 where
  registered_user guest_user application : ClientType

pub record UserSummary : Type 0 where
  pub id : ℕ
  pub login : String
  pub display_name : Option String
  pub client_type : Option ClientType

-- `LoginResponse`, `AppTokenResponse` and `GuestLoginResponse` have the same fields.
pub record LoginResponse : Type 0 where
  pub access_token : String
  pub token_type : String
  pub expires_in_seconds : ℕ
  pub user : UserSummary

-- `{ items: MenuItem[] }`, whose `items` may be missing at run time.
pub record MenuBody : Type 0 where
  pub items : Option (List MenuItem)

pub record OrderSubmitResponse : Type 0 where
  pub order_id : ℕ
  pub request_id : String
  pub status : String
  pub total_amount : ℕ
  pub user_display_name : Option String

abbrev pub json_header : String × List Part
json_header = ("Content-Type", text "application/json" ∷ [])

abbrev pub bearer : String → String × List Part
bearer token = ("Authorization", text "Bearer " ∷ text token ∷ [])

-- `lines.map((line) => ({ itemId: line.item.id, quantity: line.quantity }))`
abbrev pub order_items : List BasketLine → Items
order_items [] = nil
order_items (line ∷ lines) =
    cons (obj (field "itemId" (num line.item.id) (field "quantity" (num line.quantity) end)))
      (order_items lines)

module _ (urls : ServiceBaseUrls) where
  abbrev pub login_request : String → String → Request
  login_request login_value password = record {
    method = "POST";
    url = text urls.users_service ∷ text "/api/v1/auth/login" ∷ [];
    headers = json_header ∷ [];
    body = some (obj (field "login" (str login_value) (field "password" (str password) end)));
  }

  unfoldable pub login : Fetch LoginResponse → String → String → Outcome LoginResponse
  login fetch login_value password = do
    response ← fetch (login_request login_value password)
    json_or_throw "Login failed. Check credentials and try again." response

  abbrev pub app_token_request : String → String → Request
  app_token_request name secret = record {
    method = "POST";
    url = text urls.users_service ∷ text "/api/v1/auth/applications/token" ∷ [];
    headers = json_header ∷ [];
    body =
        some
          (obj (field "applicationName" (str name) (field "applicationSecret" (str secret) end)));
  }

  unfoldable pub acquire_app_token : Fetch LoginResponse → String → String → Outcome LoginResponse
  acquire_app_token fetch name secret = do
    response ← fetch (app_token_request name secret)
    json_or_throw "Application token acquisition failed." response

  abbrev pub guest_request : String → String → Request
  guest_request display_name app_token = record {
    method = "POST";
    url = text urls.users_service ∷ text "/api/v1/auth/guests" ∷ [];
    headers = json_header ∷ bearer app_token ∷ [];
    body = some (obj (field "displayName" (str display_name) end));
  }

  unfoldable pub create_guest_user : Fetch LoginResponse → String → String → Outcome LoginResponse
  create_guest_user fetch display_name app_token = do
    response ← fetch (guest_request display_name app_token)
    json_or_throw "Guest creation failed." response

  abbrev pub menu_request : String → Request
  menu_request token = record {
    method = "GET";
    url = text urls.menu_service ∷ text "/api/v1/menu-items" ∷ [];
    headers = bearer token ∷ [];
    body = none;
  }

  unfoldable pub fetch_menu : Fetch MenuBody → String → Outcome (List MenuItem)
  fetch_menu fetch token = do
    response ← fetch (menu_request token)
    body ← json_or_throw "Could not load menu." response
    resolved (or_else body.items [])

  abbrev pub order_request : String → String → ℕ → List BasketLine → Request
  order_request request_id token user_id lines = record {
    method = "PUT";
    url = text urls.orders_service ∷ text "/api/v1/orders/" ∷ text request_id ∷ [];
    headers = json_header ∷ bearer token ∷ [];
    body = some (obj (field "userId" (num user_id) (field "items" (arr (order_items lines)) end)));
  }

  -- `request_id` is what `createRequestId` returns: a random UUID, or a time and a random number.
  unfoldable pub submit_order :
      Fetch OrderSubmitResponse
      → String
      → String
      → ℕ
      → List BasketLine
      → Outcome OrderSubmitResponse
  submit_order fetch request_id token user_id lines = do
    response ← fetch (order_request request_id token user_id lines)
    json_or_throw "Order submission failed." response
