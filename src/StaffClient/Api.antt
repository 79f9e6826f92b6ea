-- ===== src/StaffClient/Api.antt =====
-- The calls of the services: features/auth/api.ts and features/production/api.ts. `fetch` is a
-- parameter. A body is cast to the declared type, as in the source.
pub mod Laws
use agentic_restaurant.Base.{
  ℕ, String, Option, none, some, or_else, List, [], ◌∷◌, if◌then◌else◌, ◌==◌, Outcome, resolved,
  rejected, error, ◌>>=◌,
}
use agentic_restaurant.Base.Json.{Json, num, str, obj, end, field, field?, is_text}
use agentic_restaurant.Base.Http.{Part, text, number, Request, Response, Fetch, json_or_throw}
use agentic_restaurant.StaffClient.Config.{ServiceBaseUrls}
use agentic_restaurant.StaffClient.Production.{
  ProductionOrder, DisplayOrder, OrderDetail, CommandResponse, ItemCommand, command_name,
}
use mathlib.Core.Option

pub record UserSummary : Type 0 where
  pub id : ℕ
  pub login : String
  pub display_name : Option String
  pub client_type : Option String

-- `LoginResponse` and `AppTokenResponse` have the same fields.
pub record LoginResponse : Type 0 where
  pub access_token : String
  pub token_type : String
  pub expires_in_seconds : ℕ
  pub user : UserSummary

-- The body of a command's response: on a conflict only its `error` is read, else it is the response.
pub record CommandBody : Type 0 where
  pub error_message : Option String
  pub response : CommandResponse

pub record CommandOptions : Type 0 where
  pub expected_version : Option ℕ
  pub reason : Option String

abbrev json_header : String × List Part
json_header = ("Content-Type", text "application/json" ∷ [])

abbrev pub bearer : String → String × List Part
bearer token = ("Authorization", text "Bearer " ∷ text token ∷ [])

-- `options?.reason` is written only if it is not empty.
abbrev reason_field : Option String → Option Json
reason_field none = none
reason_field (some reason) = if is_text reason then some (str reason) else none

-- A query's `status` is set only if it is not empty; the limit always.
abbrev status_query : Option String → List Part
status_query none = text "?limit=200" ∷ []
status_query (some status) =
    if is_text status
    then text "?status=" ∷ text status ∷ text "&limit=200" ∷ []
    else text "?limit=200" ∷ []

module _ (urls : ServiceBaseUrls) where
  abbrev pub login_request : String → String → Request
  login_request login_value password = record {
    method = "POST";
    url = text urls.users_service ∷ text "/api/v1/auth/login" ∷ [];
    headers = json_header ∷ [];
    body = some (obj (field "login" (str login_value) (field "password" (str password) end)));
  }

  unfoldable pub login : Fetch LoginResponse → String → String → Outcome LoginResponse
  login fetch login_value password = do
    response ← fetch (login_request login_value password)
    json_or_throw "Login failed. Check credentials and try again." response

  abbrev pub app_token_request : String → String → Request
  app_token_request name secret = record {
    method = "POST";
    url = text urls.users_service ∷ text "/api/v1/auth/applications/token" ∷ [];
    headers = json_header ∷ [];
    body =
        some
          (obj (field "applicationName" (str name) (field "applicationSecret" (str secret) end)));
  }

  unfoldable pub acquire_app_token : Fetch LoginResponse → String → String → Outcome LoginResponse
  acquire_app_token fetch name secret = do
    response ← fetch (app_token_request name secret)
    json_or_throw "Application token acquisition failed." response

  abbrev get_request : String → List Part → Request
  get_request token url = record {
    method = "GET";
    url = url;
    headers = bearer token ∷ [];
    body = none;
  }

  -- A status is written as it stands: those that the client has need no escape in a query.
  abbrev pub orders_request : String → Option String → Request
  orders_request token status =
      get_request token
        (text urls.production_service ∷ text "/api/v1/production/orders" ∷ status_query status)

  unfoldable pub fetch_orders :
      Fetch (List ProductionOrder) → String → Option String → Outcome (List ProductionOrder)
  fetch_orders fetch token status = do
    response ← fetch (orders_request token status)
    json_or_throw "Failed to load production orders." response

  abbrev pub display_orders_request : String → Request
  display_orders_request token = get_request token (
      text urls.production_service
      ∷ text "/api/v1/production/display/orders"
      ∷ text "?limit=200"
      ∷ [])

  unfoldable pub fetch_display_orders :
      Fetch (List DisplayOrder) → String → Outcome (List DisplayOrder)
  fetch_display_orders fetch token = do
    response ← fetch (display_orders_request token)
    json_or_throw "Failed to load production orders." response

  abbrev pub detail_request : String → ℕ → Request
  detail_request token order_id =
      get_request token
        (text urls.production_service ∷ text "/api/v1/production/orders/" ∷ number order_id ∷ [])

  unfoldable pub fetch_order_detail : Fetch OrderDetail → String → ℕ → Outcome OrderDetail
  fetch_order_detail fetch token order_id = do
    response ← fetch (detail_request token order_id)
    json_or_throw "Failed to load order detail." response

  abbrev pub command_request : String → String → ItemCommand → CommandOptions → Request
  command_request token item_id command options = record {
    method = "POST";
    url =
        text urls.production_service
        ∷ text "/api/v1/production/items/"
        ∷ text item_id
        ∷ text "/"
        ∷ text (command_name command)
        ∷ [];
    headers = json_header ∷ bearer token ∷ [];
    body = some (
        obj (
          field? "expectedVersion" (Option.map num options.expected_version)
            (field? "reason" (reason_field options.reason) end)));
  }

  conflict : CommandBody → Outcome CommandResponse
  conflict body =
      rejected
        (error (or_else body.error_message "Conflict: item was modified or transition is invalid."))

  command_result : Response CommandBody → Outcome CommandResponse
  unfolding conflict
  command_result response =
      if response.status == 409
      then (response.json >>= conflict)
      else if response.status == 404
      then rejected (error "Item not found.")
      else (do body ← json_or_throw "Command failed." response; resolved body.response)

  unfoldable pub send_item_command :
      Fetch CommandBody → String → String → ItemCommand → CommandOptions → Outcome CommandResponse
  unfolding command_result
  send_item_command fetch token item_id command options = do
    response ← fetch (command_request token item_id command options)
    command_result response
