-- ===== src/OrdersClient/Session.antt =====
-- features/auth/session.ts: the signed-in session in the tab's `sessionStorage`. `JSON.parse` and
-- `JSON.stringify` are parameters.
pub mod Laws
use agentic_restaurant.Base.{
  ℕ, String, Bool, true, false, not, ◌||◌, Option, none, some, if◌then◌else◌, str_eq, Outcome,
  resolved, rejected, ◌>>=◌,
}
use agentic_restaurant.Base.Json.{
  Json, Fields, num, str, obj, end, field, field?, get, get?, truthy, is_str, is_text,
}
use agentic_restaurant.OrdersClient.Api.{
  ClientType, registered_user, guest_user, application, UserSummary,
}
use mathlib.Core.Option

pub data UiMode : Type 0 where
  registered guest : UiMode

pub record SessionAuth : Type 0 where
  pub token : String
  pub mode : UiMode
  pub user : UserSummary

-- What `readAuthSession` returns: the stored values themselves, cast but not checked.
pub record ReadSession : Type 0 where
  pub token : Option Json
  pub user : Option Json
  pub mode : UiMode

-- `Storage.getItem`; `setItem` and `removeItem` replace the text at one key.
abbrev pub Storage : Type 0
Storage = String → Option String

abbrev pub put_item : String → Option String → Storage → Storage
put_item key value storage k = if str_eq key k then value else storage k

abbrev pub auth_storage_key : String
auth_storage_key = "orders-client-auth"

abbrev pub normalize_mode : Option Json → Option Json → UiMode
normalize_mode candidate client_type =
    if is_str "registered" candidate
    then registered
    else if is_str "guest" candidate
    then guest
    else if is_str "GUEST_USER" client_type
    then guest
    else registered

abbrev pub client_type_name : ClientType → String
client_type_name registered_user = "REGISTERED_USER"
client_type_name guest_user = "GUEST_USER"
client_type_name application = "APPLICATION"

abbrev pub mode_name : UiMode → String
mode_name registered = "registered"
mode_name guest = "guest"

abbrev pub user_json : UserSummary → Json
user_json user = obj (
    field "id" (num user.id) (
      field "login" (str user.login) (
        field? "displayName" (Option.map str user.display_name)
          (field? "clientType" (Option.map (λ c. str (client_type_name c)) user.client_type) end))))

abbrev pub session_json : SessionAuth → Json
session_json session = obj (
    field "token" (str session.token)
      (field "user" (user_json session.user) (field "mode" (str (mode_name session.mode)) end)))

-- The body of the `try`: `none` is `return null`, a rejection is a thrown TypeError.
unfoldable pub check_session : Json → Outcome (Option ReadSession)
check_session parsed = do
  token ← get "token" parsed
  user ← get "user" parsed
  mode ← get "mode" parsed
  resolved (
      if not (truthy token) || not (truthy (get? "id" user)) || not (truthy (get? "login" user))
      then none
      else some (record {
        token = token;
        user = user;
        mode = normalize_mode mode (get? "clientType" user);
      }))

-- `catch { return null; }`
abbrev pub null_if_thrown {ℓ} : {A : Type ℓ} → Outcome (Option A) → Option A
null_if_thrown (resolved r) = r
null_if_thrown (rejected _) = none

module _ (parse : String → Outcome Json) (stringify : Json → String) where
  read_raw : Option String → Option ReadSession
  read_raw none = none
  read_raw (some raw) =
      if not (is_text raw) then none else null_if_thrown (parse raw >>= check_session)

  unfoldable pub read_auth_session : Storage → Option ReadSession
  unfolding read_raw
  read_auth_session storage = read_raw (storage auth_storage_key)

  unfoldable pub write_auth_session : Option SessionAuth → Storage → Storage
  write_auth_session none storage = put_item auth_storage_key none storage
  write_auth_session (some session) storage =
      put_item auth_storage_key (some (stringify (session_json session))) storage
