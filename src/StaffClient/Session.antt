-- ===== src/StaffClient/Session.antt =====
-- features/auth/session.ts: the mode in which the client runs, in the tab's `sessionStorage`.
-- `JSON.parse` and `JSON.stringify` are parameters.
pub mod Laws
use agentic_restaurant.Base.{
  ℕ, String, Bool, true, false, not, ◌||◌, Option, none, some, if◌then◌else◌, str_eq, Outcome,
  resolved, rejected, ◌>>=◌,
}
use agentic_restaurant.Base.Json.{
  Json, Fields, num, str, obj, end, field, field?, get, get?, truthy, is_str, is_text,
}
use agentic_restaurant.StaffClient.Api.{UserSummary}
use mathlib.Core.Option

pub data UiMode : Type 0 where
  interactive display : UiMode

pub data AuthKind : Type 0 where
  user_auth application_auth : AuthKind

pub record UiSession : Type 0 where
  pub mode : UiMode
  pub auth_kind : AuthKind
  pub access_token : String
  pub user : Option UserSummary

pub data PersistedSession : Type 0 where
  interactive_session : String → UserSummary → PersistedSession
  display_session : PersistedSession

-- What `readPersistedSession` returns: the stored values themselves, cast but not checked.
pub data ReadSession : Type 0 where
  read_interactive : Option Json → Option Json → ReadSession
  read_display : ReadSession

abbrev pub Storage : Type 0
Storage = String → Option String

abbrev pub put_item : String → Option String → Storage → Storage
put_item key value storage k = if str_eq key k then value else storage k

abbrev pub auth_storage_key : String
auth_storage_key = "staff-client-auth"

abbrev pub user_json : UserSummary → Json
user_json user = obj (
    field "id" (num user.id) (
      field "login" (str user.login) (
        field? "displayName" (Option.map str user.display_name)
          (field? "clientType" (Option.map str user.client_type) end))))

abbrev pub session_json : PersistedSession → Json
session_json (interactive_session token user) = obj (
    field "mode" (str "interactive")
      (field "token" (str token) (field "user" (user_json user) end)))
session_json display_session = obj (field "mode" (str "display") end)

check_interactive : Option Json → Option Json → Option ReadSession
check_interactive token user =
    if not (truthy token) || not (truthy (get? "id" user)) || not (truthy (get? "login" user))
    then none
    else some (read_interactive token user)

-- The body of the `try`: `none` is `return null`, a rejection is a thrown TypeError. A value that
-- has a `mode` is no `null`, so its other properties are read without a throw.
unfoldable pub check_session : Json → Outcome (Option ReadSession)
unfolding check_interactive
check_session parsed = do
  mode ← get "mode" parsed
  token ← get "token" parsed
  user ← get "user" parsed
  resolved (
      if is_str "interactive" mode
      then check_interactive token user
      else if is_str "display" mode
      then some read_display
      else none)

-- `catch { return null; }`
abbrev pub null_if_thrown {ℓ} : {A : Type ℓ} → Outcome (Option A) → Option A
null_if_thrown (resolved r) = r
null_if_thrown (rejected _) = none

module _ (parse : String → Outcome Json) (stringify : Json → String) where
  read_raw : Option String → Option ReadSession
  read_raw none = none
  read_raw (some raw) =
      if not (is_text raw) then none else null_if_thrown (parse raw >>= check_session)

  unfoldable pub read_persisted_session : Storage → Option ReadSession
  unfolding read_raw
  read_persisted_session storage = read_raw (storage auth_storage_key)

  abbrev write_session : PersistedSession → Storage → Storage
  write_session session = put_item auth_storage_key (some (stringify (session_json session)))

  unfoldable pub write_interactive_session : String → UserSummary → Storage → Storage
  write_interactive_session token user = write_session (interactive_session token user)

  unfoldable pub write_display_session : Storage → Storage
  write_display_session = write_session display_session

  unfoldable pub clear_session : Storage → Storage
  clear_session = put_item auth_storage_key none
