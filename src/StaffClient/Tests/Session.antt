-- ===== src/StaffClient/Tests/Session.antt =====
-- A session in the storage of a tab.
use agentic_restaurant.Base.{◌≡◌, refl, String, none, some, arith, Outcome, resolved}
use agentic_restaurant.Base.Json.{Json, str}
use agentic_restaurant.StaffClient.Session.{
  interactive_session, read_interactive, Storage, session_json, user_json, read_persisted_session,
  write_interactive_session,
}
use agentic_restaurant.StaffClient.Session.Laws.{read-write_interactive_session}
use agentic_restaurant.StaffClient.Tests.{cook}

-- A printer that always prints the same text, and a parser that knows this text only.
abbrev print_one : Json → String
print_one value = "{...}"

abbrev parse_one : String → Outcome Json
parse_one s = resolved (session_json (interactive_session "cook-token" cook.user))

abbrev no_storage : Storage
no_storage key = none

read-write_interactive_session_example :
    read_persisted_session parse_one print_one
      (write_interactive_session parse_one print_one "cook-token" cook.user no_storage)
    ≡ some (read_interactive (some (str "cook-token")) (some (user_json cook.user)))
read-write_interactive_session_example =
    read-write_interactive_session parse_one print_one no_storage "cook-token" cook.user refl
      (omega arith) refl refl refl
