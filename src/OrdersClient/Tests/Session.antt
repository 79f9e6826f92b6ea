-- ===== src/OrdersClient/Tests/Session.antt =====
-- A session in the storage of a tab.
use agentic_restaurant.Base.{◌≡◌, refl, String, none, some, arith, Outcome, resolved}
use agentic_restaurant.Base.Json.{Json}
use agentic_restaurant.OrdersClient.Session.{
  Storage, session_json, read_auth_session, write_auth_session, check_session,
}
use agentic_restaurant.OrdersClient.Session.Laws.{as_read, read_auth_session-write_auth_session}
use agentic_restaurant.OrdersClient.Tests.{session}

-- A printer that always prints the same text, and a parser that knows this text only.
abbrev print_one : Json → String
print_one value = "{...}"

abbrev parse_one : String → Outcome Json
parse_one s = resolved (session_json session)

abbrev no_storage : Storage
no_storage key = none

read_auth_session-write_auth_session_example :
    read_auth_session parse_one print_one
      (write_auth_session parse_one print_one (some session) no_storage)
    ≡ some (as_read session)
read_auth_session-write_auth_session_example =
    read_auth_session-write_auth_session parse_one print_one no_storage session (ground arith) refl
      refl

abbrev some_storage : Storage
some_storage key = some "{...}"

some_session : read_auth_session parse_one print_one some_storage ≡ some (as_read session)
unfolding read_auth_session check_session
some_session = refl
