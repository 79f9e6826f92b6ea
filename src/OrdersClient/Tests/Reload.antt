-- ===== src/OrdersClient/Tests/Reload.antt =====
-- A guest who reloads the page.
use agentic_restaurant.Base.{
  ◌≡◌, refl, true, ◌∙◌, or_else, ap, sym, String, none, some, List, [], ◌∷◌, arith, Outcome,
  resolved,
}
use agentic_restaurant.Base.Json.{Json, is_text}
use agentic_restaurant.Base.Text.{trim, utf16_length}
use agentic_restaurant.UiCommon.TextSize.{size1}
use agentic_restaurant.OrdersClient.Session.{
  SessionAuth, Storage, guest, session_json, read_auth_session, write_auth_session,
}
use agentic_restaurant.OrdersClient.Session.Laws.{as_read}
use agentic_restaurant.OrdersClient.App.{
  State, Event, initial, chose_guest, typed_guest_name, submitted_guest, app_token_settled,
  guest_settled, first_menu_settled,
}
use agentic_restaurant.OrdersClient.App.Handlers.{
  on_guest_login, on_app_token_settled, on_guest_settled, on_first_menu,
}
use agentic_restaurant.OrdersClient.App.Step.{step, run}
use agentic_restaurant.OrdersClient.App.Reload.{IsOf, reload_keeps_session}
use agentic_restaurant.OrdersClient.Tests.{soup, of_ann, ann, session, start}

abbrev arrival : List Event
arrival =
    chose_guest
    ∷ typed_guest_name " Ann "
    ∷ submitted_guest
    ∷ app_token_settled "Ann" (resolved "app-token")
    ∷ guest_settled (resolved of_ann)
    ∷ first_menu_settled guest (resolved (soup ∷ []))
    ∷ []

abbrev arrived : State
arrived = run arrival start

arrived_session :
    (arrived.stored ≡ some session) × (arrived.user ≡ some ann) × (is_text arrived.token ≡ true)
unfolding run step initial on_guest_login trim utf16_length on_app_token_settled on_guest_settled
    on_first_menu
arrived_session = (refl, refl, refl)

-- A printer that always prints the same text, and a parser that knows this text only.
abbrev print_one : Json → String
print_one value = "{...}"

abbrev parse_one : String → Outcome Json
parse_one s = resolved (session_json session)

abbrev no_storage : Storage
no_storage key = none

parsed_back :
    (s : SessionAuth)
    → arrived.stored ≡ some s
    → parse_one (print_one (session_json s)) ≡ resolved (session_json s)
parsed_back s e = ap (λ o. resolved (session_json (or_else o session))) (sym arrived_session.0 ∙ e)

reload_keeps_session_example :
    (s : SessionAuth) × (read_auth_session parse_one print_one
        (write_auth_session parse_one print_one arrived.stored no_storage)
      ≡ some (as_read s))
    × IsOf arrived s
    × IsOf (initial (some s) size1) s
reload_keeps_session_example =
    reload_keeps_session parse_one print_one no_storage none size1 arrival ann size1
      arrived_session.1 arrived_session.2 (omega arith) refl (λ s e. (refl, parsed_back s e))
