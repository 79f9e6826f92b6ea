-- ===== src/StaffClient/Tests/Api.antt =====
-- A command to a service that answers.
use agentic_restaurant.Base.{◌≡◌, ◌↔◌, none, resolved}
use agentic_restaurant.Base.Http.{Response, Fetch}
use agentic_restaurant.StaffClient.Config.{ServiceBaseUrls}
use agentic_restaurant.StaffClient.Production.{pickup}
use agentic_restaurant.StaffClient.Api.{
  CommandBody, CommandOptions, command_request, send_item_command,
}
use agentic_restaurant.StaffClient.Api.Laws.{IsAnswer, send_item_command_iff}
use agentic_restaurant.StaffClient.Tests.{picked_up}

abbrev urls : ServiceBaseUrls
urls = record { users_service = "http://users"; production_service = "http://production" }

abbrev options : CommandOptions
options = record { expected_version = none; reason = none }

abbrev answered : Response CommandBody
answered = record {
  status = 200;
  json = resolved (record { error_message = none; response = picked_up });
}

abbrev always : Fetch CommandBody
always request = resolved answered

send_item_command_iff_example :
    (send_item_command urls always "cook-token" "i-1" pickup options ≡ resolved picked_up) ↔ (
      (response : Response CommandBody) × (always
          (command_request urls "cook-token" "i-1" pickup options)
        ≡ resolved response)
      × IsAnswer response picked_up)
send_item_command_iff_example =
    send_item_command_iff urls always "cook-token" "i-1" pickup options picked_up
