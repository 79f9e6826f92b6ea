-- ===== src/StaffClient/Api/Laws.antt =====
-- What a command's response leads to.
use agentic_restaurant.Base.{
  String, ◌≡◌, ◌↔◌, refl, true, Outcome, resolved, rejected, arith, inl, inr, ◌⊎◌, ◌>>=◌,
}
use agentic_restaurant.Base.Http.{Response, Fetch, is_ok}
use agentic_restaurant.StaffClient.Config.{ServiceBaseUrls}
use agentic_restaurant.StaffClient.Production.{CommandResponse, ItemCommand}
use agentic_restaurant.StaffClient.Api.{
  CommandBody, CommandOptions, command_request, command_result, conflict, send_item_command,
}

-- A response of success with a body that can be read as this answer.
pub record IsAnswer (response : Response CommandBody) (answer : CommandResponse) : Type 0 where
  pub accepted : is_ok response.status ≡ true
  pub read : (body : CommandBody) × (response.json ≡ resolved body) × (body.response ≡ answer)

Outcome-cases :
    {A : Type 0} (o : Outcome A) → ((a : A) × (o ≡ resolved a)) ⊎ ((e : _) × (o ≡ rejected e))
Outcome-cases (resolved a) = inl (a, refl)
Outcome-cases (rejected e) = inr (e, refl)

module _ (urls : ServiceBaseUrls) where
  command_result_iff :
      (response : Response CommandBody) (answer : CommandResponse)
      → (command_result urls response ≡ resolved answer) ↔ IsAnswer response answer
  unfolding command_result conflict
  command_result_iff response answer = elim (Outcome-cases response.json) [
    | inl (body, e) ↦ rw e (λ h. ground arith, λ h. ground arith)
    | inr (x, e) ↦ rw e (λ h. ground arith, λ h. ground arith)
  ]

  after_fetch :
      (o : Outcome (Response CommandBody)) (answer : CommandResponse)
      → ((o >>= command_result urls) ≡ resolved answer)
        ↔ ((response : Response CommandBody) × (o ≡ resolved response) × IsAnswer response answer)
  after_fetch (resolved r) answer = (
    λ h. (r, refl, (command_result_iff r answer).0 h),
    λ (x, e, v). let h = (command_result_iff x answer).1 v in cc (e, h),
  )
  after_fetch (rejected x) answer = (λ h. cc, λ (r, e, v). cc)

  -- A command resolves with an answer exactly if the fetch of its request resolves with a status
  -- of success and with a body that is that answer; in every other case it does not.
  pub send_item_command_iff :
      (fetch : Fetch CommandBody) (token item_id : String) (command : ItemCommand)
      (options : CommandOptions) (answer : CommandResponse)
      → (send_item_command urls fetch token item_id command options ≡ resolved answer) ↔ (
          (response : Response CommandBody) × (fetch
              (command_request urls token item_id command options)
            ≡ resolved response)
          × IsAnswer response answer)
  unfolding send_item_command
  send_item_command_iff fetch token item_id command options answer =
      after_fetch (fetch (command_request urls token item_id command options)) answer
