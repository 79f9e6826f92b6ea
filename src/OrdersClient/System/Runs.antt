-- ===== src/OrdersClient/System/Runs.antt =====
-- The component beside its services, against the machine of App/Step.
use agentic_restaurant.Base.{
  ◌≤◌, ◌≡◌, refl, sym, ap, ◌∙◌, ◌++◌, length, length-append, List, [], ◌∷◌, true, take_out,
  Bool-cases, Option-cases, inl, inr, arith,
}
use agentic_restaurant.OrdersClient.Config.{ServiceBaseUrls}
use agentic_restaurant.OrdersClient.App.{Event}
use agentic_restaurant.OrdersClient.App.View.{screen}
use agentic_restaurant.OrdersClient.App.Step.{offered, step, run}
use agentic_restaurant.OrdersClient.App.Browsing.{
  is_outcome, step-of_offered, outcome_offered, run-append,
}
use agentic_restaurant.OrdersClient.System.{
  Await, System, Settles, of_login, of_app_token, of_guest, of_first_menu, of_menu, of_order,
  Action, did, answered, answer, answer-Settles, perform, act, act_all,
}

outcome-Settles : (a : Await) (e : Event) → Settles a e → is_outcome e ≡ true
outcome-Settles a e (of_login o) = refl
outcome-Settles a e (of_app_token o) = refl
outcome-Settles a e (of_guest o) = refl
outcome-Settles a e (of_first_menu o) = refl
outcome-Settles a e (of_menu o) = refl
outcome-Settles a e (of_order o) = refl

perform-step :
    (e : Event) (s : System)
    → offered (screen s.app) e s.app ≡ true
    → (perform e s).app ≡ step e s.app
unfolding perform
perform-step e s h = sym (step-of_offered e s.app h)

module _ (urls : ServiceBaseUrls) where
  act-run :
      (action : Action) (s : System)
      → (es : List Event) × ((act urls action s).app ≡ run es s.app) × (length es ≤ 1)
  unfolding act run
  act-run (did e) s = elim (Bool-cases (offered (screen s.app) e s.app)) [
    | inr refused ↦ ([], rw refused, omega arith)
    | inl possible ↦ elim (Bool-cases (is_outcome e)) [
      | inl outcome ↦ ([], rw (possible, outcome), omega arith)
      | inr by_user ↦ (e ∷ [], rw (possible, by_user) (perform-step e s possible), omega arith)
    ]
  ]
  act-run (answered place w) s = elim (Option-cases (take_out place s.awaited)) [
    | inl e ↦ ([], rw e, omega arith)
    | inr ((a, others), e) ↦
        let event = answer urls w a in
        (
          event ∷ [],
          rw e (
              perform-step event (record s { awaited = others })
                (outcome_offered event s.app (outcome-Settles a event (answer-Settles urls w a)))),
          omega arith,
        )
  ]

  -- Whatever the user does and whatever the services answer, the state is one that the machine
  -- reaches, by a run of at most as many events.
  pub act_all-run :
      (actions : List Action) (s : System)
      → (es : List Event) × ((act_all urls actions s).app ≡ run es s.app)
        × (length es ≤ length actions)
  unfolding act_all
  act_all-run [] s = ([], unfold run in refl, omega arith)
  act_all-run (a ∷ actions) s =
      let (es, e, m) = act-run a s in
      let (fs, f, n) = act_all-run actions (act urls a s) in
      (
        es ++ fs,
        f ∙ (ap (run fs) e ∙ sym (run-append es fs s.app)),
        omega (arith, length-append es fs),
      )
