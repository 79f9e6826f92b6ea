-- ===== src/StaffClient/System/Runs.antt =====
-- The component beside its services, against the machine of App/Step.
use agentic_restaurant.Base.{
  ◌≤◌, ◌≡◌, refl, sym, ap, ◌∙◌, ◌++◌, length, length-append, subst, List, [], ◌∷◌, Option, true,
  take_out, Bool-cases, Option-cases, inl, inr, arith,
}
use agentic_restaurant.UiCommon.TextSize.{TextSize}
use agentic_restaurant.StaffClient.Config.{ServiceBaseUrls}
use agentic_restaurant.StaffClient.Session.{PersistedSession}
use agentic_restaurant.StaffClient.App.{State, Event}
use agentic_restaurant.StaffClient.App.View.{screen, detail_panel}
use agentic_restaurant.StaffClient.App.Step.{offered, react, step, run}
use agentic_restaurant.StaffClient.App.Browsing.{step-of_offered, run-append}
use agentic_restaurant.StaffClient.App.Invariant.{Inv, run-Inv, mount-Inv}
use agentic_restaurant.StaffClient.System.{
  Await, System, Settles, of_display_token, of_login, of_orders, of_display_orders, of_detail,
  of_command, Action, did, answered, answer, answer-Settles, perform, act, act_all, opened,
  is_outcome,
}

settled-offered : (a : Await) (e : Event) (s : State) → Settles a e → offered (screen s) e s ≡ true
unfolding screen detail_panel
settled-offered a e s (of_display_token o) = ground arith
settled-offered a e s (of_login o) = ground arith
settled-offered a e s (of_orders o) = ground arith
settled-offered a e s (of_display_orders o) = ground arith
settled-offered a e s (of_detail o) = ground arith
settled-offered a e s (of_command o) = ground arith

perform-step :
    (e : Event) (s : System)
    → offered (screen s.app) e s.app ≡ true
    → (perform e s).app ≡ step e s.app
unfolding perform react
perform-step e s h = sym (step-of_offered e s.app h)

pub opened-Inv :
    (persisted : Option PersistedSession) (text_size : TextSize)
    → Inv (opened persisted text_size).app
opened-Inv persisted text_size = mount-Inv persisted text_size

module _ (urls : ServiceBaseUrls) where
  act-run :
      (action : Action) (s : System)
      → (es : List Event) × ((act urls action s).app ≡ run es s.app) × (length es ≤ 1)
  unfolding act run
  act-run (did e) s = elim (Bool-cases (offered (screen s.app) e s.app)) [
    | inr refused ↦ ([], rw refused, omega arith)
    | inl possible ↦ elim (Bool-cases (is_outcome e)) [
      | inl outcome ↦ ([], rw (possible, outcome), omega arith)
      | inr by_user ↦ (e ∷ [], rw (possible, by_user) (perform-step e s possible), omega arith)
    ]
  ]
  act-run (answered place w) s = elim (Option-cases (take_out place s.awaited)) [
    | inl e ↦ ([], rw e, omega arith)
    | inr ((a, others), e) ↦
        let event = answer urls w a in
        (
          event ∷ [],
          rw e (
              perform-step event (record s { awaited = others })
                (settled-offered a event s.app (answer-Settles urls w a))),
          omega arith,
        )
  ]

  pub act-Inv : (action : Action) (s : System) → Inv s.app → Inv (act urls action s).app
  act-Inv action s v = let (es, e, m) = act-run action s in subst Inv (sym e) (run-Inv es s.app v)

  -- Whatever the user does and whatever the services answer, the state is one that the machine
  -- reaches, by a run of at most as many events.
  pub staff_act_all-run :
      (actions : List Action) (s : System)
      → (es : List Event) × ((act_all urls actions s).app ≡ run es s.app)
        × (length es ≤ length actions)
  unfolding act_all
  staff_act_all-run [] s = ([], unfold run in refl, omega arith)
  staff_act_all-run (a ∷ actions) s =
      let (es, e, m) = act-run a s in
      let (fs, f, n) = staff_act_all-run actions (act urls a s) in
      (
        es ++ fs,
        f ∙ (ap (run fs) e ∙ sym (run-append es fs s.app)),
        omega (arith, length-append es fs),
      )
