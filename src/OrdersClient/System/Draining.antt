-- ===== src/OrdersClient/System/Draining.antt =====
-- What becomes of the calls that the component awaits, when they are answered.
use agentic_restaurant.Base.{
  ℕ, zero, suc, ◌+◌, ◌%◌, ◌⊎◌, ◌-◌, take_out-of_lt, ◌≤◌, ◌≡◌, refl, false, Option, some, List, [],
  ◌∷◌, resolved, rejected, take_out, length, Option-cases, inl, inr, arith,
}
use agentic_restaurant.UiCommon.TextSize.{TextSize}
use agentic_restaurant.OrdersClient.Config.{ServiceBaseUrls}
use agentic_restaurant.OrdersClient.Session.{SessionAuth}
use agentic_restaurant.OrdersClient.App.{State, Event}
use agentic_restaurant.OrdersClient.App.Handlers.{
  on_login_settled, on_app_token_settled, on_guest_settled, on_first_menu, on_menu_settled,
  on_order_settled, complete_authentication,
}
use agentic_restaurant.OrdersClient.App.Step.{handle}
use agentic_restaurant.OrdersClient.System.{
  Await, Settles, answer-Settles, of_login, of_app_token, of_guest, of_first_menu, of_menu,
  of_order, at_login, at_app_token, at_guest, at_first_menu, at_menu, at_order, System, perform,
  World, Action, answered, answer, act, act_all, opened,
}
use agentic_restaurant.OrdersClient.System.Loading.{IsTracked, act-IsTracked, used-IsTracked}

-- The answers that are left until a handler ends: a guest needs a token, an account and the menu.
abbrev pub work_of : Await → ℕ
work_of (at_login _ _) = 2
work_of (at_app_token _) = 3
work_of (at_guest _ _) = 2
work_of (at_first_menu _ _) = 1
work_of (at_menu _) = 1
work_of (at_order _ _ _) = 1

abbrev pub work : List Await → ℕ
work [] = 0
work (a ∷ awaited) = work_of a + work awaited

settled-work :
    (app : State) (others : List Await) (a : Await) (e : Event)
    → Settles a e
    → work (perform e (record { app = app; awaited = others })).awaited + 1 ≤ work (a ∷ others)
unfolding perform handle on_login_settled on_guest_settled on_app_token_settled on_first_menu
    on_menu_settled on_order_settled complete_authentication
settled-work app others a e (of_login (resolved r)) = ground arith
settled-work app others a e (of_login (rejected t)) = ground arith
settled-work app others a e (of_app_token (resolved r)) = ground arith
settled-work app others a e (of_app_token (rejected t)) = ground arith
settled-work app others a e (of_guest (resolved r)) = ground arith
settled-work app others a e (of_guest (rejected t)) = ground arith
settled-work app others a e (of_first_menu (resolved r)) = ground arith
settled-work app others a e (of_first_menu (rejected t)) = ground arith
settled-work app others a e (of_menu (resolved r)) = ground arith
settled-work app others a e (of_menu (rejected t)) = ground arith
settled-work app others a e (of_order (resolved r)) = ground arith
settled-work app others a e (of_order (rejected t)) = ground arith

work-take_out :
    (place : ℕ) (awaited : List Await) (a : Await) (others : List Await)
    → take_out place awaited ≡ some (a, others)
    → work (a ∷ others) ≡ work awaited
work-take_out place [] a others e = ground arith
work-take_out zero (b ∷ bs) a others e = ground arith
work-take_out (suc place) (b ∷ bs) a others e = elim (Option-cases (take_out place bs)) [
  | inl f ↦ ground arith
  | inr ((c, cs), f) ↦ ground (arith, work-take_out place bs c cs f)
]

Nil-cases : (awaited : List Await) → (awaited ≡ []) ⊎ (1 ≤ length awaited)
Nil-cases [] = inl refl
Nil-cases (a ∷ awaited) = inr (omega arith)

work_of-positive : (a : Await) → 1 ≤ work_of a
work_of-positive a = ground arith

idle :
    (s : System)
    → IsTracked s
    → s.awaited ≡ []
    → (s.awaited ≡ [])
      × (s.app.auth_loading ≡ false)
      × (s.app.menu_loading ≡ false)
      × (s.app.submit_loading ≡ false)
idle s v e = ground arith

work-nil : (awaited : List Await) → work awaited ≤ 0 → awaited ≡ []
work-nil [] h = refl
work-nil (a ∷ awaited) h = absurd (omega (arith, work_of-positive a, h))

module _ (urls : ServiceBaseUrls) (pick : System → ℕ) (world : System → World) where
  -- One of the calls that are awaited settles: in any order, with any answer.
  abbrev pub one_answer : System → System
  one_answer s = act urls (answered (pick s % length s.awaited) (world s)) s

  unfoldable pub drain : ℕ → System → System
  drain zero s = s
  drain (suc fuel) s = drain fuel (one_answer s)

  one_answer-work : (s : System) → work (one_answer s).awaited ≤ work s.awaited - 1
  unfolding act
  one_answer-work s = elim (Nil-cases s.awaited) [
    | inl e ↦ rw e (omega arith)
    | inr h ↦
        let (a, others, e) = take_out-of_lt (pick s % length s.awaited) s.awaited (omega arith) in
        rw e (
          omega (
            arith,
            settled-work s.app others a (answer urls (world s) a) (answer-Settles urls (world s) a),
            work-take_out (pick s % length s.awaited) s.awaited a others e,
          ))
  ]

  drain-IsTracked : (fuel : ℕ) (s : System) → IsTracked s → IsTracked (drain fuel s)
  unfolding drain
  drain-IsTracked zero s v = v
  drain-IsTracked (suc fuel) s v =
      drain-IsTracked fuel (one_answer s)
        (act-IsTracked urls (answered (pick s % length s.awaited) (world s)) s v)

  drain-work : (fuel : ℕ) (s : System) → work (drain fuel s).awaited ≤ work s.awaited - fuel
  unfolding drain
  drain-work zero s = omega arith
  drain-work (suc fuel) s = omega (arith, drain-work fuel (one_answer s), one_answer-work s)

  drain-idle :
      (fuel : ℕ) (s : System)
      → IsTracked s
      → work s.awaited ≤ fuel
      → let t = drain fuel s in
        (t.awaited ≡ [])
        × (t.app.auth_loading ≡ false)
        × (t.app.menu_loading ≡ false)
        × (t.app.submit_loading ≡ false)
  drain-idle fuel s v h =
      idle (drain fuel s) (drain-IsTracked fuel s v)
        (work-nil (drain fuel s).awaited (omega (arith, h, drain-work fuel s)))

  -- However the orders client has been used since it was loaded: when the calls that it then
  -- awaits are answered, in any order and with any answers, and nothing else happens, as many
  -- answers as `work` counts (three for a guest who signs in, two for a user, one for the menu or
  -- an order) leave nothing awaited and nothing shown as loading.
  pub drained :
      (existing : Option SessionAuth) (text_size : TextSize) (actions : List Action)
      → let s = act_all urls actions (opened existing text_size) in
        let t = drain (work s.awaited) s in
        (t.awaited ≡ [])
        × (t.app.auth_loading ≡ false)
        × (t.app.menu_loading ≡ false)
        × (t.app.submit_loading ≡ false)
  drained existing text_size actions =
      let s : System = act_all urls actions (opened existing text_size) in
      drain-idle (work s.awaited) s (used-IsTracked urls existing text_size actions) (omega arith)
