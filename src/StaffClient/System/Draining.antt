-- ===== src/StaffClient/System/Draining.antt =====
-- What becomes of the calls that the component awaits, when they are answered.
use agentic_restaurant.Base.{
  ℕ, zero, suc, ◌+◌, ◌-◌, ◌%◌, ◌≤◌, ◌≡◌, ◌⊎◌, refl, String, true, false, Option, none, some, List,
  [], ◌∷◌, ◌++◌, Outcome, resolved, rejected, take_out, take_out-of_lt, length, Option-cases, inl,
  inr, arith, if◌then◌else◌, is_some,
}
use agentic_restaurant.UiCommon.TextSize.{TextSize}
use agentic_restaurant.StaffClient.Config.{ServiceBaseUrls}
use agentic_restaurant.StaffClient.Session.{PersistedSession}
use agentic_restaurant.StaffClient.Api.{LoginResponse}
use agentic_restaurant.StaffClient.App.{State, Event, display_token_settled, login_settled}
use agentic_restaurant.StaffClient.App.Handlers.{
  on_display_token, on_login_settled, load_board, on_orders, on_display_orders, load_detail,
  on_detail, on_command_settled, enter_display_mode, capture,
}
use agentic_restaurant.StaffClient.App.Effects.{run_effects, wants_display}
use agentic_restaurant.StaffClient.App.Quiet.{run_effects-of_unchanged}
use agentic_restaurant.StaffClient.App.Step.{handle}
use agentic_restaurant.StaffClient.System.{
  Await, Settles, answer-Settles, of_display_token, of_login, of_orders, of_display_orders,
  of_detail, of_command, at_display_token, at_login, at_orders, at_display_orders, at_detail,
  at_command, System, World, perform, Action, answered, answer, act, act_all, opened, awaits,
  caller_of,
}
use agentic_restaurant.StaffClient.System.Loading.{Tracks, act-Tracks, used-Tracks}

-- The answers that are left until a handler ends: a command is followed by the order and the
-- board, and a session that begins by the board.
abbrev pub work_of : Await → ℕ
work_of at_display_token = 2
work_of (at_login _ _) = 2
work_of (at_orders _ _) = 1
work_of (at_display_orders _ _) = 1
work_of (at_detail caller _ _) = if is_some caller then 2 else 1
work_of (at_command _ _ _ _) = 3

abbrev pub work : List Await → ℕ
work [] = 0
work (a ∷ awaited) = work_of a + work awaited

after : Event → State → List Await → List Await
after e app awaited =
    awaits (caller_of e) (capture app.session app.selected_order_id) (handle e app).1 ++ awaited

-- No effect enters the display mode while a session begins, and at most the board is loaded.
effects-work :
    (before t : State) (awaited : List Await)
    → wants_display t ≡ false
    → work (awaits none none (run_effects before t).1 ++ awaited) ≤ work awaited + 1
unfolding run_effects load_board enter_display_mode
effects-work before t awaited h = ground arith

display_token-work :
    (s : State) (others : List Await) (o : Outcome String)
    → work (perform (display_token_settled o) (record { app = s; awaited = others })).awaited
      ≤ work others + 1
unfolding perform handle on_display_token
display_token-work s others (resolved t) =
    effects-work s (on_display_token (resolved t) s) others (ground arith)
display_token-work s others (rejected t) =
    rw (run_effects-of_unchanged s (on_display_token (rejected t) s) refl refl) (omega arith)

quiet-work :
    (e : Event) (s : System)
    → (handle e s.app).0.view ≡ s.app.view
    → (handle e s.app).0.session ≡ s.app.session
    → (perform e s).awaited ≡ after e s.app s.awaited
unfolding perform after
quiet-work e s v k = rw (run_effects-of_unchanged s.app (handle e s.app).0 v k)

login-work :
    (s : State) (others : List Await) (o : Outcome LoginResponse)
    → work (perform (login_settled o) (record { app = s; awaited = others })).awaited
      ≤ work others + 1
unfolding perform handle on_login_settled
login-work s others (resolved r) =
    effects-work s (on_login_settled (resolved r) s) others (ground arith)
login-work s others (rejected t) =
    rw (run_effects-of_unchanged s (on_login_settled (rejected t) s) refl refl) (omega arith)

settled-work :
    (s : State) (others : List Await) (a : Await) (e : Event)
    → Settles a e
    → work (perform e (record { app = s; awaited = others })).awaited + 1 ≤ work (a ∷ others)
unfolding after handle on_orders on_display_orders on_detail on_command_settled load_detail
    load_board
settled-work s others a e (of_display_token o) = omega (arith, display_token-work s others o)
settled-work s others a e (of_login o) = omega (arith, login-work s others o)
settled-work s others a e (of_orders o) =
    rw (quiet-work e (record { app = s; awaited = others }) (ground arith) (ground arith))
      (omega arith)
settled-work s others a e (of_display_orders o) =
    rw (quiet-work e (record { app = s; awaited = others }) (ground arith) (ground arith))
      (omega arith)
settled-work s others a e (of_detail o) =
    rw (quiet-work e (record { app = s; awaited = others }) (ground arith) (ground arith))
      (ground arith)
settled-work s others a e (of_command o) =
    rw (quiet-work e (record { app = s; awaited = others }) (ground arith) (ground arith))
      (ground arith)

work-take_out :
    (place : ℕ) (awaited : List Await) (a : Await) (others : List Await)
    → take_out place awaited ≡ some (a, others)
    → work (a ∷ others) ≡ work awaited
work-take_out place [] a others e = ground arith
work-take_out zero (b ∷ bs) a others e = ground arith
work-take_out (suc place) (b ∷ bs) a others e = elim (Option-cases (take_out place bs)) [
  | inl f ↦ ground arith
  | inr ((c, cs), f) ↦ ground (arith, work-take_out place bs c cs f)
]

Nil-cases : (awaited : List Await) → (awaited ≡ []) ⊎ (1 ≤ length awaited)
Nil-cases [] = inl refl
Nil-cases (a ∷ awaited) = inr (omega arith)

work_of-positive : (a : Await) → 1 ≤ work_of a
work_of-positive a = ground arith

-- Nothing is awaited, and nothing is shown as loading. The page that says that the display connects,
-- which it always does, has an error stored.
pub record IsIdle (s : System) : Type 0 where
  pub awaited : s.awaited ≡ []
  pub auth : s.app.auth_loading ≡ false
  pub board : s.app.board_loading ≡ false
  pub detail : s.app.detail_loading ≡ false
  pub command : s.app.command_loading ≡ none
  pub display : wants_display s.app ≡ true → is_some s.app.display_error ≡ true

idle : (s : System) → Tracks s.app s.awaited → s.awaited ≡ [] → IsIdle s
idle s v e = ground arith

work-nil : (awaited : List Await) → work awaited ≤ 0 → awaited ≡ []
work-nil [] h = refl
work-nil (a ∷ awaited) h = absurd (omega (arith, work_of-positive a, h))

module _ (urls : ServiceBaseUrls) (pick : System → ℕ) (world : System → World) where
  -- One of the calls that are awaited settles: in any order, with any answer.
  abbrev pub one_answer : System → System
  one_answer s = act urls (answered (pick s % length s.awaited) (world s)) s

  unfoldable pub drain : ℕ → System → System
  drain zero s = s
  drain (suc fuel) s = drain fuel (one_answer s)

  one_answer-work : (s : System) → work (one_answer s).awaited ≤ work s.awaited - 1
  unfolding act
  one_answer-work s = elim (Nil-cases s.awaited) [
    | inl e ↦ rw e (omega arith)
    | inr h ↦
        let (a, others, e) = take_out-of_lt (pick s % length s.awaited) s.awaited (omega arith) in
        rw e (
          omega (
            arith,
            settled-work s.app others a (answer urls (world s) a) (answer-Settles urls (world s) a),
            work-take_out (pick s % length s.awaited) s.awaited a others e,
          ))
  ]

  drain-Tracks :
      (fuel : ℕ) (s : System)
      → Tracks s.app s.awaited
      → let t = drain fuel s in Tracks t.app t.awaited
  unfolding drain
  drain-Tracks zero s v = v
  drain-Tracks (suc fuel) s v =
      drain-Tracks fuel (one_answer s)
        (act-Tracks urls (answered (pick s % length s.awaited) (world s)) s v)

  drain-work : (fuel : ℕ) (s : System) → work (drain fuel s).awaited ≤ work s.awaited - fuel
  unfolding drain
  drain-work zero s = omega arith
  drain-work (suc fuel) s = omega (arith, drain-work fuel (one_answer s), one_answer-work s)

  drain-IsIdle-of_fuel :
      (fuel : ℕ) (s : System)
      → Tracks s.app s.awaited
      → work s.awaited ≤ fuel
      → let t = drain fuel s in IsIdle t
  drain-IsIdle-of_fuel fuel s v h =
      idle (drain fuel s) (drain-Tracks fuel s v)
        (work-nil (drain fuel s).awaited (omega (arith, h, drain-work fuel s)))

  -- However the staff client has been used since it was loaded: when the calls that it then awaits
  -- are answered, in any order and with any answers, and nothing else happens, as many answers as
  -- `work` counts leave nothing awaited and nothing shown as loading: no board, detail, sign-in or
  -- item, and a display that has not opened has an error stored.
  pub drain-IsIdle :
      (persisted : Option PersistedSession) (text_size : TextSize) (actions : List Action)
      → let s = act_all urls actions (opened persisted text_size) in
        let t = drain (work s.awaited) s in IsIdle t
  drain-IsIdle persisted text_size actions =
      let s : System = act_all urls actions (opened persisted text_size) in
      drain-IsIdle-of_fuel (work s.awaited) s (used-Tracks urls persisted text_size actions)
        (omega arith)
