-- ===== src/StaffClient/System/Tokens.antt =====
-- Which tokens the calls of the component carry: those of a user, or those of the display.
use agentic_restaurant.Base.{
  ◌≡◌, refl, String, true, false, Option, none, some, List, [], ◌∷◌, ◌++◌, Outcome, resolved,
  rejected, take_out, All, All-take_out, OnResolved, OnResolved-intro, Bool-cases, Option-cases,
  inl, inr, arith,
}
use agentic_restaurant.Base.Http.{Request, Response, OnResolved-json_or_throw}
use agentic_restaurant.UiCommon.TextSize.{TextSize}
use agentic_restaurant.StaffClient.Config.{ServiceBaseUrls}
use agentic_restaurant.StaffClient.Session.{
  UiMode, interactive, display, UiSession, PersistedSession, interactive_session, display_session,
}
use agentic_restaurant.StaffClient.Api.{UserSummary, LoginResponse, login, login_request}
use agentic_restaurant.StaffClient.App.{
  State, initial, Polling, Event, Caller, display_token_settled, login_settled, selected_order,
  clicked_command, refreshed, polled, chose_dashboard,
}
use agentic_restaurant.StaffClient.App.Handlers.{
  on_display_token, on_login, on_login_settled, go_back_to_landing, reset_all_state, toggle_lane,
  load_board, on_orders, on_display_orders, load_detail, on_detail, on_item_command,
  on_command_settled, enter_display_mode, capture,
}
use agentic_restaurant.StaffClient.App.Effects.{run_effects, mount}
use agentic_restaurant.StaffClient.App.Invariant.{Inv}
use agentic_restaurant.StaffClient.App.View.{screen, detail_panel}
use agentic_restaurant.StaffClient.App.Step.{handle, offered}
use agentic_restaurant.StaffClient.System.Runs.{act-Inv, opened-Inv}
use agentic_restaurant.StaffClient.System.{
  Await, Settles, answer-Settles, of_display_token, of_login, of_orders, of_display_orders,
  of_detail, of_command, at_display_token, at_login, at_orders, at_display_orders, at_detail,
  at_command, System, World, perform, Action, did, answered, answer, act, act_all, opened,
  is_outcome, awaits, caller_of,
}

after : Event → State → List Await → List Await
after e app awaited =
    awaits (caller_of e) (capture app.session app.selected_order_id) (handle e app).1 ++ awaited

-- `IsIssued token user`: the users service issued the token for the user. `IsAppToken token`: it
-- issued the token for the application.
module _ (IsIssued : String → UserSummary → Type 0) (IsAppToken : String → Type 0) where
  abbrev pub IsUserToken : String → Type 0
  IsUserToken token = (user : UserSummary) × IsIssued token user

  abbrev pub IsFor : UiMode → String → Type 0
  IsFor interactive token = IsUserToken token
  IsFor display token = IsAppToken token

  abbrev IsOfUser : Caller → Type 0
  IsOfUser none = Unit
  IsOfUser (some c) = (c.session.mode ≡ interactive) × IsUserToken c.session.access_token

  abbrev pub IsAuthorised : Await → Type 0
  IsAuthorised at_display_token = Unit
  IsAuthorised (at_login _ _) = Unit
  IsAuthorised (at_orders caller token) = IsUserToken token × IsOfUser caller
  IsAuthorised (at_display_orders caller token) = IsAppToken token
  IsAuthorised (at_detail caller token _) = IsUserToken token × IsOfUser caller
  IsAuthorised (at_command c token _ _) = IsUserToken token × IsOfUser (some c)

  abbrev OfSession : Option UiSession → Type 0
  OfSession none = Unit
  OfSession (some session) = IsFor session.mode session.access_token

  abbrev OfPolling : Option Polling → Type 0
  OfPolling none = Unit
  OfPolling (some p) = IsFor p.mode p.token

  record Holds (app : State) (awaited : List Await) : Type 0 where
    session : OfSession app.session
    polling : OfPolling app.polling
    calls : All IsAuthorised awaited

  effects-Holds :
      (before t : State) (awaited : List Await)
      → Holds t awaited
      → let (u, fs) = run_effects before t in Holds u (awaits none none fs ++ awaited)
  unfolding run_effects load_board enter_display_mode
  effects-Holds before t awaited v = ground arith

  by_user-Holds :
      (e : Event) (s : State) (awaited : List Await)
      → Inv s
      → offered (screen s) e s ≡ true
      → is_outcome e ≡ false
      → Holds s awaited
      → Holds (handle e s).0 (after e s awaited)
  unfolding after screen detail_panel handle on_login load_board go_back_to_landing reset_all_state
      toggle_lane load_detail on_item_command
  by_user-Holds chose_dashboard s awaited i o u v = ground arith
  by_user-Holds (selected_order id) s awaited i o u v = ground arith
  by_user-Holds (clicked_command item_id command) s awaited i o u v = ground arith
  by_user-Holds refreshed s awaited i o u v = ground arith
  by_user-Holds polled s awaited i o u v = ground arith
  by_user-Holds e s awaited i o u v = ground arith

  abbrev pub NamesUser : Outcome LoginResponse → Type 0
  NamesUser = OnResolved (λ r. IsIssued r.access_token r.user)

  -- What the outcome of a call brings: a token for the user that it names, or the application's.
  abbrev pub IsHonest : Event → Type 0
  IsHonest (login_settled o) = NamesUser o
  IsHonest (display_token_settled o) = OnResolved IsAppToken o
  IsHonest _ = Unit

  settled-Holds :
      (a : Await) (e : Event) (s : State) (others : List Await)
      → Settles a e
      → IsHonest e
      → Holds s (a ∷ others)
      → Holds (handle e s).0 (after e s others)
  unfolding after handle on_display_token on_login_settled on_orders on_display_orders on_detail
      on_command_settled load_board load_detail
  settled-Holds a e s others (of_display_token (resolved t)) h v = ground arith
  settled-Holds a e s others (of_display_token (rejected t)) h v = ground arith
  settled-Holds a e s others (of_login (resolved r)) h v = record {
    session = (r.user, h);
    polling = v.polling;
    calls = v.calls.1;
  }
  settled-Holds a e s others (of_login (rejected t)) h v = ground arith
  settled-Holds a e s others (of_orders (resolved t)) h v = ground arith
  settled-Holds a e s others (of_orders (rejected t)) h v = ground arith
  settled-Holds a e s others (of_display_orders (resolved t)) h v = ground arith
  settled-Holds a e s others (of_display_orders (rejected t)) h v = ground arith
  settled-Holds a e s others (of_detail (resolved t)) h v = ground arith
  settled-Holds a e s others (of_detail (rejected t)) h v = ground arith
  settled-Holds a e s others (of_command (resolved t)) h v = ground arith
  settled-Holds a e s others (of_command (rejected t)) h v = ground arith

  perform-Holds :
      (e : Event) (s : System) (others : List Await)
      → Holds (handle e s.app).0 (after e s.app others)
      → let t = perform e (record s { awaited = others }) in Holds t.app t.awaited
  unfolding perform after
  perform-Holds e s others v = effects-Holds s.app (handle e s.app).0 (after e s.app others) v

  -- The users service issues the tokens that its responses hold, and the token manager hands out
  -- tokens of the application.
  pub record IsTrue (w : World) : Type 0 where
    pub users :
        (request : Request) (response : Response LoginResponse) (r : LoginResponse)
        → w.users request ≡ resolved response
        → response.json ≡ resolved r
        → IsIssued r.access_token r.user
    pub display_token : (token : String) → w.display_token ≡ resolved token → IsAppToken token

  module _ (urls : ServiceBaseUrls) where
    answer-IsHonest : (w : World) (a : Await) → IsTrue w → IsHonest (answer urls w a)
    unfolding login
    answer-IsHonest w (at_login l p) h =
        OnResolved-json_or_throw _ (w.users (login_request urls l p)) _
          (h.users (login_request urls l p))
    answer-IsHonest w at_display_token h =
        OnResolved-intro IsAppToken w.display_token h.display_token
    answer-IsHonest w a h = tt

    -- What the services answer in the course of these actions.
    abbrev pub AllTrue : List Action → Type 0
    AllTrue [] = Unit
    AllTrue (did e ∷ actions) = AllTrue actions
    AllTrue (answered place w ∷ actions) = IsTrue w × AllTrue actions

    act-Holds :
        (action : Action) (s : System)
        → AllTrue (action ∷ [])
        → Inv s.app
        → Holds s.app s.awaited
        → let t = act urls action s in Holds t.app t.awaited
    unfolding act
    act-Holds (did e) s h i v = elim (Bool-cases (offered (screen s.app) e s.app)) [
      | inr refused ↦ rw refused v
      | inl possible ↦ elim (Bool-cases (is_outcome e)) [
        | inl outcome ↦ rw (possible, outcome) v
        | inr by_user ↦
            rw (possible, by_user)
              (perform-Holds e s s.awaited (by_user-Holds e s.app s.awaited i possible by_user v))
      ]
    ]
    act-Holds (answered place w) s (h, _) i v = elim (Option-cases (take_out place s.awaited)) [
      | inl e ↦ rw e v
      | inr ((a, others), e) ↦
          let taken : Holds s.app (a ∷ others) = record {
            session = v.session;
            polling = v.polling;
            calls = All-take_out IsAuthorised place s.awaited a others e v.calls;
          } in
          rw e (
            perform-Holds (answer urls w a) s others (
              settled-Holds a (answer urls w a) s.app others (answer-Settles urls w a)
                (answer-IsHonest w a h) taken))
    ]

    AllTrue-head :
        (a : Action) (actions : List Action)
        → AllTrue (a ∷ actions)
        → AllTrue (a ∷ []) × AllTrue actions
    AllTrue-head (did e) actions h = (tt, h)
    AllTrue-head (answered place w) actions (h, hs) = ((h, tt), hs)

    act_all-Holds :
        (actions : List Action) (s : System)
        → AllTrue actions
        → Inv s.app
        → Holds s.app s.awaited
        → let t = act_all urls actions s in Holds t.app t.awaited
    unfolding act_all
    act_all-Holds [] s h i v = v
    act_all-Holds (a ∷ actions) s h i v =
        let (now, later) = AllTrue-head a actions h in
        act_all-Holds actions (act urls a s) later (act-Inv urls a s i) (act-Holds a s now i v)

    opened-Holds :
        (persisted : Option PersistedSession) (text_size : TextSize)
        → ((token : String) (user : UserSummary)
            → persisted ≡ some (interactive_session token user)
            → IsIssued token user)
        → let s = opened persisted text_size in Holds s.app s.awaited
    unfolding mount initial enter_display_mode load_board
    opened-Holds none text_size h = ground arith
    opened-Holds (some (interactive_session token user)) text_size h =
        let t : IsUserToken token = (user, h token user refl) in
        record { session = t; polling = t; calls = ((t, tt), tt) }
    opened-Holds (some display_session) text_size h = ground arith

    -- If every response of the users service names the user that its token was issued for, the
    -- token manager hands out tokens of the application, and a session that was stored has a token
    -- issued for its user, then however the staff client is used: the orders of the interactive
    -- board, an order and every command are asked for with a token of a user, and the orders of
    -- the display with a token of the application.
    pub staff_calls_authorised :
        (persisted : Option PersistedSession) (text_size : TextSize) (actions : List Action)
        → ((token : String) (user : UserSummary)
            → persisted ≡ some (interactive_session token user)
            → IsIssued token user)
        → AllTrue actions
        → All IsAuthorised (act_all urls actions (opened persisted text_size)).awaited
    staff_calls_authorised persisted text_size actions h hs =
        (act_all-Holds actions (opened persisted text_size) hs (opened-Inv persisted text_size)
          (opened-Holds persisted text_size h)).calls
