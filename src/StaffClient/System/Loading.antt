-- ===== src/StaffClient/System/Loading.antt =====
-- What the component shows as loading, against the calls that it awaits.
use agentic_restaurant.Base.{
  ℕ, ◌≤◌, ◌≡◌, Bool, true, false, Option, none, some, List, [], ◌∷◌, ◌++◌, resolved, rejected,
  take_out, count, count-take_out, Bool-cases, Option-cases, inl, inr, is_some, arith,
}
use agentic_restaurant.UiCommon.TextSize.{TextSize}
use agentic_restaurant.StaffClient.Config.{ServiceBaseUrls}
use agentic_restaurant.StaffClient.Session.{PersistedSession, interactive_session, display_session}
use agentic_restaurant.StaffClient.App.{
  State, initial, Event, chose_interactive, chose_display, submitted_login, went_back,
  chose_dashboard, logged_out, refreshed, selected_order, clicked_command, polled,
}
use agentic_restaurant.StaffClient.App.Handlers.{
  on_display_token, on_login, on_login_settled, go_back_to_landing, reset_all_state, toggle_lane,
  load_board, on_orders, on_display_orders, load_detail, on_detail, on_item_command,
  on_command_settled, enter_display_mode, capture,
}
use agentic_restaurant.StaffClient.App.Effects.{run_effects, mount, wants_display}
use agentic_restaurant.StaffClient.App.View.{screen, detail_panel}
use agentic_restaurant.StaffClient.App.Step.{handle, offered}
use agentic_restaurant.StaffClient.System.{
  Await, Settles, answer-Settles, of_display_token, of_login, of_orders, of_display_orders,
  of_detail, of_command, at_display_token, at_login, at_orders, at_display_orders, at_detail,
  at_command, System, perform, Action, did, answered, answer, act, act_all, opened, is_outcome,
  awaits, caller_of,
}

abbrev pub is_login : Await → Bool
is_login (at_login _ _) = true
is_login _ = false

abbrev pub is_display_token : Await → Bool
is_display_token at_display_token = true
is_display_token _ = false

abbrev pub is_board : Await → Bool
is_board (at_orders _ _) = true
is_board (at_display_orders _ _) = true
is_board _ = false

abbrev pub is_detail : Await → Bool
is_detail (at_detail _ _ _) = true
is_detail _ = false

-- The call is one that `onItemCommand` waits for.
abbrev pub is_commanding : Await → Bool
is_commanding (at_command _ _ _ _) = true
is_commanding (at_detail caller _ _) = is_some caller
is_commanding (at_orders caller _) = is_some caller
is_commanding (at_display_orders caller _) = is_some caller
is_commanding _ = false

pub record Tracks (app : State) (awaited : List Await) : Type 0 where
  pub auths : app.auth_loading ≡ true → 1 ≤ count is_login awaited
  pub boards : app.board_loading ≡ true → 1 ≤ count is_board awaited
  pub details : app.detail_loading ≡ true → 1 ≤ count is_detail awaited
  pub commands : is_some app.command_loading ≡ true → 1 ≤ count is_commanding awaited
  pub displays :
      wants_display app ≡ true → app.display_error ≡ none → 1 ≤ count is_display_token awaited

-- The state after a handler, before the effects: what the display's effect will see to is left out.
record Handles (before app : State) (awaited : List Await) : Type 0 where
  auths : app.auth_loading ≡ true → 1 ≤ count is_login awaited
  boards : app.board_loading ≡ true → 1 ≤ count is_board awaited
  details : app.detail_loading ≡ true → 1 ≤ count is_detail awaited
  commands : is_some app.command_loading ≡ true → 1 ≤ count is_commanding awaited
  displays :
      wants_display before ≡ true
      → wants_display app ≡ true
      → app.display_error ≡ none
      → 1 ≤ count is_display_token awaited

effects-Tracks :
    (before t : State) (awaited : List Await)
    → Handles before t awaited
    → let (u, fs) = run_effects before t in Tracks u (awaits none none fs ++ awaited)
unfolding run_effects
effects-Tracks before t awaited v = ground arith

after : Event → State → List Await → List Await
after e app awaited =
    awaits (caller_of e) (capture app.session app.selected_order_id) (handle e app).1 ++ awaited

by_user-Handles :
    (e : Event) (s : State) (awaited : List Await)
    → offered (screen s) e s ≡ true
    → is_outcome e ≡ false
    → Tracks s awaited
    → Handles s (handle e s).0 (after e s awaited)
unfolding after screen detail_panel handle on_login load_board go_back_to_landing reset_all_state
    toggle_lane load_detail on_item_command
by_user-Handles chose_interactive s awaited o u v = ground arith
by_user-Handles chose_display s awaited o u v = ground arith
by_user-Handles submitted_login s awaited o u v = ground arith
by_user-Handles went_back s awaited o u v = ground arith
by_user-Handles chose_dashboard s awaited o u v = ground arith
by_user-Handles logged_out s awaited o u v = ground arith
by_user-Handles refreshed s awaited o u v = ground arith
by_user-Handles (selected_order id) s awaited o u v = ground arith
by_user-Handles (clicked_command item_id command) s awaited o u v = ground arith
by_user-Handles polled s awaited o u v = ground arith
by_user-Handles e s awaited o u v = ground arith

settled-Handles :
    (a : Await) (e : Event) (s : State) (others : List Await)
    → Settles a e
    → Tracks s (a ∷ others)
    → Handles s (handle e s).0 (after e s others)
unfolding after handle on_display_token on_login_settled on_orders on_display_orders on_detail
    on_command_settled load_board load_detail
settled-Handles a e s others (of_display_token (resolved t)) v = ground arith
settled-Handles a e s others (of_display_token (rejected t)) v = ground arith
settled-Handles a e s others (of_login (resolved t)) v = ground arith
settled-Handles a e s others (of_login (rejected t)) v = ground arith
settled-Handles a e s others (of_orders (resolved t)) v = ground arith
settled-Handles a e s others (of_orders (rejected t)) v = ground arith
settled-Handles a e s others (of_display_orders (resolved t)) v = ground arith
settled-Handles a e s others (of_display_orders (rejected t)) v = ground arith
settled-Handles a e s others (of_detail (resolved t)) v = ground arith
settled-Handles a e s others (of_detail (rejected t)) v = ground arith
settled-Handles a e s others (of_command (resolved t)) v = ground arith
settled-Handles a e s others (of_command (rejected t)) v = ground arith

settled-Tracks :
    (s : System) (a : Await) (e : Event) (others : List Await)
    → Settles a e
    → Tracks s.app (a ∷ others)
    → let t = perform e (record s { awaited = others }) in Tracks t.app t.awaited
unfolding perform after
settled-Tracks s a e others h v =
    effects-Tracks s.app (handle e s.app).0 (after e s.app others)
      (settled-Handles a e s.app others h v)

by_user-Tracks :
    (e : Event) (s : System)
    → offered (screen s.app) e s.app ≡ true
    → is_outcome e ≡ false
    → Tracks s.app s.awaited
    → let t = perform e s in Tracks t.app t.awaited
unfolding perform after
by_user-Tracks e s o u v =
    effects-Tracks s.app (handle e s.app).0 (after e s.app s.awaited)
      (by_user-Handles e s.app s.awaited o u v)

-- The order of the calls does not matter.
taken-Tracks :
    (app : State) (place : ℕ) (awaited : List Await) (a : Await) (others : List Await)
    → take_out place awaited ≡ some (a, others)
    → Tracks app awaited
    → Tracks app (a ∷ others)
taken-Tracks app place awaited a others e v = record {
  auths = λ h. rw (count-take_out is_login place awaited a others e) (v.auths h);
  boards = λ h. rw (count-take_out is_board place awaited a others e) (v.boards h);
  details = λ h. rw (count-take_out is_detail place awaited a others e) (v.details h);
  commands = λ h. rw (count-take_out is_commanding place awaited a others e) (v.commands h);
  displays = λ h k. rw (count-take_out is_display_token place awaited a others e) (v.displays h k);
}

pub opened-Tracks :
    (persisted : Option PersistedSession) (text_size : TextSize)
    → let s = opened persisted text_size in Tracks s.app s.awaited
unfolding mount initial enter_display_mode load_board
opened-Tracks none text_size = ground arith
opened-Tracks (some (interactive_session token user)) text_size = ground arith
opened-Tracks (some display_session) text_size = ground arith

module _ (urls : ServiceBaseUrls) where
  pub act-Tracks :
      (action : Action) (s : System)
      → Tracks s.app s.awaited
      → let t = act urls action s in Tracks t.app t.awaited
  unfolding act
  act-Tracks (did e) s v = elim (Bool-cases (offered (screen s.app) e s.app)) [
    | inr refused ↦ rw refused v
    | inl possible ↦ elim (Bool-cases (is_outcome e)) [
      | inl outcome ↦ rw (possible, outcome) v
      | inr by_user ↦ rw (possible, by_user) (by_user-Tracks e s possible by_user v)
    ]
  ]
  act-Tracks (answered place w) s v = elim (Option-cases (take_out place s.awaited)) [
    | inl e ↦ rw e v
    | inr ((a, others), e) ↦ rw e (
        settled-Tracks s a (answer urls w a) others (answer-Settles urls w a)
          (taken-Tracks s.app place s.awaited a others e v))
  ]

  pub act_all-Tracks :
      (actions : List Action) (s : System)
      → Tracks s.app s.awaited
      → let t = act_all urls actions s in Tracks t.app t.awaited
  unfolding act_all
  act_all-Tracks [] s v = v
  act_all-Tracks (a ∷ actions) s v = act_all-Tracks actions (act urls a s) (act-Tracks a s v)

  -- However the staff client has been used since it was loaded: while a sign-in, the board, an order
  -- or an item is shown as loading, or the display connects without an error, a call for it is
  -- awaited.
  pub used-Tracks :
      (persisted : Option PersistedSession) (text_size : TextSize) (actions : List Action)
      → let s = act_all urls actions (opened persisted text_size) in Tracks s.app s.awaited
  used-Tracks persisted text_size actions =
      act_all-Tracks actions (opened persisted text_size) (opened-Tracks persisted text_size)
