-- ===== src/StaffClient/App/Display.antt =====
-- The token that a display polls with.
use agentic_restaurant.Base.{
  String, ◌≡◌, sym, ap, ◌∙◌, Bool, true, false, some, List, [], ◌∷◌, arith, Bool-cases, inl, inr,
  All,
}
use agentic_restaurant.StaffClient.Session.{display}
use agentic_restaurant.StaffClient.App.{
  State, Event, display_board, fetch_display_orders, polled, display_token_settled, login_settled,
  logged_out,
}
use agentic_restaurant.StaffClient.App.Handlers.{
  display_ui_session, load_board, on_login, toggle_lane, on_orders, on_display_orders, load_detail,
  on_detail, on_item_command, on_command_settled,
}
use agentic_restaurant.StaffClient.App.View.{screen, detail_panel}
use agentic_restaurant.StaffClient.App.Quiet.{run_effects-of_unchanged, react_of_unchanged}
use agentic_restaurant.StaffClient.App.Step.{offered, handle, react, step, run}

-- Events that neither leave the board nor are the outcome of a sign-in.
abbrev pub stays : Event → Bool
stays (display_token_settled _) = false
stays (login_settled _) = false
stays logged_out = false
stays _ = true

-- A display board that was opened with this token.
pub record IsDisplaying (token : String) (s : State) : Type 0 where
  pub on_board : s.view ≡ display_board
  pub entered : s.session ≡ some (display_ui_session token)
  pub polls : s.polling ≡ some (record { token = token; mode = display })

handle-IsDisplaying :
    (e : Event) (token : String) (s : State)
    → stays e ≡ true
    → IsDisplaying token s
    → offered (screen s) e s ≡ true
    → IsDisplaying token (handle e s).0
unfolding handle screen detail_panel on_login toggle_lane on_orders on_display_orders load_detail
    on_detail on_item_command on_command_settled
handle-IsDisplaying _ token s h d o = ground arith

step-IsDisplaying :
    (e : Event) (token : String) (s : State)
    → stays e ≡ true
    → IsDisplaying token s
    → IsDisplaying token (step e s)
unfolding step react
step-IsDisplaying e token s h d = elim (Bool-cases (offered (screen s) e s)) [
  | inr n ↦ rw n d
  | inl o ↦
      let k = handle-IsDisplaying e token s h d o in
      rw
        (
          o,
          run_effects-of_unchanged s (handle e s).0 (k.on_board ∙ sym d.on_board)
              (k.entered ∙ sym d.entered),
        )
        k
]

run-IsDisplaying :
    (es : List Event) (token : String) (s : State)
    → All (λ e. stays e ≡ true) es
    → IsDisplaying token s
    → IsDisplaying token (run es s)
unfolding run
run-IsDisplaying [] token s h d = d
run-IsDisplaying (e ∷ es) token s h d =
    run-IsDisplaying es token (step e s) h.1 (step-IsDisplaying e token s h.0 d)

tick :
    (token : String) (s : State)
    → IsDisplaying token s
    → (react polled s).1 ≡ fetch_display_orders token ∷ []
unfolding handle load_board
tick token s d =
    ap (λ r. r.1) (react_of_unchanged polled s (ground arith) (ground arith)) ∙ ground arith

-- A display goes on with the token that it was entered with: after any events but a logout and the
-- outcome of a sign-in, a tick of the interval asks for the orders with that token.
pub tick-of_displaying :
    (es : List Event) (token : String) (s : State)
    → All (λ e. stays e ≡ true) es
    → IsDisplaying token s
    → (react polled (run es s)).1 ≡ fetch_display_orders token ∷ []
tick-of_displaying es token s h d = tick token (run es s) (run-IsDisplaying es token s h d)
