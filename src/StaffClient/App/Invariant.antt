-- ===== src/StaffClient/App/Invariant.antt =====
-- What holds of the staff client in every state that it reaches.
use agentic_restaurant.Base.{
  String, ◌≡◌, refl, true, Option, none, some, List, [], ◌∷◌, arith, Bool-cases, inl, inr, eq_iff,
  ap,
}
use agentic_restaurant.UiCommon.TextSize.{TextSize}
use agentic_restaurant.StaffClient.Session.{
  UiMode, interactive, display, UiSession, PersistedSession, interactive_session, display_session,
}
use agentic_restaurant.StaffClient.App.{
  AppView, interactive_board, display_board, State, Event, initial, chose_interactive,
  chose_display, went_back, chose_dashboard, Polling,
}
use agentic_restaurant.StaffClient.App.Handlers.{
  on_display_token, on_login, on_login_settled, reset_all_state, toggle_lane, on_orders,
  on_display_orders, load_detail, on_detail, on_item_command, on_command_settled,
}
use agentic_restaurant.StaffClient.App.View.{screen, detail_panel}
use agentic_restaurant.StaffClient.App.Effects.{run_effects, mount, token_of, same_token}
use agentic_restaurant.StaffClient.App.Step.{offered, handle, react, step, run}

-- The mode that a view is for.
abbrev pub board_mode : AppView → Option UiMode
board_mode interactive_board = some interactive
board_mode display_board = some display
board_mode _ = none

abbrev pub mode_of : Option UiSession → Option UiMode
mode_of none = none
mode_of (some session) = some session.mode

abbrev pub polling_token : Option Polling → Option String
polling_token none = none
polling_token (some p) = some p.token

-- What a reload of the page starts from keeps the token and the mode of a session.
abbrev pub IsSaved : Option UiSession → Option PersistedSession → Type 0
IsSaved none stored = Unit
IsSaved (some session) none = ⊥
IsSaved (some session) (some display_session) = session.mode ≡ display
IsSaved (some session) (some (interactive_session token user)) =
    (session.mode ≡ interactive) × (session.access_token ≡ token) × (session.user ≡ some user)

pub record Inv (s : State) : Type 0 where
  pub agrees : board_mode s.view ≡ mode_of s.session
  pub polls : polling_token s.polling ≡ token_of s.session
  pub saved : IsSaved s.session s.stored

same_token→eq : (x y : Option String) → same_token x y ≡ true → x ≡ y
same_token→eq none none h = refl
same_token→eq none (some b) h = cc
same_token→eq (some a) none h = cc
same_token→eq (some a) (some b) h = ap some ((eq_iff a b).0 h)

run_effects-Inv :
    (s t : State)
    → Inv s
    → board_mode t.view ≡ mode_of t.session
    → IsSaved t.session t.stored
    → t.polling ≡ s.polling
    → Inv (run_effects s t).0
unfolding run_effects
run_effects-Inv s t v a k p =
    ground (arith, same_token→eq (token_of s.session) (token_of t.session))

-- What the effects rest on, for the state after a handler.
record Handled (s t : State) : Type 0 where
  agrees : board_mode t.view ≡ mode_of t.session
  saved : IsSaved t.session t.stored
  keeps : t.polling ≡ s.polling

handle-Handled :
    (e : Event) (s : State) → Inv s → offered (screen s) e s ≡ true → Handled s (handle e s).0
unfolding handle screen detail_panel on_display_token on_login on_login_settled reset_all_state
    toggle_lane on_orders on_display_orders load_detail on_detail on_item_command on_command_settled
handle-Handled chose_interactive s v o = ground arith
handle-Handled chose_display s v o = ground arith
handle-Handled went_back s v o = ground arith
handle-Handled chose_dashboard s v o = ground arith
handle-Handled _ s v o = ground arith

-- Every event that the screen offers, every tick of the interval and every outcome keeps the
-- invariant, the effects included.
pub step-Inv : (e : Event) (s : State) → Inv s → Inv (step e s)
unfolding step react
step-Inv e s v = elim (Bool-cases (offered (screen s) e s)) [
  | inl o ↦
      let h = handle-Handled e s v o in
      rw o (run_effects-Inv s (handle e s).0 v h.agrees h.saved h.keeps)
  | inr n ↦ rw n v
]

pub mount-Inv :
    (persisted : Option PersistedSession) (size : TextSize) → Inv (mount (initial persisted size)).0
unfolding mount initial
mount-Inv none size = ground arith
mount-Inv (some (interactive_session token user)) size = ground arith
mount-Inv (some display_session) size = ground arith

pub run-Inv : (es : List Event) (s : State) → Inv s → Inv (run es s)
unfolding run
run-Inv [] s v = v
run-Inv (e ∷ es) s v = run-Inv es (step e s) (step-Inv e s v)

-- The page after it was loaded with what `sessionStorage` had, and after any events.
abbrev pub reached : Option PersistedSession → TextSize → List Event → State
reached persisted size es = run es (mount (initial persisted size)).0

-- Whatever happens after the page of the staff client is loaded: a board is shown exactly if there
-- is a session, and it is the board of the session's mode; the interval runs exactly on a board,
-- with the session's token; and what is stored, at its declared type, has the session's mode, and
-- its token and user for a user.
pub reached-Inv :
    (persisted : Option PersistedSession) (size : TextSize) (es : List Event)
    → Inv (reached persisted size es)
reached-Inv persisted size es =
    run-Inv es (mount (initial persisted size)).0 (mount-Inv persisted size)
