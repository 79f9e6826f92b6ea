-- ===== src/OrdersClient/App/Browsing.antt =====
-- The page in use: what a user does at its controls, and the outcomes that arrive, against the
-- machine of Step.
use agentic_restaurant.Base.{
  String, ℕ, ◌++◌, subst, length-append, ◌≤◌, ◌≡◌, refl, sym, ap, ◌∙◌, Bool, true, false, Option,
  none, some, List, [], ◌∷◌, if◌then◌else◌, arith, length, Bool-cases, Option-cases, inl, inr,
}
use agentic_restaurant.UiCommon.TextSize.{
  store_text_size, read_initial_text_size, read_initial-store_text_size,
}
use agentic_restaurant.UiCommon.Widgets.{Gesture, caused_at}
use agentic_restaurant.OrdersClient.App.{
  State, Event, login_settled, app_token_settled, guest_settled, first_menu_settled, menu_settled,
  order_settled,
}
use agentic_restaurant.OrdersClient.App.View.{screen}
use agentic_restaurant.OrdersClient.App.Page.{Browser, page}
use agentic_restaurant.OrdersClient.App.Page.Laws.{caused_at-offered}
use agentic_restaurant.OrdersClient.App.Step.{offered, handle, step, run}
use agentic_restaurant.OrdersClient.App.Invariant.{Inv, run-Inv}

abbrev pub is_outcome : Event → Bool
is_outcome (login_settled _) = true
is_outcome (app_token_settled _ _) = true
is_outcome (guest_settled _) = true
is_outcome (first_menu_settled _ _) = true
is_outcome (menu_settled _) = true
is_outcome (order_settled _) = true
is_outcome _ = false

-- A gesture at the control in a place of the page, or an event that is an outcome.
pub data Action : Type 0 where
  gestured : ℕ → Gesture → Action
  arrived : Event → Action
  resized : ℕ → Action

-- The page in a tab: the window, the component, and the text size that `localStorage` has.
pub record Tab : Type 0 where
  pub browser : Browser
  pub state : State
  pub stored_text_size : Option String

-- A rendering with its effect on `textSize`.
abbrev pub render : State → Tab → Tab
render s t = record t {
  state = s;
  stored_text_size = store_text_size t.state.text_size s.text_size t.stored_text_size;
}

abbrev pub handle_if : Option Event → State → State
handle_if none s = s
handle_if (some e) s = (handle e s).0

-- The handler of the control runs, if there is one, whatever the machine offers. A `resize` of the
-- window sets `isMobileViewport`.
unfoldable pub act : Action → Tab → Tab
act (gestured place gesture) t =
    render (handle_if (caused_at place gesture (page t.browser t.state)) t.state) t
act (arrived e) t = render (if is_outcome e then (handle e t.state).0 else t.state) t
act (resized width) t = record t { browser = record t.browser { inner_width = width } }

unfoldable pub browse : List Action → Tab → Tab
browse [] t = t
browse (a ∷ actions) t = browse actions (act a t)

pub step-of_offered :
    (e : Event) (s : State) → offered (screen s) e s ≡ true → step e s ≡ (handle e s).0
unfolding step
step-of_offered e s h = rw h

pub outcome_offered : (e : Event) (s : State) → is_outcome e ≡ true → offered (screen s) e s ≡ true
unfolding screen
outcome_offered (login_settled o) s h = ground arith
outcome_offered _ s h = ground arith

-- One action is at most one step of the machine.
act-run :
    (a : Action) (t : Tab)
    → (es : List Event) × ((act a t).state ≡ run es t.state) × (length es ≤ 1)
unfolding act run
act-run (gestured place gesture) t =
    let s = t.state in
    elim (Option-cases (caused_at place gesture (page t.browser s))) [
      | inl e ↦ ([], rw e, omega arith)
      | inr (event, e) ↦ (
        event ∷ [],
        rw e (sym (step-of_offered event s (caused_at-offered s t.browser place gesture e).0)),
        omega arith,
      )
    ]
act-run (arrived event) t =
    let s = t.state in
    elim (Bool-cases (is_outcome event)) [
      | inl e ↦ (
        event ∷ [],
        rw e (sym (step-of_offered event s (outcome_offered event s e))),
        omega arith,
      )
      | inr e ↦ ([], rw e, omega arith)
    ]
act-run (resized width) t = ([], refl, omega arith)

pub run-append : (es fs : List Event) (s : State) → run (es ++ fs) s ≡ run fs (run es s)
unfolding run
run-append [] fs s = refl
run-append (e ∷ es) fs s = run-append es fs (step e s)

-- The page of the orders client implements the machine of Step: whatever a user does at the
-- controls of the page, whatever arrives, and however the window is resized, the state is one that
-- the machine reaches, by a run of at most as many events.
pub browse-run :
    (actions : List Action) (t : Tab)
    → (es : List Event) × ((browse actions t).state ≡ run es t.state) × (length es ≤ length actions)
unfolding browse
browse-run [] t = ([], unfold run in refl, omega arith)
browse-run (a ∷ actions) t =
    let (es, e, m) = act-run a t in
    let (fs, f, n) = browse-run actions (act a t) in
    (
      es ++ fs,
      f ∙ (ap (run fs) e ∙ sym (run-append es fs t.state)),
      omega (arith, length-append es fs),
    )

-- So the invariant holds of the component after any actions.
pub browse-Inv : (actions : List Action) (t : Tab) → Inv t.state → Inv (browse actions t).state
browse-Inv actions t v =
    let (es, e, m) = browse-run actions t in subst Inv (sym e) (run-Inv es t.state v)

-- The text size that is shown is the one that the next visit starts with.
abbrev pub HasStored : Tab → Type 0
HasStored t = read_initial_text_size t.stored_text_size ≡ t.state.text_size

act-HasStored : (a : Action) (t : Tab) → HasStored t → HasStored (act a t)
unfolding act
act-HasStored (gestured place gesture) t h =
    read_initial-store_text_size t.state.text_size _ t.stored_text_size h
act-HasStored (arrived event) t h =
    read_initial-store_text_size t.state.text_size _ t.stored_text_size h
act-HasStored (resized width) t h = h

-- If the text size that is shown is the one that the next visit starts with, it is so after any
-- actions.
pub browse-HasStored :
    (actions : List Action) (t : Tab) → HasStored t → HasStored (browse actions t)
unfolding browse
browse-HasStored [] t h = h
browse-HasStored (a ∷ actions) t h = browse-HasStored actions (act a t) (act-HasStored a t h)
