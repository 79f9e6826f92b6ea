-- ===== src/StaffClient/App/Browsing.antt =====
-- The page in use: what a user does at its controls, the ticks of the interval, and the outcomes
-- that arrive, against the machine of Step.
use agentic_restaurant.Base.{
  String, ℕ, ◌++◌, subst, length-append, ◌≤◌, ◌≡◌, refl, sym, ap, ◌∙◌, Bool, true, false, Option,
  none, some, List, [], ◌∷◌, if◌then◌else◌, arith, length, Bool-cases, Option-cases, inl, inr,
  is_some,
}
use agentic_restaurant.UiCommon.TextSize.{
  store_text_size, read_initial_text_size, read_initial-store_text_size,
}
use agentic_restaurant.UiCommon.Widgets.{Gesture, caused_at}
use agentic_restaurant.StaffClient.App.{
  State, Event, polled, display_token_settled, login_settled, orders_settled,
  display_orders_settled, detail_settled, command_settled,
}
use agentic_restaurant.StaffClient.App.View.{screen, detail_panel}
use agentic_restaurant.StaffClient.App.Lanes.{Browser}
use agentic_restaurant.StaffClient.App.Page.{page}
use agentic_restaurant.StaffClient.App.Page.Laws.{page-offered}
use agentic_restaurant.StaffClient.App.Invariant.{Inv, run-Inv}
use agentic_restaurant.StaffClient.App.Step.{offered, react, step, run}

-- An event that no control causes: a tick comes only while an interval is set.
abbrev pub arrives : Event → State → Bool
arrives polled s = is_some s.polling
arrives (display_token_settled _) s = true
arrives (login_settled _) s = true
arrives (orders_settled _ _) s = true
arrives (display_orders_settled _ _) s = true
arrives (detail_settled _ _) s = true
arrives (command_settled _ _) s = true
arrives _ s = false

-- A gesture at the control in a place of the page, or an event that arrives.
pub data Action : Type 0 where
  gestured : ℕ → Gesture → Action
  arrived : Event → Action
  resized : ℕ → Action

-- The page in a tab: the window, the component, and the text size that `localStorage` has.
pub record Tab : Type 0 where
  pub browser : Browser
  pub state : State
  pub stored_text_size : Option String

-- A rendering with its effect on `textSize`.
abbrev pub render : State → Tab → Tab
render s t = record t {
  state = s;
  stored_text_size = store_text_size t.state.text_size s.text_size t.stored_text_size;
}

abbrev pub react_if : Option Event → State → State
react_if none s = s
react_if (some e) s = (react e s).0

-- The handler of the control runs, if there is one, whatever the machine offers. A `resize` of the
-- window sets `isMobileViewport`.
unfoldable pub act : Action → Tab → Tab
act (gestured place gesture) t =
    render (react_if (caused_at place gesture (page t.browser t.state)) t.state) t
act (arrived e) t = render (if arrives e t.state then (react e t.state).0 else t.state) t
act (resized width) t = record t { browser = record t.browser { inner_width = width } }

unfoldable pub operate : List Action → Tab → Tab
operate [] t = t
operate (a ∷ actions) t = operate actions (act a t)

pub step-of_offered :
    (e : Event) (s : State) → offered (screen s) e s ≡ true → step e s ≡ (react e s).0
unfolding step
step-of_offered e s h = rw h

arrives-offered : (e : Event) (s : State) → arrives e s ≡ true → offered (screen s) e s ≡ true
unfolding screen detail_panel
arrives-offered polled s h = ground (arith, h)
arrives-offered (display_token_settled o) s h = ground arith
arrives-offered _ s h = ground arith

-- One action is at most one step of the machine.
act-run :
    (a : Action) (t : Tab)
    → (es : List Event) × ((act a t).state ≡ run es t.state) × (length es ≤ 1)
unfolding act run
act-run (gestured place gesture) t =
    let s = t.state in
    elim (Option-cases (caused_at place gesture (page t.browser s))) [
      | inl e ↦ ([], rw e, omega arith)
      | inr (event, e) ↦ (
        event ∷ [],
        rw e (sym (step-of_offered event s (page-offered s t.browser place gesture e).0)),
        omega arith,
      )
    ]
act-run (arrived event) t =
    let s = t.state in
    elim (Bool-cases (arrives event s)) [
      | inl e ↦ (
        event ∷ [],
        rw e (sym (step-of_offered event s (arrives-offered event s e))),
        omega arith,
      )
      | inr e ↦ ([], rw e, omega arith)
    ]
act-run (resized width) t = ([], refl, omega arith)

pub run-append : (es fs : List Event) (s : State) → run (es ++ fs) s ≡ run fs (run es s)
unfolding run
run-append [] fs s = refl
run-append (e ∷ es) fs s = run-append es fs (step e s)

-- The page of the staff client implements the machine of Step: whatever a user does at the
-- controls of the page, whatever arrives, whenever the interval ticks, and however the window is
-- resized, the state is one that the machine reaches, by a run of at most as many events.
pub operate-run :
    (actions : List Action) (t : Tab)
    → (es : List Event) × ((operate actions t).state ≡ run es t.state)
      × (length es ≤ length actions)
unfolding operate
operate-run [] t = ([], unfold run in refl, omega arith)
operate-run (a ∷ actions) t =
    let (es, e, m) = act-run a t in
    let (fs, f, n) = operate-run actions (act a t) in
    (
      es ++ fs,
      f ∙ (ap (run fs) e ∙ sym (run-append es fs t.state)),
      omega (arith, length-append es fs),
    )

-- So the invariant holds of the component after any actions.
pub operate-Inv : (actions : List Action) (t : Tab) → Inv t.state → Inv (operate actions t).state
operate-Inv actions t v =
    let (es, e, m) = operate-run actions t in subst Inv (sym e) (run-Inv es t.state v)

-- The text size that is shown is the one that the next visit starts with.
abbrev pub HasStored : Tab → Type 0
HasStored t = read_initial_text_size t.stored_text_size ≡ t.state.text_size

act-HasStored : (a : Action) (t : Tab) → HasStored t → HasStored (act a t)
unfolding act
act-HasStored (gestured place gesture) t h =
    read_initial-store_text_size t.state.text_size _ t.stored_text_size h
act-HasStored (arrived event) t h =
    read_initial-store_text_size t.state.text_size _ t.stored_text_size h
act-HasStored (resized width) t h = h

-- If the text size that is shown is the one that the next visit starts with, it is so after any
-- actions.
pub operate-HasStored :
    (actions : List Action) (t : Tab) → HasStored t → HasStored (operate actions t)
unfolding operate
operate-HasStored [] t h = h
operate-HasStored (a ∷ actions) t h = operate-HasStored actions (act a t) (act-HasStored a t h)
