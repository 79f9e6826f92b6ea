-- ===== src/OrdersClient/App/Invariant.antt =====
-- What holds of the orders client in every state that it reaches.
use agentic_restaurant.Base.{
  String, ◌≡◌, refl, Bool, true, false, Option, none, some, List, [], ◌∷◌, arith, is_some,
  if◌then◌else◌, resolved, rejected,
}
use agentic_restaurant.Base.Json.{is_text}
use agentic_restaurant.UiCommon.TextSize.{TextSize}
use agentic_restaurant.OrdersClient.Basket.Laws.{
  IsValid, upsert_basket_line-IsValid, update_line_quantity-IsValid,
}
use agentic_restaurant.OrdersClient.Api.{UserSummary}
use agentic_restaurant.OrdersClient.Session.{UiMode, SessionAuth}
use agentic_restaurant.OrdersClient.App.{
  State, EntryStep, main, Event, initial, is_authenticated, chose_registered, added_item,
  set_quantity, logged_out, login_settled,
}
use agentic_restaurant.OrdersClient.App.Handlers.{
  session_of, on_login, on_login_settled, on_guest_login, on_app_token_settled, on_guest_settled,
  on_first_menu, reload_menu, on_menu_settled, place_order, on_order_settled, reset_to_landing,
  logout,
}
use agentic_restaurant.OrdersClient.App.Step.{step, run}

abbrev pub is_main : EntryStep → Bool
is_main main = true
is_main _ = false

-- The session that the three variables make up.
abbrev pub session_in : String → Option UserSummary → Option UiMode → Option SessionAuth
session_in token (some user) (some mode) = some (session_of token user mode)
session_in _ _ _ = none

pub record Inv (s : State) : Type 0 where
  pub linked : is_some s.mode ≡ is_some s.user
  pub signed : is_text s.token ≡ true → is_some s.user ≡ true
  pub at_main : is_main s.entry_step ≡ is_some s.user
  pub saved : s.stored ≡ session_in s.token s.user s.mode
  pub valid : IsValid s.basket
  pub empty : s.user ≡ none → s.basket ≡ []

pub initial-Inv : (existing : Option SessionAuth) (size : TextSize) → Inv (initial existing size)
unfolding initial
initial-Inv none size = ground arith
initial-Inv (some session) size = ground arith

step-logged_out : (s : State) → step logged_out s ≡ (if is_authenticated s then logout s else s)
unfolding step
step-logged_out s = ground arith

logout-Inv : (s : State) → Inv (logout s)
unfolding logout
logout-Inv s = record {
  linked = refl;
  signed = λ h. h;
  at_main = refl;
  saved = refl;
  valid = record { distinct = tt; positive = tt };
  empty = λ _. refl;
}

-- Every event that the screen offers, and every outcome that arrives, keeps the invariant.
pub step-Inv : (e : Event) (s : State) → Inv s → Inv (step e s)
unfolding step on_login on_login_settled on_guest_login on_app_token_settled on_guest_settled
    on_first_menu reload_menu on_menu_settled place_order on_order_settled logout reset_to_landing
step-Inv chose_registered s v = ground arith
step-Inv (added_item item) s v = ground (arith, upsert_basket_line-IsValid s.basket item v.valid)
step-Inv (set_quantity id quantity) s v =
    ground (arith, update_line_quantity-IsValid s.basket id quantity v.valid)
step-Inv logged_out s v =
    rw (step-logged_out s) (elim (is_authenticated s) as (λ b. Inv (if b then logout s else s)) [
      | true ↦ logout-Inv s
      | false ↦ v
    ])
step-Inv (login_settled (resolved r)) s v = ground arith
step-Inv (login_settled (rejected e)) s v = ground arith
step-Inv _ s v = ground arith

-- Whatever the user does and whatever the calls answer, in every order, the orders client keeps
-- its invariant, once it holds: user, mode and entry step are set together, the stored session is
-- the signed-in one, the basket is well-formed, and it is empty where nobody is signed in.
pub run-Inv : (es : List Event) (s : State) → Inv s → Inv (run es s)
unfolding run
run-Inv [] s v = v
run-Inv (e ∷ es) s v = run-Inv es (step e s) (step-Inv e s v)
