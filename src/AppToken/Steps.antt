-- ===== src/AppToken/Steps.antt =====
-- What can happen to the token manager, at a time: a step for each, and runs of them.
use agentic_restaurant.Base.{
  ℕ, Option, none, some, List, [], ◌∷◌, if◌then◌else◌, leb, find, Outcome,
}
use agentic_restaurant.AppToken.{
  TokenState, TokenRequest, Grant, is_acquiring, is_request, get_token, settle, attempt_succeeded,
  attempt_failed, next_attempt, timer_fired,
}

pub data Event : Type 0 where
  called : Event  -- a call of `getAppToken` or `getDisplayToken`
  settled : ℕ → Outcome Grant → Event
  woke : ℕ → Event
  fired : Event

-- Only a call that awaits `acquireAppToken` sees it settle, and only one that sleeps wakes.
on_settled : ℕ → Option TokenRequest → Outcome Grant → TokenState → TokenState
unfolding settle attempt_succeeded attempt_failed
on_settled now none outcome s = s
on_settled now (some r) outcome s = if is_acquiring r.phase then settle now r outcome s else s

on_woke : Option TokenRequest → TokenState → TokenState
unfolding next_attempt
on_woke none s = s
on_woke (some r) s = if is_acquiring r.phase then s else next_attempt r s

on_fired : ℕ → Option ℕ → TokenState → TokenState
unfolding timer_fired
on_fired now none s = s
on_fired now (some due) s = if leb due now then timer_fired s else s

unfoldable pub step : ℕ → Event → TokenState → TokenState
unfolding on_settled on_woke on_fired get_token
step now called s = (get_token now s).0
step now (settled id outcome) s = on_settled now (find (is_request id) s.requests) outcome s
step now (woke id) s = on_woke (find (is_request id) s.requests) s
step now fired s = on_fired now s.refresh_timer s

unfoldable pub run : List (ℕ × Event) → TokenState → TokenState
run [] s = s
run ((now, e) ∷ es) s = run es (step now e s)
