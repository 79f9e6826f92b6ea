-- ===== src/AppToken/Display.antt =====
-- The token manager of the staff client, staff-client/src/features/auth/appToken.ts: that of the
-- orders client, and `clearDisplayToken`, which forgets the token and the promise that is stored,
-- and leaves the running calls to run.
pub mod Origin
pub mod Running
use agentic_restaurant.Base.{ℕ, List, [], ◌∷◌}
use agentic_restaurant.AppToken.{TokenState, clear_token}
use agentic_restaurant.AppToken.Steps.{Event, step}

pub data DisplayEvent : Type 0 where
  managed : Event → DisplayEvent
  cleared : DisplayEvent  -- a call of `clearDisplayToken`

unfoldable pub display_step : ℕ → DisplayEvent → TokenState → TokenState
unfolding step clear_token
display_step now (managed e) s = step now e s
display_step now cleared s = clear_token s

unfoldable pub display_run : List (ℕ × DisplayEvent) → TokenState → TokenState
unfolding display_step
display_run [] s = s
display_run ((now, e) ∷ es) s = display_run es (display_step now e s)
