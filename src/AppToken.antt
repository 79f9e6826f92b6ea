-- ===== src/AppToken.antt =====
-- The application token: orders-client/src/features/auth/appToken.ts, and its copy with
-- `clearDisplayToken` in staff-client/src/features/auth/appToken.ts.
-- The module's variables and the running calls of `requestTokenWithRetry` are one state, and each
-- piece of code between two awaits is one step of it. A promise is named by the number of the call
-- that made it. Times are in milliseconds; `expiresInSeconds` is a natural number, for which
-- `Math.floor(e * 1000 * 0.8)` is 800 e in floating point too.
pub mod Steps
pub mod Invariant
pub mod Retry
pub mod Renewal
pub mod Clear
pub mod Display
pub mod Termination
mod Tests
use agentic_restaurant.Base.{
  ℕ, ◌+◌, ◌*◌, ◌/◌, min, max, String, Bool, true, false, not, ◌&&◌, ◌||◌, Option, none, some, List,
  [], ◌∷◌, map, if◌then◌else◌, ltb, leb, ◌==◌, find, keep_if, Outcome, resolved, rejected,
}
use agentic_restaurant.Base.Json.{is_text}

abbrev pub max_retries : ℕ
max_retries = 5

abbrev pub initial_retry_delay_ms : ℕ
initial_retry_delay_ms = 1000

abbrev pub max_retry_delay_ms : ℕ
max_retry_delay_ms = 30000

abbrev pub token_expiry_buffer_ms : ℕ
token_expiry_buffer_ms = 1000

-- Where a call of `requestTokenWithRetry` stands: at `await acquireAppToken`, or at `await delay`.
pub data Phase : Type 0 where
  acquiring sleeping : Phase

pub record TokenRequest : Type 0 where
  pub id : ℕ
  pub attempt : ℕ
  pub retry_delay_ms : ℕ
  pub phase : Phase
  pub background : Bool  -- a call of `refreshToken` awaits it

pub record TokenState : Type 0 where
  pub token : String
  pub expires_at : ℕ
  pub in_flight : Option ℕ
  pub refresh_timer : Option ℕ  -- when the timer that is set will fire
  pub requests : List TokenRequest
  pub next_id : ℕ

pub record Grant : Type 0 where
  pub access_token : String
  pub expires_in_seconds : ℕ

abbrev pub initial : TokenState
initial = record {
  token = "";
  expires_at = 0;
  in_flight = none;
  refresh_timer = none;
  requests = [];
  next_id = 0;
}

abbrev pub has_valid_token : ℕ → TokenState → Bool
has_valid_token now s = is_text s.token && ltb (now + token_expiry_buffer_ms) s.expires_at

abbrev pub clear_refresh_timer : TokenState → TokenState
clear_refresh_timer s = record s { refresh_timer = none }

abbrev pub refresh_delay_ms : ℕ → ℕ
refresh_delay_ms expires_in_seconds = max 1000 (expires_in_seconds * 1000 * 8 / 10)

abbrev pub schedule_refresh : ℕ → ℕ → TokenState → TokenState
schedule_refresh now expires_in_seconds s = record (clear_refresh_timer s) {
  refresh_timer = some (now + refresh_delay_ms expires_in_seconds);
}

abbrev pub is_request : ℕ → TokenRequest → Bool
is_request id r = r.id == id

-- The call ends: its promise settles, and `finally` forgets the promise that is stored.
abbrev pub finish : ℕ → TokenState → TokenState
finish id s = record s {
  in_flight = none;
  requests = keep_if (λ r. not (is_request id r)) s.requests;
}

-- `requestTokenWithRetry()` up to its first await.
abbrev pub start_request : Bool → TokenState → TokenState
start_request background s = record s {
  in_flight = some s.next_id;
  requests =
      record {
        id = s.next_id;
        attempt = 1;
        retry_delay_ms = initial_retry_delay_ms;
        phase = acquiring;
        background = background;
      }
      ∷ s.requests;
  next_id = s.next_id + 1;
}

abbrev pub await_in_background : Bool → ℕ → TokenRequest → TokenRequest
await_in_background background id r =
    if is_request id r then record r { background = r.background || background } else r

-- The new state, and the promise that is returned.
pub force_token_refresh : Bool → TokenState → TokenState × ℕ
force_token_refresh background s = elim s.in_flight [
  | some id ↦ (record s { requests = map (await_in_background background id) s.requests }, id)
  | none ↦ (start_request background s, s.next_id)
]

-- A promise that is resolved already, or the one of a running call.
pub data Reply : Type 0 where
  returned : String → Reply
  awaits : ℕ → Reply

unfoldable pub get_token : ℕ → TokenState → TokenState × Reply
unfolding force_token_refresh
get_token now s =
    if has_valid_token now s
    then (s, returned s.token)
    else (let (t, id) = force_token_refresh false s in (t, awaits id))

-- `acquireAppToken` is resolved: the rest of the `try` block.
pub attempt_succeeded : ℕ → TokenRequest → Grant → TokenState → TokenState
attempt_succeeded now r grant s = finish r.id (
    schedule_refresh now grant.expires_in_seconds
      (record s { token = grant.access_token; expires_at = now + grant.expires_in_seconds * 1000 }))

abbrev pub replace : TokenRequest → TokenRequest → TokenRequest
replace new r = if is_request new.id r then new else r

-- What the `catch` of `refreshToken` does, if such a call awaits the promise.
abbrev pub retry_in_background : ℕ → Bool → TokenState → TokenState
retry_in_background now background s =
    if background
    then record (clear_refresh_timer s) { refresh_timer = some (now + initial_retry_delay_ms) }
    else s

-- `acquireAppToken` is rejected: the `catch` block, up to `await delay`.
pub attempt_failed : ℕ → TokenRequest → TokenState → TokenState
attempt_failed now r s =
    if r.attempt == max_retries
    then retry_in_background now r.background (finish r.id s)
    else record s { requests = map (replace (record r { phase = sleeping })) s.requests }

-- The delay is over: the end of the loop's body, and the next attempt.
pub next_attempt : TokenRequest → TokenState → TokenState
next_attempt r s =
    let again = record r {
      attempt = r.attempt + 1;
      retry_delay_ms = min (r.retry_delay_ms * 2) max_retry_delay_ms;
      phase = acquiring;
    } in
    record s { requests = map (replace again) s.requests }

abbrev pub settle : ℕ → TokenRequest → Outcome Grant → TokenState → TokenState
unfolding attempt_succeeded attempt_failed
settle now r (resolved grant) s = attempt_succeeded now r grant s
settle now r (rejected e) s = attempt_failed now r s

abbrev pub is_acquiring : Phase → Bool
is_acquiring acquiring = true
is_acquiring sleeping = false

-- The timer's callback, `void refreshToken()`.
pub timer_fired : TokenState → TokenState
unfolding force_token_refresh
timer_fired s = (force_token_refresh true (record s { refresh_timer = none })).0

unfoldable pub clear_token : TokenState → TokenState
clear_token s = clear_refresh_timer (record s { token = ""; expires_at = 0; in_flight = none })
