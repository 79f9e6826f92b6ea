-- ===== src/AppToken/Tests.antt =====
-- Runs of the token manager.
use agentic_restaurant.Base.{
  none, ◌*◌, ℕ, ◌+◌, ◌≡◌, ◌≤◌, refl, false, some, List, [], ◌∷◌, Any, length, arith, resolved,
  rejected, other,
}
use agentic_restaurant.AppToken.{
  TokenState, TokenRequest, Grant, initial, get_token, awaits, returned, clear_token,
  has_valid_token, acquiring,
}
use agentic_restaurant.AppToken.Steps.{Event, called, settled, woke, fired, step, run}
use agentic_restaurant.AppToken.Invariant.{Inv, initial-Inv, events-Inv}
use agentic_restaurant.AppToken.Retry.{Failure, granted, get_token_retries, get_token_gives_up}
use agentic_restaurant.AppToken.Termination.{World, drive, drive-ends}
use agentic_restaurant.AppToken.Clear.{clear_token_undone}
use agentic_restaurant.AppToken.Display.{DisplayEvent, managed, cleared, display_run}
use agentic_restaurant.AppToken.Display.Origin.{IsLive, get_token-IsLive}
use agentic_restaurant.AppToken.Display.Running.{display_run-bound}

abbrev grant : Grant
grant = record { access_token = "t1"; expires_in_seconds = 60 }

abbrev failure : ℕ → Failure
failure n = record { rejected_at = n; thrown = other; woke_at = n + 1000 }

abbrev day : List (ℕ × Event)
day =
    (0, called)
    ∷ (10, settled 0 (rejected other))
    ∷ (20, called)
    ∷ (1010, woke 0)
    ∷ (1020, settled 0 (resolved grant))
    ∷ (49020, fired)
    ∷ (49030, called)
    ∷ (49040, settled 1 (resolved grant))
    ∷ []

day_renews : ((run day initial).refresh_timer ≡ some 97040) × ((run day initial).requests ≡ [])
unfolding run step
day_renews = (refl, refl)

events-Inv_example : Inv (run day initial)
events-Inv_example = events-Inv day initial initial-Inv

get_token_retries_example :
    run
      ((5, called)
        ∷ (10, settled 0 (rejected other))
        ∷ (1010, woke 0)
        ∷ (1020, settled 0 (resolved grant))
        ∷ [])
      initial
    ≡ granted 1020 grant (record initial { next_id = 1 })
get_token_retries_example =
    get_token_retries initial refl refl 5 refl (failure 10 ∷ []) 1020 grant (omega arith)

abbrev four : List Failure
four = failure 10 ∷ failure 2000 ∷ failure 5000 ∷ failure 10000 ∷ []

get_token_gives_up_example :
    run
      ((5, called)
        ∷ (10, settled 0 (rejected other))
        ∷ (1010, woke 0)
        ∷ (2000, settled 0 (rejected other))
        ∷ (3000, woke 0)
        ∷ (5000, settled 0 (rejected other))
        ∷ (6000, woke 0)
        ∷ (10000, settled 0 (rejected other))
        ∷ (11000, woke 0)
        ∷ (20000, settled 0 (rejected other))
        ∷ [])
      initial
    ≡ record initial { next_id = 1 }
get_token_gives_up_example = get_token_gives_up initial refl refl 5 refl four 20000 other refl

started_shares : (get_token 5 initial).1 ≡ awaits 0
unfolding get_token
started_shares = refl

started_missing : has_valid_token 9 (get_token 5 initial).0 ≡ false
unfolding get_token
started_missing = refl

abbrev request : TokenRequest
request = record {
  id = 0;
  attempt = 1;
  retry_delay_ms = 1000;
  phase = acquiring;
  background = false;
}

abbrev running : TokenState
running = record initial { requests = request ∷ []; in_flight = some 0; next_id = 1 }

clear_token_undone_example :
    let t = step 700 (settled 0 (resolved grant)) (clear_token running) in
    (t.token ≡ "t1") × (t.refresh_timer ≡ some 48700)
clear_token_undone_example = clear_token_undone running request 0 700 grant refl refl

-- A service that rejects every attempt, while the token is asked for in between.
abbrev down : World
down = record {
  answer = λ _. rejected other;
  time = λ r. r.attempt * 100000;
  meanwhile = λ r. (r.attempt * 50000, false) ∷ [];
}

drive-ends_example :
    ((drive down 9 (run ((5, called) ∷ []) initial)).requests ≡ [])
    × ((drive down 9 (run ((5, called) ∷ []) initial)).in_flight ≡ none)
drive-ends_example =
    drive-ends down (run ((5, called) ∷ []) initial)
      (events-Inv ((5, called) ∷ []) initial initial-Inv)

-- The board is left while a call runs, and shown again.
abbrev twice : List (ℕ × DisplayEvent)
twice =
    (0, managed called)
    ∷ (10, cleared)
    ∷ (20, managed called)
    ∷ (30, managed (settled 0 (resolved grant)))
    ∷ []

two_run :
    length
      (display_run
        ((0, managed called) ∷ (10, cleared) ∷ (20, managed called) ∷ [])
        initial).requests
    ≡ 2
unfolding display_run step clear_token get_token
two_run = refl

display_run-bound_example : length (display_run twice initial).requests ≤ 2
display_run-bound_example = display_run-bound twice

hands_out : (get_token 40 (display_run twice initial)).1 ≡ returned "t1"
unfolding display_run step clear_token get_token
hands_out = refl

get_token-IsLive_example : Any (IsLive "t1" 40) twice
get_token-IsLive_example = get_token-IsLive twice initial 40 "t1" refl hands_out

-- The first call fails for the last time after the clear, while a second one runs.
abbrev failing : TokenState
failing = record running { requests = record request { attempt = 5 } ∷ [] }

third_call :
    let s =
      display_run
        ((0, cleared) ∷ (10, managed called) ∷ (20, managed (settled 0 (rejected other))) ∷ [])
        failing in
    (length s.requests ≡ 1) × ((get_token 30 s).1 ≡ awaits 2)
unfolding display_run step clear_token get_token
third_call = (refl, refl)
