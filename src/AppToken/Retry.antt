-- ===== src/AppToken/Retry.antt =====
-- What a call of `requestTokenWithRetry` leads to, when its attempts fail and when one succeeds.
use agentic_restaurant.Base.{
  ℕ, ◌+◌, ◌*◌, ◌≤◌, ◌≡◌, refl, ◌∙◌, ap, false, none, some, List, [], ◌∷◌, ◌++◌, arith, length,
  resolved, rejected, Thrown,
}
use agentic_restaurant.AppToken.{
  TokenState, TokenRequest, Grant, acquiring, start_request, has_valid_token, refresh_delay_ms,
  retry_in_background,
}
use agentic_restaurant.AppToken.Steps.{Event, called, settled, woke, step, run}
use agentic_restaurant.AppToken.Invariant.{again}

-- A failed attempt: when and how it was rejected, and when the delay after it was over.
pub record Failure : Type 0 where
  pub rejected_at : ℕ
  pub thrown : Thrown
  pub woke_at : ℕ

abbrev pub failures : ℕ → List Failure → List (ℕ × Event)
failures id [] = []
failures id (f ∷ fs) =
    (f.rejected_at, settled id (rejected f.thrown)) ∷ (f.woke_at, woke id) ∷ failures id fs

-- The state with a token just obtained, and no call running.
abbrev pub granted : ℕ → Grant → TokenState → TokenState
granted now grant s = record s {
  token = grant.access_token;
  expires_at = now + grant.expires_in_seconds * 1000;
  in_flight = none;
  refresh_timer = some (now + refresh_delay_ms grant.expires_in_seconds);
  requests = [];
}

module _ (s : TokenState) (r : TokenRequest) (running : s.requests ≡ r ∷ [])
    (busy : r.phase ≡ acquiring) where
  step_resolved :
      (now : ℕ) (grant : Grant) → step now (settled r.id (resolved grant)) s ≡ granted now grant s
  unfolding step
  step_resolved now grant = ground arith

  step_rejected :
      (f : Failure)
      → r.attempt ≤ 4
      → step f.woke_at (woke r.id) (step f.rejected_at (settled r.id (rejected f.thrown)) s)
        ≡ record s { requests = again r ∷ [] }
  unfolding step
  step_rejected f h = ground arith

  step_last :
      (now : ℕ) (e : Thrown)
      → r.attempt ≡ 5
      → step now (settled r.id (rejected e)) s
        ≡ retry_in_background now r.background (record s { in_flight = none; requests = [] })
  unfolding step
  step_last now e h = ground arith

run_of_success :
    (fs : List Failure) (s : TokenState) (r : TokenRequest) (now : ℕ) (grant : Grant)
    → s.requests ≡ r ∷ []
    → r.phase ≡ acquiring
    → r.attempt + length fs ≤ 5
    → run (failures r.id fs ++ (now, settled r.id (resolved grant)) ∷ []) s ≡ granted now grant s
unfolding run
run_of_success [] s r now grant e b h = step_resolved s r e b now grant
run_of_success (f ∷ fs) s r now grant e b h =
    ap (run (failures r.id fs ++ (now, settled r.id (resolved grant)) ∷ []))
      (step_rejected s r e b f (omega arith))
    ∙ (run_of_success fs (record s { requests = again r ∷ [] }) (again r) now grant refl refl
        (omega arith))

run_of_failure :
    (fs : List Failure) (s : TokenState) (r : TokenRequest) (now : ℕ) (thrown : Thrown)
    → s.requests ≡ r ∷ []
    → r.phase ≡ acquiring
    → r.attempt + length fs ≡ 5
    → run (failures r.id fs ++ (now, settled r.id (rejected thrown)) ∷ []) s
      ≡ retry_in_background now r.background (record s { in_flight = none; requests = [] })
unfolding run
run_of_failure [] s r now thrown e b h = step_last s r e b now thrown (omega arith)
run_of_failure (f ∷ fs) s r now thrown e b h =
    ap (run (failures r.id fs ++ (now, settled r.id (rejected thrown)) ∷ []))
      (step_rejected s r e b f (omega arith))
    ∙ (run_of_failure fs (record s { requests = again r ∷ [] }) (again r) now thrown refl refl
        (omega arith))

module _ (s : TokenState) (idle : s.requests ≡ []) (free : s.in_flight ≡ none) (asked : ℕ)
    (missing : has_valid_token asked s ≡ false) where
  new_request : TokenRequest
  new_request = record {
    id = s.next_id;
    attempt = 1;
    retry_delay_ms = 1000;
    phase = acquiring;
    background = false;
  }

  started : step asked called s ≡ start_request false s
  unfolding step
  started = ground arith

  -- A call of getAppToken that finds no valid token, while no call runs, and whose first attempts
  -- fail, at most four of them, ends with the token of the attempt that succeeds: the token and
  -- its expiry are stored, the refresh timer is set, and nothing is left running.
  pub get_token_retries :
      (fs : List Failure) (now : ℕ) (grant : Grant)
      → length fs ≤ 4
      → run
          ((asked, called)
            ∷ (failures s.next_id fs ++ (now, settled s.next_id (resolved grant)) ∷ []))
          s
        ≡ granted now grant (record s { next_id = s.next_id + 1 })
  unfolding run new_request
  get_token_retries fs now grant h =
      ap (run (failures s.next_id fs ++ (now, settled s.next_id (resolved grant)) ∷ [])) started
      ∙ run_of_success fs (start_request false s) new_request now grant (ap (◌∷◌ new_request) idle)
          refl (omega arith)

  -- If all five attempts of a call of getAppToken that finds no valid token, while no call runs,
  -- fail, no token is stored, nothing is left running, and no timer is set.
  pub get_token_gives_up :
      (fs : List Failure) (now : ℕ) (thrown : Thrown)
      → length fs ≡ 4
      → run
          ((asked, called)
            ∷ (failures s.next_id fs ++ (now, settled s.next_id (rejected thrown)) ∷ []))
          s
        ≡ record s { next_id = s.next_id + 1 }
  unfolding run new_request
  get_token_gives_up fs now thrown h =
      ap (run (failures s.next_id fs ++ (now, settled s.next_id (rejected thrown)) ∷ [])) started
      ∙ run_of_failure fs (start_request false s) new_request now thrown (ap (◌∷◌ new_request) idle)
          refl (omega arith)
      ∙ ground arith
