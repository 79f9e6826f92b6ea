-- ===== src/AppToken/Clear.antt =====
-- Clearing the token, which only the staff client does, while a call is running.
use agentic_restaurant.Base.{ℕ, ◌+◌, ◌≡◌, some, arith, resolved, find, length}
use agentic_restaurant.AppToken.{
  TokenState, TokenRequest, Grant, acquiring, is_request, refresh_delay_ms, clear_token, get_token,
  awaits,
}
use agentic_restaurant.AppToken.Steps.{settled, step}

-- If the token is cleared while a call of requestTokenWithRetry awaits its answer, and the answer
-- is a token, that token is stored all the same, and the refresh timer is set again.
pub clear_token_undone :
    (s : TokenState) (r : TokenRequest) (id now : ℕ) (grant : Grant)
    → find (is_request id) s.requests ≡ some r
    → r.phase ≡ acquiring
    → let t = step now (settled id (resolved grant)) (clear_token s) in
      (t.token ≡ grant.access_token)
      × (t.refresh_timer ≡ some (now + refresh_delay_ms grant.expires_in_seconds))
unfolding step clear_token
clear_token_undone s r id now grant e p = (ground arith, ground arith)

-- After a clear, the next call of `getDisplayToken` starts a second call of
-- `requestTokenWithRetry` beside those that run.
pub get_token_after_clear :
    (s : TokenState) (now : ℕ)
    → let (t, reply) = get_token now (clear_token s) in
      (length t.requests ≡ length s.requests + 1) × (reply ≡ awaits s.next_id)
unfolding get_token clear_token
get_token_after_clear s now = (ground arith, ground arith)
