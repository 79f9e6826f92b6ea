-- ===== src/AppToken/Renewal.antt =====
-- Sharing one call between callers, and renewing the token before it runs out.
use agentic_restaurant.Base.{
  ℕ, ◌+◌, ◌≤◌, ◌≡◌, ◌↔◌, refl, true, false, some, List, [], ◌∷◌, arith, map, Bool-cases, inl, inr,
}
use agentic_restaurant.Base.Json.{is_text}
use agentic_restaurant.AppToken.{
  TokenState, TokenRequest, Grant, is_request, await_in_background, has_valid_token,
  refresh_delay_ms, get_token, awaits,
}
use agentic_restaurant.AppToken.Retry.{granted}

await_in_background-false : (id : ℕ) (r : TokenRequest) → await_in_background false id r ≡ r
await_in_background-false id r = elim (Bool-cases (is_request id r)) [
  | inl same ↦ rw same (ground arith)
  | inr other ↦ rw other
]

map-await_in_background :
    (id : ℕ) (rs : List TokenRequest) → map (await_in_background false id) rs ≡ rs
map-await_in_background id [] = refl
map-await_in_background id (r ∷ rs) =
    cc (await_in_background-false id r, map-await_in_background id rs)

get_token-of_in_flight :
    (u : TokenState) (later id : ℕ)
    → u.in_flight ≡ some id
    → has_valid_token later u ≡ false
    → get_token later u ≡ (u, awaits id)
unfolding get_token
get_token-of_in_flight u later id e h = ground (arith, map-await_in_background id u.requests)

in_flight-get_token :
    (s : TokenState) (now id : ℕ)
    → (get_token now s).1 ≡ awaits id
    → (get_token now s).0.in_flight ≡ some id
unfolding get_token
in_flight-get_token s now id e = ground arith

-- If a first caller of getAppToken was given the promise of a running call, and there is still no
-- valid token, a later caller is given the same promise, and nothing changes.
pub get_token_shared :
    (s : TokenState) (now later id : ℕ)
    → (get_token now s).1 ≡ awaits id
    → has_valid_token later (get_token now s).0 ≡ false
    → get_token later (get_token now s).0 ≡ ((get_token now s).0, awaits id)
get_token_shared s now later id e h =
    get_token-of_in_flight (get_token now s).0 later id (in_flight-get_token s now id e) h

-- When the refresh timer that an obtained token, not empty, sets is due, that token is still valid
-- exactly if its lifetime is six seconds or more, whatever it is and whenever it was obtained.
pub granted_valid_when_due :
    (s : TokenState) (now : ℕ) (grant : Grant)
    → is_text grant.access_token ≡ true
    → (has_valid_token (now + refresh_delay_ms grant.expires_in_seconds) (granted now grant s)
        ≡ true)
      ↔ (6 ≤ grant.expires_in_seconds)
granted_valid_when_due s now grant h = ground arith
