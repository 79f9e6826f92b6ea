-- ===== src/AppToken/Display/Running.antt =====
-- How many calls of `requestTokenWithRetry` run beside each other, where the token can be cleared.
use agentic_restaurant.Base.{
  ℕ, ◌+◌, ◌≤◌, ◌≡◌, inl, inr, List, [], ◌∷◌, arith, length, keep_if, find, none, some, true, false,
  Bool, length-map, Option-cases, Outcome, Bool-cases, not, resolved, rejected, is_some,
  if◌then◌else◌,
}
use agentic_restaurant.AppToken.{
  TokenState, TokenRequest, initial, is_request, Grant, sleeping, is_acquiring, clear_token,
  force_token_refresh, await_in_background, has_valid_token, settle, next_attempt, replace,
  attempt_failed, attempt_succeeded,
}
use agentic_restaurant.AppToken.Steps.{Event, called, settled, woke, fired, step}
use agentic_restaurant.AppToken.Display.{DisplayEvent, managed, cleared, display_run}

abbrev pub clears : List (ℕ × DisplayEvent) → ℕ
clears [] = 0
clears ((_, cleared) ∷ es) = clears es + 1
clears ((_, managed _) ∷ es) = clears es

room : TokenState → ℕ
room s = if is_some s.in_flight then 1 else 0

length-keep_if :
    (id : ℕ) (rs : List TokenRequest) → length (keep_if (λ r. not (is_request id r)) rs) ≤ length rs
length-keep_if id [] = omega arith
length-keep_if id (r ∷ rs) = ground (arith, length-keep_if id rs)

length-keep_if-of_find :
    (id : ℕ) (rs : List TokenRequest) (r : TokenRequest)
    → find (is_request id) rs ≡ some r
    → length (keep_if (λ q. not (is_request r.id q)) rs) + 1 ≤ length rs
length-keep_if-of_find id [] r e = ground arith
length-keep_if-of_find id (q ∷ rs) r e =
    ground (arith, length-keep_if r.id rs, length-keep_if-of_find id rs r)

force_token_refresh-room :
    (b : Bool) (s : TokenState) (id : ℕ)
    → let t = (force_token_refresh b s).0 in length t.requests + room s ≤ length s.requests + room t
unfolding force_token_refresh room
force_token_refresh-room b s id = elim (Option-cases s.in_flight) [
  | inl free ↦ ground arith
  | inr (id, running) ↦ ground (arith, length-map (await_in_background b id) s.requests)
]

settle-room :
    (now id : ℕ) (r : TokenRequest) (outcome : Outcome Grant) (s : TokenState)
    → find (is_request id) s.requests ≡ some r
    → let t = (if is_acquiring r.phase then settle now r outcome s else s) in
      length t.requests + room s ≤ length s.requests + room t
unfolding settle attempt_succeeded attempt_failed room
settle-room now id r (resolved grant) s e = ground (arith, length-keep_if-of_find id s.requests r e)
settle-room now id r (rejected thrown) s e = ground (
  arith,
  length-keep_if-of_find id s.requests r e,
  length-map (replace (record r { phase = sleeping })) s.requests,
)

next_attempt-room :
    (r : TokenRequest) (s : TokenState)
    → let t = next_attempt r s in length t.requests + room s ≤ length s.requests + room t
unfolding next_attempt room
next_attempt-room r s = rw length-map (omega arith)

step-room :
    (now : ℕ) (e : Event) (s : TokenState)
    → length (step now e s).requests + room s ≤ length s.requests + room (step now e s)
unfolding step room
step-room now called s = elim (Bool-cases (has_valid_token now s)) [
  | inl valid ↦ ground arith
  | inr missing ↦ ground (arith, force_token_refresh-room false s 0)
]
step-room now (settled id outcome) s = elim (Option-cases (find (is_request id) s.requests)) [
  | inl e ↦ rw e (omega arith)
  | inr (r, e) ↦ rw e (settle-room now id r outcome s e)
]
step-room now (woke id) s = elim (Option-cases (find (is_request id) s.requests)) [
  | inl e ↦ ground arith
  | inr (r, e) ↦ ground (arith, next_attempt-room r s)
]
step-room now fired s =
    ground (arith, force_token_refresh-room true (record s { refresh_timer = none }) 0)

room-bound : (s : TokenState) → room s ≤ 1
unfolding room
room-bound s = ground arith

run-room :
    (es : List (ℕ × DisplayEvent)) (s : TokenState)
    → length (display_run es s).requests + room s
      ≤ length s.requests + clears es + room (display_run es s)
unfolding display_run room clear_token
run-room [] s = ground arith
run-room ((now, managed e) ∷ es) s = ground (arith, run-room es (step now e s), step-room now e s)
run-room ((now, cleared) ∷ es) s = ground (arith, run-room es (clear_token s))

-- After any events of the staff client's token manager, at most one call of requestTokenWithRetry
-- runs more than the token was cleared.
pub display_run-bound :
    (es : List (ℕ × DisplayEvent)) → length (display_run es initial).requests ≤ clears es + 1
display_run-bound es = ground (arith, run-room es initial, room-bound (display_run es initial))
