-- ===== src/AppToken/Invariant.antt =====
-- What holds of the token manager of the orders client, which never clears its token.
use agentic_restaurant.Base.{
  ℕ, suc, ◌+◌, ◌*◌, ◌^◌, ◌≤◌, min, ◌≡◌, refl, ◌⊎◌, inl, inr, true, none, some, List, [], ◌∷◌, arith,
  is_some, zero, ==_iff, Bool-cases, Outcome, resolved, rejected,
}
use agentic_restaurant.Base.Json.{is_text}
use agentic_restaurant.AppToken.{
  TokenState, TokenRequest, Grant, Phase, initial, acquiring, sleeping, is_request,
}
use agentic_restaurant.AppToken.Steps.{Event, called, settled, woke, fired, step, run}

-- The delay of attempt `n + 1`.
pub record IsOnSchedule (r : TokenRequest) : Type 0 where
  pub first : 1 ≤ r.attempt
  pub last : r.attempt ≤ 5
  pub waits : r.phase ≡ sleeping → r.attempt ≤ 4
  pub doubled : r.retry_delay_ms * 2 ≡ 1000 * 2 ^ r.attempt

abbrev pub IsRefreshing : List TokenRequest → Type 0
IsRefreshing [] = ⊥
IsRefreshing (r ∷ rs) = (r.background ≡ true) ⊎ IsRefreshing rs

pub record Inv (s : TokenState) : Type 0 where
  pub single :
      ((s.requests ≡ []) × (s.in_flight ≡ none))
      ⊎ ((r : TokenRequest) × (s.requests ≡ r ∷ []) × (s.in_flight ≡ some r.id) × IsOnSchedule r)
  pub renews : is_text s.token ≡ true → (is_some s.refresh_timer ≡ true) ⊎ IsRefreshing s.requests

pub initial-Inv : Inv initial
initial-Inv = ground arith

called-Inv : (now : ℕ) (s : TokenState) → Inv s → Inv (step now called s)
unfolding step
called-Inv now s v = ground arith

doubling : (n d : ℕ) → n ≤ 4 → d * 2 ≡ 1000 * 2 ^ n → min (d * 2) 30000 * 2 ≡ 1000 * 2 ^ (n + 1)
doubling zero d h e = omega arith
doubling (suc zero) d h e = omega arith
doubling (suc (suc zero)) d h e = omega arith
doubling (suc (suc (suc zero))) d h e = omega arith
doubling (suc (suc (suc (suc zero)))) d h e = omega arith
doubling (suc (suc (suc (suc (suc n))))) d h e = omega arith

abbrev pub again : TokenRequest → TokenRequest
again r = record r {
  attempt = r.attempt + 1;
  retry_delay_ms = min (r.retry_delay_ms * 2) 30000;
  phase = acquiring;
}

again-IsOnSchedule :
    (r : TokenRequest) → IsOnSchedule r → r.phase ≡ sleeping → IsOnSchedule (again r)
again-IsOnSchedule r v p = record {
  first = omega arith;
  last = omega (arith, v.waits p);
  waits = λ e. cc;
  doubled = doubling r.attempt r.retry_delay_ms (v.waits p) v.doubled;
}

settled-Inv :
    (now id : ℕ) (outcome : Outcome Grant) (s : TokenState)
    → Inv s
    → Inv (step now (settled id outcome) s)
unfolding step
settled-Inv now id (resolved grant) s v = ground arith
settled-Inv now id (rejected e) s v = ground arith

woke-Inv-of_sleeping :
    (now : ℕ) (s : TokenState) (r : TokenRequest)
    → Inv s
    → s.requests ≡ r ∷ []
    → s.in_flight ≡ some r.id
    → IsOnSchedule r
    → r.phase ≡ sleeping
    → Inv (step now (woke r.id) s)
unfolding step
woke-Inv-of_sleeping now s r v e f k p = record {
  single = inr (again r, ground arith, ground arith, again-IsOnSchedule r k p);
  renews = ground arith;
}

pub Phase-cases : (p : Phase) → (p ≡ acquiring) ⊎ (p ≡ sleeping)
Phase-cases acquiring = inl refl
Phase-cases sleeping = inr refl

woke-Inv : (now id : ℕ) (s : TokenState) → Inv s → Inv (step now (woke id) s)
unfolding step
woke-Inv now id s v = elim v.single [
  | inl (e, f) ↦ ground arith
  | inr (r, e, f, k) ↦ elim (Bool-cases (is_request id r)) [
    | inr other ↦ ground arith
    | inl same ↦ elim (Phase-cases r.phase) [
      | inl busy ↦ ground arith
      | inr p ↦ rw (← (==_iff r.id id).0 same) (woke-Inv-of_sleeping now s r v e f k p)
    ]
  ]
]

fired-Inv : (now : ℕ) (s : TokenState) → Inv s → Inv (step now fired s)
unfolding step
fired-Inv now s v = ground arith

pub step-Inv : (now : ℕ) (e : Event) (s : TokenState) → Inv s → Inv (step now e s)
step-Inv now called s v = called-Inv now s v
step-Inv now (settled id outcome) s v = settled-Inv now id outcome s v
step-Inv now (woke id) s v = woke-Inv now id s v
step-Inv now fired s v = fired-Inv now s v

-- After any events of the token manager of the orders client, from a state with this invariant: at
-- most one call of requestTokenWithRetry runs, and it is the one whose promise is stored; its
-- attempts and delays keep their bounds; and once a token has been obtained, a renewal is always
-- on its way, by the timer or by a running call.
pub events-Inv : (es : List (ℕ × Event)) (s : TokenState) → Inv s → Inv (run es s)
unfolding run
events-Inv [] s v = v
events-Inv ((now, e) ∷ es) s v = events-Inv es (step now e s) (step-Inv now e s v)
