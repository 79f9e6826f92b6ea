-- ===== src/AppToken/Termination.antt =====
-- The loop of `requestTokenWithRetry` ends, whatever the service answers to its attempts, and
-- whatever else happens meanwhile.
use agentic_restaurant.Base.{
  ℕ, suc, zero, ◌+◌, ◌*◌, ◌-◌, ◌≤◌, ◌≡◌, refl, ◌∙◌, ◌⊎◌, inl, inr, Bool, true, false, none, some,
  List, [], ◌∷◌, arith, map, if◌then◌else◌, Outcome, resolved, rejected,
}
use agentic_restaurant.AppToken.{TokenState, TokenRequest, Grant, acquiring, sleeping, is_acquiring}
use agentic_restaurant.AppToken.Steps.{Event, called, settled, woke, fired, step, run}
use agentic_restaurant.AppToken.Invariant.{Inv, IsOnSchedule, Phase-cases, events-Inv, step-Inv}

-- What a running call meets on its way: the answer to each of its attempts and when it comes, and
-- when getAppToken is called, or the timer is due, before that.
pub record World : Type 0 where
  pub answer : TokenRequest → Outcome Grant
  pub time : TokenRequest → ℕ
  pub meanwhile : TokenRequest → List (ℕ × Bool)

abbrev of_others : ℕ × Bool → ℕ × Event
of_others (now, by_timer) = (now, if by_timer then fired else called)

-- What the call waits for.
abbrev turn : World → TokenRequest → Event
turn w r = if is_acquiring r.phase then settled r.id (w.answer r) else woke r.id

unfoldable pub one_turn : World → List TokenRequest → TokenState → TokenState
unfolding step run
one_turn w [] s = s
one_turn w (r ∷ rs) s = step (w.time r) (turn w r) (run (map of_others (w.meanwhile r)) s)

-- The running call in this world, for as many turns of its loop as the fuel allows.
unfoldable pub drive : World → ℕ → TokenState → TokenState
drive w zero s = s
drive w (suc fuel) s = drive w fuel (one_turn w s.requests s)

-- The turns that are left: an attempt and the delay after it are two.
abbrev pub work_of : TokenRequest → ℕ
work_of r = (5 - r.attempt) * 2 + (if is_acquiring r.phase then 1 else 0)

abbrev pub work : List TokenRequest → ℕ
work [] = 0
work (r ∷ rs) = work_of r + work rs

abbrev SameTurn : TokenRequest → TokenRequest → Type 0
SameTurn q r = (q.id ≡ r.id) × (q.attempt ≡ r.attempt) × (q.phase ≡ r.phase)

-- A call or the timer joins the running call.
abbrev Joined : TokenRequest → TokenState → Type 0
Joined r t =
    ((t.requests ≡ r ∷ []) ⊎ (t.requests ≡ record r { background = true } ∷ []))
    × (t.in_flight ≡ some r.id)

joins :
    (now : ℕ) (b : Bool) (s : TokenState) (r : TokenRequest)
    → s.requests ≡ r ∷ []
    → s.in_flight ≡ some r.id
    → Joined r (step now (if b then fired else called) s)
unfolding step
joins now true s r e f = ground arith
joins now false s r e f = ground arith

-- The events of others leave the call where it is.
run-of_others :
    (es : List (ℕ × Bool)) (s : TokenState) (r : TokenRequest)
    → s.requests ≡ r ∷ []
    → s.in_flight ≡ some r.id
    → let t = run (map of_others es) s in (q : TokenRequest) × (t.requests ≡ q ∷ []) × SameTurn q r
unfolding run
run-of_others [] s r e f = (r, e, (refl, refl, refl))
run-of_others ((now, b) ∷ es) s r e f =
    let t : TokenState = step now (if b then fired else called) s in
    let (j, g) = joins now b s r e f in
    elim j [
      | inl h ↦ run-of_others es t r h g
      | inr h ↦ run-of_others es t (record r { background = true }) h g
    ]

settled-work :
    (now : ℕ) (outcome : Outcome Grant) (s : TokenState) (q : TokenRequest)
    → s.requests ≡ q ∷ []
    → IsOnSchedule q
    → q.phase ≡ acquiring
    → work (step now (settled q.id outcome) s).requests + 1 ≤ work_of q
unfolding step
settled-work now (resolved grant) s q e k p = ground arith
settled-work now (rejected thrown) s q e k p = ground arith

woke-work :
    (now : ℕ) (s : TokenState) (q : TokenRequest)
    → s.requests ≡ q ∷ []
    → IsOnSchedule q
    → q.phase ≡ sleeping
    → work (step now (woke q.id) s).requests + 1 ≤ work_of q
unfolding step
woke-work now s q e k p = ground (arith, k.waits p)

-- Each turn leaves less to do.
turn-work :
    (w : World) (s : TokenState) (r q : TokenRequest)
    → s.requests ≡ q ∷ []
    → IsOnSchedule q
    → SameTurn q r
    → work (step (w.time r) (turn w r) s).requests + 1 ≤ work_of r
turn-work w s r q e k (i, a, p) = elim (Phase-cases r.phase) [
  | inl busy ↦ ground (arith, settled-work (w.time r) (w.answer r) s q e k (p ∙ busy))
  | inr waits ↦ ground (arith, woke-work (w.time r) s q e k (p ∙ waits))
]

one_turn-Inv : (w : World) (rs : List TokenRequest) (s : TokenState) → Inv s → Inv (one_turn w rs s)
unfolding one_turn
one_turn-Inv w [] s v = v
one_turn-Inv w (r ∷ rs) s v =
    let t : TokenState = run (map of_others (w.meanwhile r)) s in
    step-Inv (w.time r) (turn w r) t (events-Inv (map of_others (w.meanwhile r)) s v)

on_schedule : (s : TokenState) (q : TokenRequest) → Inv s → s.requests ≡ q ∷ [] → IsOnSchedule q
on_schedule s q v e = ground arith

one_turn-work :
    (w : World) (rs : List TokenRequest) (s : TokenState)
    → Inv s
    → s.requests ≡ rs
    → work (one_turn w rs s).requests ≤ work rs - 1
unfolding one_turn
one_turn-work w [] s v e = rw e (omega arith)
one_turn-work w (r ∷ rs) s v e = elim v.single [
  | inl (none_left, f) ↦ absurd (ground (arith, e, none_left))
  | inr (q, single, f, k) ↦
      let t : TokenState = run (map of_others (w.meanwhile r)) s in
      let (p, left, same) =
        run-of_others (w.meanwhile r) s r (ground (arith, e, single))
          (ground (arith, e, single, f)) in
      let scheduled : IsOnSchedule p =
        on_schedule t p (events-Inv (map of_others (w.meanwhile r)) s v) left in
      omega (arith, turn-work w t r p left scheduled same)
]

drive-Inv : (w : World) (fuel : ℕ) (s : TokenState) → Inv s → Inv (drive w fuel s)
unfolding drive
drive-Inv w zero s v = v
drive-Inv w (suc fuel) s v =
    drive-Inv w fuel (one_turn w s.requests s) (one_turn-Inv w s.requests s v)

no_work : (s : TokenState) → Inv s → work s.requests ≤ 0 → s.requests ≡ []
no_work s v h = ground arith

work-bound : (s : TokenState) → Inv s → work s.requests ≤ 9
work-bound s v = ground arith

drive-work :
    (w : World) (fuel : ℕ) (s : TokenState)
    → Inv s
    → work s.requests ≤ fuel
    → (drive w fuel s).requests ≡ []
unfolding drive
drive-work w zero s v h = no_work s v h
drive-work w (suc fuel) s v h =
    drive-work w fuel (one_turn w s.requests s) (one_turn-Inv w s.requests s v)
      (omega (arith, one_turn-work w s.requests s v refl))

idle : (s : TokenState) → Inv s → s.requests ≡ [] → s.in_flight ≡ none
idle s v e = ground arith

-- From a state with the invariant, the loop of a running call of requestTokenWithRetry ends,
-- whatever the service answers to its attempts and whatever calls and timers come in between:
-- after nine turns no call runs and no promise is stored.
pub drive-ends :
    (w : World) (s : TokenState)
    → Inv s
    → ((drive w 9 s).requests ≡ []) × ((drive w 9 s).in_flight ≡ none)
drive-ends w s v =
    let e = drive-work w 9 s v (work-bound s v) in (e, idle (drive w 9 s) (drive-Inv w 9 s v) e)
