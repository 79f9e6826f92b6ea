-- ===== src/AppToken/Display/Origin.antt =====
-- Where a token that `getDisplayToken` hands out comes from.
use agentic_restaurant.Base.{
  ℕ, ◌+◌, ◌*◌, ◌<◌, ◌≡◌, ◌∙◌, subst, ◌⊎◌, inl, inr, String, List, [], ◌∷◌, arith, Any, true, false,
  resolved, rejected,
}
use agentic_restaurant.Base.Json.{is_text}
use agentic_restaurant.AppToken.{TokenState, get_token, returned}
use agentic_restaurant.AppToken.Steps.{called, settled, woke, fired, step}
use agentic_restaurant.AppToken.Display.{DisplayEvent, managed, cleared, display_step, display_run}

-- The event is an answer of the service with this token, which runs out then.
abbrev pub IsGrantOf : String → ℕ → ℕ × DisplayEvent → Type 0
IsGrantOf token expires_at (time, managed (settled id (resolved grant))) =
    (grant.access_token ≡ token) × (time + grant.expires_in_seconds * 1000 ≡ expires_at)
IsGrantOf token expires_at (time, managed (settled id (rejected e))) = ⊥
IsGrantOf token expires_at (time, managed called) = ⊥
IsGrantOf token expires_at (time, managed (woke id)) = ⊥
IsGrantOf token expires_at (time, managed fired) = ⊥
IsGrantOf token expires_at (time, cleared) = ⊥

-- Such an answer, for which the token is not within a second of running out.
abbrev pub IsLive : String → ℕ → ℕ × DisplayEvent → Type 0
IsLive token now e = (expires_at : ℕ) × IsGrantOf token expires_at e × (now + 1000 < expires_at)

-- Where the token that is stored comes from.
abbrev Origin : TokenState → List (ℕ × DisplayEvent) → TokenState → Type 0
Origin s es t =
    (t.token ≡ "")
    ⊎ ((t.token ≡ s.token) × (t.expires_at ≡ s.expires_at))
    ⊎ Any (IsGrantOf t.token t.expires_at) es

step-Origin :
    (now : ℕ) (e : DisplayEvent) (s : TokenState) → Origin s ((now, e) ∷ []) (display_step now e s)
unfolding display_step step
step-Origin now (managed called) s = ground arith
step-Origin now (managed (settled id (resolved grant))) s = ground arith
step-Origin now (managed (settled id (rejected e))) s = ground arith
step-Origin now (managed (woke id)) s = ground arith
step-Origin now (managed fired) s = ground arith
step-Origin now cleared s = ground arith

later :
    (e : ℕ × DisplayEvent) (es : List (ℕ × DisplayEvent)) (s t u : TokenState)
    → Origin s (e ∷ []) t
    → Origin t es u
    → Origin s (e ∷ es) u
later e es s t u first (inl none_left) = inl none_left
later e es s t u first (inr (inr recent)) = inr (inr (inr recent))
later e es s t u (inl none_left) (inr (inl (same, kept))) = inl (same ∙ none_left)
later e es s t u (inr (inl (before, held))) (inr (inl (same, kept))) =
    inr (inl (same ∙ before, kept ∙ held))
later e es s t u (inr (inr (inl granted))) (inr (inl (same, kept))) =
    inr (inr (inl rw (same, kept) granted))
later e es s t u (inr (inr (inr nowhere))) (inr (inl (same, kept))) = absurd nowhere

run-Origin : (es : List (ℕ × DisplayEvent)) (s : TokenState) → Origin s es (display_run es s)
unfolding display_run
run-Origin [] s = ground arith
run-Origin ((now, e) ∷ es) s =
    later (now, e) es s (display_step now e s) (display_run es (display_step now e s))
      (step-Origin now e s) (run-Origin es (display_step now e s))

get_token_valid :
    (s : TokenState) (now : ℕ) (t : String)
    → (get_token now s).1 ≡ returned t
    → (is_text s.token ≡ true) × (s.token ≡ t) × (now + 1000 < s.expires_at)
unfolding get_token
get_token_valid s now t e = ground arith

is_text-empty : (x : String) → x ≡ "" → is_text x ≡ true → ⊥
is_text-empty x e p = let clash : false ≡ true = subst (λ y. is_text y ≡ true) e p in ground arith

Any-IsGrantOf :
    (es : List (ℕ × DisplayEvent)) (t : String) (now expires_at : ℕ)
    → now + 1000 < expires_at
    → Any (IsGrantOf t expires_at) es
    → Any (IsLive t now) es
Any-IsGrantOf [] t now expires_at h nowhere = absurd nowhere
Any-IsGrantOf (e ∷ es) t now expires_at h (inl here) = inl (expires_at, here, h)
Any-IsGrantOf (e ∷ es) t now expires_at h (inr there) =
    inr (Any-IsGrantOf es t now expires_at h there)

-- After any events of the staff client's token manager, the clearing of the token included, from a
-- state without a token: a token that getDisplayToken hands out at once was the answer of the
-- service in one of those events, and the lifetime that this answer gave it ends more than a
-- second later.
pub get_token-IsLive :
    (es : List (ℕ × DisplayEvent)) (s : TokenState) (now : ℕ) (t : String)
    → s.token ≡ ""
    → (get_token now (display_run es s)).1 ≡ returned t
    → Any (IsLive t now) es
get_token-IsLive es s now t h e =
    let u : TokenState = display_run es s in
    let (present, stored, live) = get_token_valid u now t e in
    elim (run-Origin es s) [
      | inl none_left ↦ absurd (is_text-empty u.token none_left present)
      | inr (inl (same, kept)) ↦ absurd (is_text-empty u.token (same ∙ h) present)
      | inr (inr granted) ↦
          Any-IsGrantOf es t now u.expires_at live
            (subst (λ x. Any (IsGrantOf x u.expires_at) es) stored granted)
    ]
