-- ===== src/OrdersClient/App/Reload.antt =====
-- A reload of the page: `readAuthSession` reads what `writeAuthSession` has written last.
use agentic_restaurant.Base.{
  String, ◌<◌, ◌≡◌, refl, true, Option, some, List, arith, Outcome, resolved, Option-cases, inl,
  inr,
}
use agentic_restaurant.Base.Json.{Json, is_text}
use agentic_restaurant.UiCommon.TextSize.{TextSize}
use agentic_restaurant.OrdersClient.Api.{UserSummary}
use agentic_restaurant.OrdersClient.Session.{
  SessionAuth, Storage, session_json, read_auth_session, write_auth_session,
}
use agentic_restaurant.OrdersClient.Session.Laws.{
  IsComplete, as_read, read_auth_session-write_auth_session,
}
use agentic_restaurant.OrdersClient.App.{State, Event, initial}
use agentic_restaurant.OrdersClient.App.Handlers.{session_of}
use agentic_restaurant.OrdersClient.App.Step.{run}
use agentic_restaurant.OrdersClient.App.Invariant.{Inv, initial-Inv, run-Inv}

-- The component has the session's token, user and mode.
pub record IsOf (s : State) (session : SessionAuth) : Type 0 where
  pub token : s.token ≡ session.token
  pub user : s.user ≡ some session.user
  pub mode : s.mode ≡ some session.mode

stored_session :
    (s : State) (user : UserSummary)
    → Inv s
    → s.user ≡ some user
    → (session : SessionAuth) × (s.stored ≡ some session) × IsOf s session × (session.user ≡ user)
stored_session s user v signed = elim (Option-cases s.mode) [
  | inl out ↦ absurd (ground (arith, v.linked, out, signed))
  | inr (mode, e) ↦ (
    session_of s.token user mode,
    ground (arith, v.saved),
    record { token = refl; user = signed; mode = e },
    refl,
  )
]

initial-IsOf :
    (session : SessionAuth) (size : TextSize) → IsOf (initial (some session) size) session
unfolding initial
initial-IsOf session size = record { token = refl; user = refl; mode = refl }

module _ (parse : String → Outcome Json) (stringify : Json → String) (storage : Storage)
    (existing : Option SessionAuth) (size : TextSize) (es : List Event) where
  abbrev last : State
  last = run es (initial existing size)

  -- If somebody is signed in after any events, with a token, an id and a login that are not empty,
  -- and sessionStorage has what writeAuthSession writes for the stored session, in a browser whose
  -- JSON.parse inverts JSON.stringify on it, then a reload reads a session back with which the
  -- page starts with the same user, in the same mode and with the same token.
  pub reload_keeps_session :
      (user : UserSummary) (next_size : TextSize)
      → last.user ≡ some user
      → is_text last.token ≡ true
      → 0 < user.id
      → is_text user.login ≡ true
      → ((session : SessionAuth)
          → last.stored ≡ some session
          → (is_text (stringify (session_json session)) ≡ true)
            × (parse (stringify (session_json session)) ≡ resolved (session_json session)))
      → (session : SessionAuth) × (read_auth_session parse stringify
            (write_auth_session parse stringify last.stored storage)
          ≡ some (as_read session))
        × IsOf last session
        × IsOf (initial (some session) next_size) session
  reload_keeps_session user next_size signed present some_id some_login json =
      let v : Inv last = run-Inv es (initial existing size) (initial-Inv existing size) in
      let (session, stored, held, same) = stored_session last user v signed in
      let complete : IsComplete session = record {
        has_token = rw (← held.token) present;
        has_id = rw same some_id;
        has_login = rw same some_login;
      } in
      let (written, parsed) = json session stored in
      (
        session,
        rw stored (
            read_auth_session-write_auth_session parse stringify storage session complete written
              parsed),
        held,
        initial-IsOf session next_size,
      )
