-- ===== src/StaffClient/Session/Laws.antt =====
-- Reading back what was written.
use agentic_restaurant.Base.{
  ◌<◌, String, ◌≡◌, refl, true, false, none, some, arith, Outcome, resolved, ◌==◌, ◌>>=◌,
}
use agentic_restaurant.Base.Json.{Json, str, is_text}
use agentic_restaurant.StaffClient.Api.{UserSummary}
use agentic_restaurant.StaffClient.Session.{
  interactive_session, display_session, read_interactive, read_display, Storage, session_json,
  user_json, check_session, read_persisted_session, write_interactive_session,
  write_display_session, clear_session,
}

check_session-session_json :
    (token : String) (user : UserSummary)
    → is_text token ≡ true
    → 0 < user.id
    → is_text user.login ≡ true
    → check_session (session_json (interactive_session token user))
      ≡ resolved (some (read_interactive (some (str token)) (some (user_json user))))
unfolding check_session
check_session-session_json token user t i l =
    let some_id : (user.id == 0) ≡ false = ground arith in rw (t, l, some_id)

module _ (parse : String → Outcome Json) (stringify : Json → String) (storage : Storage) where
  -- An interactive session of the staff client that is written is read back with the same token
  -- and user, in every browser whose JSON.parse inverts JSON.stringify on it, if the token, the
  -- user's id and the login are not empty.
  pub read-write_interactive_session :
      (token : String) (user : UserSummary)
      → is_text token ≡ true
      → 0 < user.id
      → is_text user.login ≡ true
      → is_text (stringify (session_json (interactive_session token user))) ≡ true
      → parse (stringify (session_json (interactive_session token user)))
        ≡ resolved (session_json (interactive_session token user))
      → read_persisted_session parse stringify
          (write_interactive_session parse stringify token user storage)
        ≡ some (read_interactive (some (str token)) (some (user_json user)))
  unfolding read_persisted_session write_interactive_session
  read-write_interactive_session token user t i l w p =
      rw (w, p, ◌>>=◌, check_session-session_json token user t i l)

  -- A display session is read back as a display session, in every browser whose `JSON.parse`
  -- inverts `JSON.stringify` on it.
  pub read-write_display_session :
      is_text (stringify (session_json display_session)) ≡ true
      → parse (stringify (session_json display_session)) ≡ resolved (session_json display_session)
      → read_persisted_session parse stringify (write_display_session parse stringify storage)
        ≡ some read_display
  unfolding read_persisted_session write_display_session check_session
  read-write_display_session w p = rw (w, p, ◌>>=◌)

  pub read-clear_session :
      read_persisted_session parse stringify (clear_session parse stringify storage) ≡ none
  unfolding read_persisted_session clear_session
  read-clear_session = refl
