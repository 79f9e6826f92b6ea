-- ===== src/OrdersClient/Session/Laws.antt =====
-- Reading back what was written, and what is refused.
use agentic_restaurant.Base.{
  ◌<◌, String, ◌≡◌, refl, ap, Bool, true, false, Option, none, some, arith, not, ◌||◌,
  if◌then◌else◌, Outcome, resolved, rejected, ◌==◌, ◌>>=◌,
}
use agentic_restaurant.Base.Json.{Json, null, lookup, obj, str, get?, truthy, is_text}
use agentic_restaurant.OrdersClient.Session.{
  null_if_thrown, UiMode, registered, guest, SessionAuth, ReadSession, Storage, session_json,
  user_json, normalize_mode, mode_name, check_session, read_raw, read_auth_session,
  write_auth_session, auth_storage_key,
}

-- The checks that a stored session has to pass.
pub record IsComplete (session : SessionAuth) : Type 0 where
  pub has_token : is_text session.token ≡ true
  pub has_id : 0 < session.user.id
  pub has_login : is_text session.user.login ≡ true

abbrev pub as_read : SessionAuth → ReadSession
as_read session = record {
  token = some (str session.token);
  user = some (user_json session.user);
  mode = session.mode;
}

normalize_mode-mode_name :
    (mode : UiMode) (client_type : Option Json)
    → normalize_mode (some (str (mode_name mode))) client_type ≡ mode
normalize_mode-mode_name registered client_type = refl
normalize_mode-mode_name guest client_type = refl

check_session-session_json :
    (session : SessionAuth)
    → IsComplete session
    → check_session (session_json session) ≡ resolved (some (as_read session))
unfolding check_session
check_session-session_json session c =
    let some_id : (session.user.id == 0) ≡ false = ground arith in
    rw (c.has_token, c.has_login, some_id, normalize_mode-mode_name session.mode)

abbrev pub HasTruthyParts : ReadSession → Type 0
HasTruthyParts r =
    (truthy r.token ≡ true)
    × (truthy (get? "id" r.user) ≡ true)
    × (truthy (get? "login" r.user) ≡ true)

not_thrown :
    (o : Outcome (Option ReadSession)) {r : ReadSession}
    → null_if_thrown o ≡ some r
    → o ≡ resolved (some r)
not_thrown (resolved x) h = ap resolved h
not_thrown (rejected e) h = cc

not_empty :
    (b : Bool) {x : Option ReadSession} {r : ReadSession}
    → (if not b then none else x) ≡ some r
    → x ≡ some r
not_empty b h = ground arith

none_unless :
    (a b c : Bool) {s r : ReadSession}
    → resolved (if not a || not b || not c then none else some s) ≡ resolved (some r)
    → (a ≡ true) × (b ≡ true) × (c ≡ true) × (s ≡ r)
none_unless a b c h = ground arith

check_session-HasTruthyParts :
    (parsed : Json) (r : ReadSession) → check_session parsed ≡ resolved (some r) → HasTruthyParts r
unfolding check_session
check_session-HasTruthyParts null r h = cc
check_session-HasTruthyParts (obj fs) r h =
    let user = lookup "user" fs in
    let (a, b, c, e) =
      none_unless (truthy (lookup "token" fs)) (truthy (get? "id" user))
        (truthy (get? "login" user)) h in
    rw (← e) (a, b, c)
check_session-HasTruthyParts _ r h = cc

thrown-HasTruthyParts :
    (o : Outcome Json) (r : ReadSession)
    → null_if_thrown (o >>= check_session) ≡ some r
    → HasTruthyParts r
thrown-HasTruthyParts (resolved j) r h = check_session-HasTruthyParts j r (not_thrown _ h)
thrown-HasTruthyParts (rejected e) r h = cc

module _ (parse : String → Outcome Json) (stringify : Json → String) (storage : Storage) where
  -- A session of the orders client that is written is read back unchanged, in every browser whose
  -- JSON.parse inverts JSON.stringify on it, if its token, its user's id and its user's login are
  -- not empty.
  pub read_auth_session-write_auth_session :
      (session : SessionAuth)
      → IsComplete session
      → is_text (stringify (session_json session)) ≡ true
      → parse (stringify (session_json session)) ≡ resolved (session_json session)
      → read_auth_session parse stringify
          (write_auth_session parse stringify (some session) storage)
        ≡ some (as_read session)
  unfolding read_auth_session write_auth_session
  read_auth_session-write_auth_session session c t p =
      rw (t, p, ◌>>=◌, check_session-session_json session c)

  -- After `writeAuthSession(null)` no session is read.
  pub read_auth_session-of_removed :
      read_auth_session parse stringify (write_auth_session parse stringify none storage) ≡ none
  unfolding read_auth_session write_auth_session
  read_auth_session-of_removed = refl

  -- A session that the orders client accepts, whatever text was stored, has a token and a user
  -- with an id and a login that are all truthy.
  pub read_auth_session-HasTruthyParts :
      (r : ReadSession) → read_auth_session parse stringify storage ≡ some r → HasTruthyParts r
  unfolding read_auth_session
  read_auth_session-HasTruthyParts r h = of_raw (storage auth_storage_key) h
    where
      of_raw : (raw : Option String) → read_raw parse stringify raw ≡ some r → HasTruthyParts r
      of_raw none h = cc
      of_raw (some raw) h = thrown-HasTruthyParts (parse raw) r (not_empty (is_text raw) h)
